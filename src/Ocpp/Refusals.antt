-- ===== src/Ocpp/Refusals.antt =====
-- Messages that ocpp.service.ts refuses before it calls a handler.
use voltron_ocpp_protocols.Common.{
  ℕ, Bool, true, false, String, ◌≡◌, ◌==◌, if◌then◌else◌, Option, none, some, string_eq, inl, inr,
}
use voltron_ocpp_protocols.Json.{Value}
use voltron_ocpp_protocols.Errors.{Result, ok, err, Thrown, error}
use voltron_ocpp_protocols.Schemas.Parse.{
  parse_boot_notification, parse_authorize, parse_status_notification, parse_start_transaction,
  parse_stop_transaction, parse_meter_values,
}
use voltron_ocpp_protocols.Effect.Keeps.{Result-cases}
use voltron_ocpp_protocols.Effect.{Effect, throw, lift, ◌>>=◌}
use voltron_ocpp_protocols.Station.State.{Runtime}
use voltron_ocpp_protocols.Ocpp.{
  JsonText, Services, Message, as_message, is_call, text_of, action_text, dispatch, handle_call,
  handle_value, handle_parsed, handle_message,
}

-- What is wrong with the payload of an action, if anything.
abbrev verdict {ℓ} : {A : Type ℓ} → Result A → Result (Unit {0})
verdict (ok a) = ok tt
verdict (err e) = err e

unfoldable pub check_payload : String → Value → Result (Unit {0})
check_payload action raw =
    if action == "BootNotification"
    then verdict (parse_boot_notification (some raw))
    else if action == "Heartbeat"
    then ok tt
    else if action == "Authorize"
    then verdict (parse_authorize (some raw))
    else if action == "StatusNotification"
    then verdict (parse_status_notification (some raw))
    else if action == "StartTransaction"
    then verdict (parse_start_transaction (some raw))
    else if action == "StopTransaction"
    then verdict (parse_stop_transaction (some raw))
    else if action == "MeterValues"
    then verdict (parse_meter_values (some raw))
    else err (error "NotImplemented")

abbrev pub check_call : Message → Result (Unit {0})
check_call m =
    if is_call m.message_type
    then elim (text_of m.unique_id) [
      | ok u ↦ check_payload (action_text m.action) m.payload
      | err x ↦ err x
    ]
    else err (error "NotSupported")

abbrev pub check_value : Option Message → Result (Unit {0})
check_value none = err (error "ProtocolError")
check_value (some m) = check_call m

-- What is wrong with a parsed message, if anything.
abbrev pub check_parsed : Option Value → Result (Unit {0})
check_parsed none = err (error "FormationViolation")
check_parsed (some v) = check_value (as_message v)

module _ (json : JsonText) (r : Runtime) where
  open r use {Db}

  -- A method stops at once where a check fails.
  record Stops {A : Type 0} (check : Result (Unit {0})) (m : Effect (Services Db) A)
      (s : Services Db) (e : Thrown) : Type 0 where
    stopped : check ≡ err e → m s ≡ (s, err e)

  if-Stops :
      {A : Type 0} (b : Bool) {c c' : Result (Unit {0})} {m m' : Effect (Services Db) A}
      {s : Services Db} {e : Thrown}
      → Stops c m s e
      → Stops c' m' s e
      → Stops (if b then c else c') (if b then m else m') s e
  if-Stops true x y = x
  if-Stops false x y = y

  lift-Stops :
      {A B : Type 0} (p : Result A) (k : A → Effect (Services Db) B) (s : Services Db) (e : Thrown)
      → Stops (verdict p) (lift p >>= k) s e
  lift-Stops (ok a) k s e = record { stopped = λ h. cc }
  lift-Stops (err x) k s e = record { stopped = λ h. cc }

  never :
      {A : Type 0} (m : Effect (Services Db) A) (s : Services Db) (e : Thrown) → Stops (ok tt) m s e
  never m s e = record { stopped = λ h. cc }

  throw-Stops :
      {A : Type 0} (x : Thrown) (s : Services Db) (e : Thrown) → Stops {A = A} (err x) (throw x) s e
  throw-Stops x s e = record { stopped = λ h. cc }

  dispatch-Stops :
      (identity unique_id action : String) (raw : Value) (endpoint : Option String) (now : ℕ)
      (s : Services Db) (e : Thrown)
      → Stops
          (check_payload action raw)
          (dispatch json r identity unique_id action raw endpoint now)
          s
          e
  unfolding check_payload dispatch
  dispatch-Stops identity unique_id action raw endpoint now s e =
      if-Stops (action == "BootNotification")
        (lift-Stops (parse_boot_notification (some raw)) _ s e)
        (if-Stops (action == "Heartbeat") (never _ s e) (
          if-Stops (action == "Authorize") (lift-Stops (parse_authorize (some raw)) _ s e) (
            if-Stops (action == "StatusNotification")
              (lift-Stops (parse_status_notification (some raw)) _ s e)
              (if-Stops (action == "StartTransaction")
                (lift-Stops (parse_start_transaction (some raw)) _ s e)
                (if-Stops (action == "StopTransaction")
                  (lift-Stops (parse_stop_transaction (some raw)) _ s e)
                  (if-Stops (action == "MeterValues")
                    (lift-Stops (parse_meter_values (some raw)) _ s e)
                    (throw-Stops (error "NotImplemented") s e)))))))

  text_of-Stops :
      {B : Type 0} (v : Value) (f : String → Result (Unit {0}))
      (k : String → Effect (Services Db) B) (s : Services Db) (e : Thrown)
      → ((u : String) → Stops (f u) (k u) s e)
      → Stops (elim (text_of v) [ ok u ↦ f u | err x ↦ err x ]) (lift (text_of v) >>= k) s e
  text_of-Stops v f k s e h = elim (Result-cases (text_of v)) [
    | inl (u, eq) ↦ rw eq (h u)
    | inr (x, eq) ↦ rw eq (throw-Stops x s e)
  ]

  handle_call-Stops :
      (identity : String) (m : Message) (endpoint : Option String) (now : ℕ) (s : Services Db)
      (e : Thrown)
      → Stops (check_call m) (handle_call json r identity m endpoint now) s e
  unfolding handle_call
  handle_call-Stops identity m endpoint now s e =
      if-Stops (is_call m.message_type)
        (text_of-Stops m.unique_id (λ u. check_payload (action_text m.action) m.payload) _ s e
          (λ u. dispatch-Stops identity u (action_text m.action) m.payload endpoint now s e))
        (throw-Stops (error "NotSupported") s e)

  handle_value-Stops :
      (m : Option Message) (identity : String) (endpoint : Option String) (now : ℕ)
      (s : Services Db) (e : Thrown)
      → Stops (check_value m) (handle_value json r m identity endpoint now) s e
  handle_value-Stops none identity endpoint now s e = throw-Stops (error "ProtocolError") s e
  handle_value-Stops (some m) identity endpoint now s e =
      handle_call-Stops identity m endpoint now s e

  handle_parsed-Stops :
      (v : Option Value) (identity : String) (endpoint : Option String) (now : ℕ) (s : Services Db)
      (e : Thrown)
      → Stops (check_parsed v) (handle_parsed json r v identity endpoint now) s e
  handle_parsed-Stops none identity endpoint now s e = throw-Stops (error "FormationViolation") s e
  handle_parsed-Stops (some v) identity endpoint now s e =
      handle_value-Stops (as_message v) identity endpoint now s e

  -- A message that is no JSON, no CALL, of an unknown action, or whose payload its schema refuses is
  -- thrown as that error, and neither the stations nor the connections change.
  pub handle_message-refused :
      (identity raw : String) (endpoint : Option String) (now : ℕ) (s : Services Db) (e : Thrown)
      → check_parsed (json.parse raw) ≡ err e
      → handle_message json r identity raw endpoint now s ≡ (s, err e)
  unfolding handle_message
  handle_message-refused identity raw endpoint now s e h =
      (handle_parsed-Stops (json.parse raw) identity endpoint now s e).stopped h
