-- ===== src/Ocpp/Replies.antt =====
-- What ocpp.service.ts answers.
use voltron_ocpp_protocols.Common.{
  ℕ, Bool, true, false, String, ◌≡◌, refl, ap, Bool-cases, ◌==◌, if◌then◌else◌, Option, none, some,
  string_eq, inl, inr,
}
use voltron_ocpp_protocols.Json.{
  Value, num, nat, str, arr, item, no_items, obj, no_fields, null, bool, number_eq,
}
use voltron_ocpp_protocols.Errors.{Result, ok, err, Thrown, error, ok_inj}
use mathlib.Core.Path.{subst}
use voltron_ocpp_protocols.Effect.{Effect, pure, throw, lift, modify, ◌>>=◌}
use voltron_ocpp_protocols.Schemas.Parse.{
  parse_boot_notification, parse_authorize, parse_status_notification, parse_start_transaction,
  parse_stop_transaction, parse_meter_values,
}
use voltron_ocpp_protocols.Station.State.{Runtime, M}
use voltron_ocpp_protocols.Station.Handlers.{
  accepted_tag, handle_boot_notification, handle_authorize, handle_heartbeat,
  handle_status_notification,
}
use voltron_ocpp_protocols.Station.Transactions.{handle_start_transaction, handle_stop_transaction}
use voltron_ocpp_protocols.Station.Meter.{handle_meter_values}
use voltron_ocpp_protocols.Connection.{associate_station}
use voltron_ocpp_protocols.Effect.Keeps.{Result-cases}
use voltron_ocpp_protocols.Ocpp.{
  JsonText, Services, start_response, Message, ProcessedOcppMessage, as_message, is_call, text_of,
  action_text, station, create_call_result, boot_notification_call, dispatch, handle_call,
  handle_value, handle_parsed, handle_message,
}

module _ (json : JsonText) (r : Runtime) where
  open r use {Db}

  -- Every value that the method returns is one of which `P` holds.
  record Gives {A : Type 0} (P : A → Type 0) (m : Effect (Services Db) A) : Type 0 where
    gives : (s : Services Db) (a : A) → (m s).1 ≡ ok a → P a

  pure-Gives : {A : Type 0} {P : A → Type 0} (a : A) → P a → Gives P (pure a)
  pure-Gives {P = P} a h = record { gives = λ s b e. subst P (ok_inj e) h }

  throw-Gives : {A : Type 0} {P : A → Type 0} (x : Thrown) → Gives P (throw x)
  throw-Gives x = record { gives = λ s b e. cc }

  bind-Gives :
      {A B : Type 0} {P : B → Type 0} (m : Effect (Services Db) A) (f : A → Effect (Services Db) B)
      → ((a : A) → Gives P (f a))
      → Gives P (m >>= f)
  bind-Gives {A = A} {P = P} m f h = record { gives = λ s b e. step s (m s) b e }
    where
      step :
          (s : Services Db) (x : Services Db × Result A) (b : _)
          → (◌>>=◌ (λ _. x) f s).1 ≡ ok b
          → P b
      step s (t, ok a) b e = (h a).gives t b e
      step s (t, err y) b e = cc

  if-Gives :
      {A : Type 0} {P : A → Type 0} (b : Bool) {m m' : Effect (Services Db) A}
      → Gives P m
      → Gives P m'
      → Gives P (if b then m else m')
  if-Gives true x y = x
  if-Gives false x y = y

  -- The reply is the CALLRESULT of a request.
  abbrev pub Answers : String → ProcessedOcppMessage → Type 0
  Answers unique_id p =
      (payload : Value) × (p.reply
        ≡ json.stringify (arr (item (num (nat 3)) (item (str unique_id) (item payload no_items)))))

  result-Gives :
      (unique_id : String) (payload : Value)
      → Gives (Answers unique_id) (pure (create_call_result json r unique_id payload))
  result-Gives unique_id payload =
      pure-Gives (create_call_result json r unique_id payload) (payload, refl)

  boot_notification_call-Answers :
      (identity unique_id : String) (raw : Value) (endpoint : Option String) (now : ℕ)
      → Gives
          (Answers unique_id)
          (boot_notification_call json r identity unique_id raw endpoint now)
  boot_notification_call-Answers identity unique_id raw endpoint now =
      bind-Gives (lift (parse_boot_notification (some raw))) _ (λ p.
        bind-Gives (station json r (handle_boot_notification r identity p endpoint now)) _ (λ x.
          bind-Gives
            (modify (λ s. record s {
              connections = associate_station s.connections identity x.station_id;
            }))
            _
            (λ _.
              pure-Gives
                (record (create_call_result json r unique_id x.response) {
                  station_id = some x.station_id;
                  flush_pending_messages = true;
                })
                (x.response, refl))))

  answered :
      {A : Type 0} (unique_id : String) (m : M Db A) (f : A → Value)
      → Gives
          (Answers unique_id)
          (station json r m >>= λ a. pure (create_call_result json r unique_id (f a)))
  answered unique_id m f = bind-Gives (station json r m) _ (λ a. result-Gives unique_id (f a))

  dispatch-Answers :
      (identity unique_id action : String) (raw : Value) (endpoint : Option String) (now : ℕ)
      → Gives (Answers unique_id) (dispatch json r identity unique_id action raw endpoint now)
  unfolding dispatch
  dispatch-Answers identity unique_id action raw endpoint now =
      if-Gives (action == "BootNotification")
        (boot_notification_call-Answers identity unique_id raw endpoint now)
        (if-Gives (action == "Heartbeat")
          (answered unique_id (handle_heartbeat r identity now) (λ x. x))
          (if-Gives (action == "Authorize")
            (bind-Gives (lift (parse_authorize (some raw))) _
              (λ p. answered unique_id (handle_authorize r identity p now) (λ x. x)))
            (if-Gives (action == "StatusNotification")
              (bind-Gives (lift (parse_status_notification (some raw))) _ (λ p.
                answered unique_id (handle_status_notification r identity p now)
                  (λ _. obj no_fields)))
              (if-Gives (action == "StartTransaction")
                (bind-Gives (lift (parse_start_transaction (some raw))) _ (λ p.
                  answered unique_id (handle_start_transaction r identity p now) start_response))
                (if-Gives (action == "StopTransaction")
                  (bind-Gives (lift (parse_stop_transaction (some raw))) _
                    (λ p. answered unique_id (handle_stop_transaction r p now) (λ _. accepted_tag)))
                  (if-Gives (action == "MeterValues")
                    (bind-Gives (lift (parse_meter_values (some raw))) _ (λ p.
                      answered unique_id (handle_meter_values r identity p now)
                        (λ _. obj no_fields)))
                    (throw-Gives (error "NotImplemented"))))))))

  text_of-str : (v : Value) (u : String) → text_of v ≡ ok u → v ≡ str u
  text_of-str (str x) u e = cc
  text_of-str _ u e = cc

  -- The request that a reply answers.
  abbrev pub Request : Message → ProcessedOcppMessage → Type 0
  Request m p = (u : String) × (m.message_type ≡ num (nat 2)) × (m.unique_id ≡ str u) × Answers u p

  is_call-num : (v : Value) → is_call v ≡ true → v ≡ num (nat 2)
  is_call-num (num n) e = ap num ((number_eq.same_iff n (nat 2)).0 e)
  is_call-num null e = cc
  is_call-num (bool b) e = cc
  is_call-num (str t) e = cc
  is_call-num (arr vs) e = cc
  is_call-num (obj fs) e = cc

  call-Request :
      (identity : String) (m : Message) (endpoint : Option String) (now : ℕ)
      → is_call m.message_type ≡ true
      → Gives (Request m) (
          lift (text_of m.unique_id) >>= λ u.
          dispatch json r identity u (action_text m.action) m.payload endpoint now)
  call-Request identity m endpoint now c = elim (Result-cases (text_of m.unique_id)) [
    | inl (u, e) ↦ record {
      gives = λ s p h. (
        u,
        is_call-num m.message_type c,
        text_of-str m.unique_id u e,
        (dispatch-Answers identity u (action_text m.action) m.payload endpoint now).gives s p (
            subst
              (λ x.
                (◌>>=◌ (lift x)
                  (λ u. dispatch json r identity u (action_text m.action) m.payload endpoint now)
                  s).1
                ≡ ok p)
              e h),
      );
    }
    | inr (x, e) ↦ rw e (throw-Gives x)
  ]

  handle_call-Request :
      (identity : String) (m : Message) (endpoint : Option String) (now : ℕ)
      → Gives (Request m) (handle_call json r identity m endpoint now)
  unfolding handle_call
  handle_call-Request identity m endpoint now = elim (Bool-cases (is_call m.message_type)) [
    | inl e ↦ rw (handle_call, e) (call-Request identity m endpoint now e)
    | inr e ↦ rw (handle_call, e) (throw-Gives (error "NotSupported"))
  ]

  abbrev pub request_of : Option Value → Option Message
  request_of none = none
  request_of (some v) = as_message v

  handle_value-Request :
      (o : Option Message) (identity : String) (endpoint : Option String) (now : ℕ)
      → Gives
          (λ p. (m : Message) × (o ≡ some m) × Request m p)
          (handle_value json r o identity endpoint now)
  handle_value-Request none identity endpoint now = throw-Gives (error "ProtocolError")
  handle_value-Request (some m) identity endpoint now = record {
    gives = λ s p h. (m, refl, (handle_call-Request identity m endpoint now).gives s p h);
  }

  handle_parsed-Request :
      (v : Option Value) (identity : String) (endpoint : Option String) (now : ℕ)
      → Gives
          (λ p. (m : Message) × (request_of v ≡ some m) × Request m p)
          (handle_parsed json r v identity endpoint now)
  handle_parsed-Request none identity endpoint now = throw-Gives (error "FormationViolation")
  handle_parsed-Request (some v) identity endpoint now =
      handle_value-Request (as_message v) identity endpoint now

  -- A message is answered only if it is the JSON of an array of at least three items, whose first is 2 and
  -- whose second is a text; the reply is then the JSON of [3, that text, a payload].
  pub handle_message-Request :
      (identity raw : String) (endpoint : Option String) (now : ℕ) (s : Services Db)
      (p : ProcessedOcppMessage)
      → (handle_message json r identity raw endpoint now s).1 ≡ ok p
      → (m : Message) × (request_of (json.parse raw) ≡ some m) × Request m p
  unfolding handle_message
  handle_message-Request identity raw endpoint now s p h =
      (handle_parsed-Request (json.parse raw) identity endpoint now).gives s p h
