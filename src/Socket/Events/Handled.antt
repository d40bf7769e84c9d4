-- ===== src/Socket/Events/Handled.antt =====
-- Messages and frames change a `ConnectionManager` as `IsDerived` says.
use voltron_ocpp_protocols.Common.{
  ℕ, Bool, true, false, String, ◌==◌, nat_eq, string_eq, if◌then◌else◌, Option, none, some,
}
use voltron_ocpp_protocols.Json.{Value, obj, no_fields}
use voltron_ocpp_protocols.Errors.{Result, Thrown, error}
use voltron_ocpp_protocols.Effect.{pure, throw, lift, ◌>>=◌, modify}
use voltron_ocpp_protocols.Effect.Keeps.{IsPreorder, Keeps, Keeps-pure, Keeps-lift, Keeps-bind}
use voltron_ocpp_protocols.Connection.{associate_station}
use voltron_ocpp_protocols.Schemas.Parse.{
  parse_boot_notification, parse_authorize, parse_status_notification, parse_start_transaction,
  parse_stop_transaction, parse_meter_values,
}
use voltron_ocpp_protocols.Station.State.{Runtime, M}
use voltron_ocpp_protocols.Station.Handlers.{
  accepted_tag, handle_boot_notification, handle_authorize, handle_heartbeat,
  handle_status_notification,
}
use voltron_ocpp_protocols.Station.Transactions.{handle_start_transaction, handle_stop_transaction}
use voltron_ocpp_protocols.Station.Meter.{handle_meter_values}
use voltron_ocpp_protocols.Ocpp.{
  JsonText, Services, Ocpp, Message, start_response, text_of, action_text, is_call, as_message,
  station, create_call_result, boot_notification_call, dispatch, handle_call, handle_value,
  handle_parsed, handle_message,
}
use voltron_ocpp_protocols.Socket.Events.Derived.{
  IsDerived, IsDerived-refl, IsDerived-trans, associate_station-IsDerived,
}

module _ (json : JsonText) (r : Runtime) where
  open r use {Db}

  pub record Derives (s t : Services Db) : Type 0 where
    pub derived : IsDerived s.connections t.connections

  order : IsPreorder Derives
  order = record {
    stays = λ s. record { derived = IsDerived-refl s.connections };
    chains = λ s t u v w. record {
      derived = IsDerived-trans s.connections t.connections u.connections v.derived w.derived;
    };
  }

  throw-Derives : {A : Type 0} (e : Thrown) → Keeps Derives (throw {A = A} e)
  throw-Derives e = record { holds = order.stays }

  station-Derives : {A : Type 0} (m : M Db A) → Keeps Derives (station json r m)
  station-Derives m = record { holds = λ s. record { derived = IsDerived-refl s.connections } }

  if-Derives :
      {A : Type 0} (b : Bool) {m m' : Ocpp json r A}
      → Keeps Derives m
      → Keeps Derives m'
      → Keeps Derives (if b then m else m')
  if-Derives true h k = h
  if-Derives false h k = k

  answered-Derives :
      {A : Type 0} (unique_id : String) (m : M Db A) (f : A → Value)
      → Keeps Derives (station json r m >>= λ a. pure (create_call_result json r unique_id (f a)))
  answered-Derives unique_id m f =
      Keeps-bind order (station json r m) _ (station-Derives m) (λ a. Keeps-pure order _)

  parsed-Derives :
      {A B : Type 0} (p : Result A) (f : A → Ocpp json r B)
      → ((a : A) → Keeps Derives (f a))
      → Keeps Derives (lift p >>= f)
  parsed-Derives p f h = Keeps-bind order (lift p) f (Keeps-lift order p) h

  boot-Derives :
      (identity unique_id : String) (raw : Value) (endpoint : Option String) (now : ℕ)
      → Keeps Derives (boot_notification_call json r identity unique_id raw endpoint now)
  boot-Derives identity unique_id raw endpoint now =
      parsed-Derives (parse_boot_notification (some raw)) _ (λ p.
        Keeps-bind order (station json r (handle_boot_notification r identity p endpoint now)) _
          (station-Derives _)
          (λ x.
            Keeps-bind order
              (modify (λ s. record s {
                connections = associate_station s.connections identity x.station_id;
              }))
              _
              (record {
                holds = λ s. record {
                  derived = associate_station-IsDerived s.connections identity x.station_id;
                };
              })
              (λ _. Keeps-pure order (record (create_call_result json r unique_id x.response) {
                station_id = some x.station_id;
                flush_pending_messages = true;
              }))))

  dispatch-Derives :
      (identity unique_id action : String) (raw : Value) (endpoint : Option String) (now : ℕ)
      → Keeps Derives (dispatch json r identity unique_id action raw endpoint now)
  unfolding dispatch
  dispatch-Derives identity unique_id action raw endpoint now =
      if-Derives (action == "BootNotification") (boot-Derives identity unique_id raw endpoint now) (
        if-Derives (action == "Heartbeat")
          (answered-Derives unique_id (handle_heartbeat r identity now) (λ x. x))
          (if-Derives (action == "Authorize")
            (parsed-Derives (parse_authorize (some raw)) _
              (λ p. answered-Derives unique_id (handle_authorize r identity p now) (λ x. x)))
            (if-Derives (action == "StatusNotification")
              (parsed-Derives (parse_status_notification (some raw)) _ (λ p.
                answered-Derives unique_id (handle_status_notification r identity p now)
                  (λ _. obj no_fields)))
              (if-Derives (action == "StartTransaction")
                (parsed-Derives (parse_start_transaction (some raw)) _ (λ p.
                  answered-Derives unique_id (handle_start_transaction r identity p now)
                    start_response))
                (if-Derives (action == "StopTransaction")
                  (parsed-Derives (parse_stop_transaction (some raw)) _ (λ p.
                    answered-Derives unique_id (handle_stop_transaction r p now)
                      (λ _. accepted_tag)))
                  (if-Derives (action == "MeterValues")
                    (parsed-Derives (parse_meter_values (some raw)) _ (λ p.
                      answered-Derives unique_id (handle_meter_values r identity p now)
                        (λ _. obj no_fields)))
                    (throw-Derives (error "NotImplemented"))))))))

  handle_call-Derives :
      (identity : String) (m : Message) (endpoint : Option String) (now : ℕ)
      → Keeps Derives (handle_call json r identity m endpoint now)
  unfolding handle_call
  handle_call-Derives identity m endpoint now =
      if-Derives (is_call m.message_type)
        (parsed-Derives (text_of m.unique_id) _
          (λ u. dispatch-Derives identity u (action_text m.action) m.payload endpoint now))
        (throw-Derives (error "NotSupported"))

  handle_value-Derives :
      (o : Option Message) (identity : String) (endpoint : Option String) (now : ℕ)
      → Keeps Derives (handle_value json r o identity endpoint now)
  handle_value-Derives none identity endpoint now = throw-Derives (error "ProtocolError")
  handle_value-Derives (some m) identity endpoint now = handle_call-Derives identity m endpoint now

  handle_parsed-Derives :
      (o : Option Value) (identity : String) (endpoint : Option String) (now : ℕ)
      → Keeps Derives (handle_parsed json r o identity endpoint now)
  handle_parsed-Derives none identity endpoint now = throw-Derives (error "FormationViolation")
  handle_parsed-Derives (some v) identity endpoint now =
      handle_value-Derives (as_message v) identity endpoint now

  pub handle_message-Derives :
      (identity raw : String) (endpoint : Option String) (now : ℕ)
      → Keeps Derives (handle_message json r identity raw endpoint now)
  unfolding handle_message
  handle_message-Derives identity raw endpoint now =
      handle_parsed-Derives (json.parse raw) identity endpoint now
