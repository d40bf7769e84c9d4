-- ===== src/Station/Offline/Handlers.antt =====
-- The handlers of charging-station.service.ts, and any sequence of them, while there is no database.
use voltron_ocpp_protocols.Common.{
  ℕ, false, String, ◌≡◌, refl, ◌∙◌, Option, List, [], ◌∷◌, get, string_eq,
}
use voltron_ocpp_protocols.Json.{number_eq}
use voltron_ocpp_protocols.Schemas.Payloads.{
  AuthorizePayload, BootNotificationPayload, StatusNotificationPayload, StartTransactionPayload,
  StopTransactionPayload, MeterValuesPayload,
}
use voltron_ocpp_protocols.Effect.Keeps.{Keeps, Keeps-pure, Keeps-bind}
use voltron_ocpp_protocols.Station.State.{Runtime, Service, pure, ◌>>◌}
use voltron_ocpp_protocols.Station.Handlers.{
  accepted_tag, heartbeat_in_memory, boot_in_memory, touch_in_memory, report_in_memory,
  handle_boot_notification, handle_authorize, handle_heartbeat, handle_status_notification,
}
use voltron_ocpp_protocols.Station.Transactions.{
  start_in_memory, stop_mapped, promote_buffered, handle_start_transaction, handle_stop_transaction,
}
use voltron_ocpp_protocols.Station.Meter.{handle_meter_values}
use voltron_ocpp_protocols.Station.Offline.{
  Offline, Offline-IsPreorder, branch-Offline, promoted-Offline, boot_in_memory-Offline,
  touch_in_memory-Offline, heartbeat_in_memory-Offline, report_in_memory-Offline,
  start_in_memory-Offline, promote_buffered-Offline, stop_mapped-Offline,
}

-- A call of a handler, with the time of the call.
pub data Call : Type 0 where
  boot_notification : String → BootNotificationPayload → Option String → ℕ → Call
  authorize : String → AuthorizePayload → ℕ → Call
  heartbeat : String → ℕ → Call
  status_notification : String → StatusNotificationPayload → ℕ → Call
  start_transaction : String → StartTransactionPayload → ℕ → Call
  stop_transaction : StopTransactionPayload → ℕ → Call
  meter_values : String → MeterValuesPayload → ℕ → Call

module _ (r : Runtime) where
  open r use {Db}

  handle_boot_notification-Offline :
      (identity : String) (payload : BootNotificationPayload) (endpoint : Option String) (now : ℕ)
      → Keeps Offline (handle_boot_notification r identity payload endpoint now)
  unfolding handle_boot_notification
  handle_boot_notification-Offline identity payload endpoint now =
      branch-Offline r (boot_in_memory r identity payload endpoint now) _
        (boot_in_memory-Offline r identity payload endpoint now)

  handle_authorize-Offline :
      (identity : String) (payload : AuthorizePayload) (now : ℕ)
      → Keeps Offline (handle_authorize r identity payload now)
  unfolding handle_authorize
  handle_authorize-Offline identity payload now =
      branch-Offline r (touch_in_memory r identity now >> pure accepted_tag) _ (
        Keeps-bind Offline-IsPreorder (touch_in_memory r identity now) _
          (touch_in_memory-Offline r identity now)
          (λ _. Keeps-pure Offline-IsPreorder accepted_tag))

  handle_heartbeat-Offline :
      (identity : String) (now : ℕ) → Keeps Offline (handle_heartbeat r identity now)
  unfolding handle_heartbeat
  handle_heartbeat-Offline identity now =
      promoted-Offline r identity (heartbeat_in_memory r identity now) _
        (heartbeat_in_memory-Offline r identity now)

  handle_status_notification-Offline :
      (identity : String) (payload : StatusNotificationPayload) (now : ℕ)
      → Keeps Offline (handle_status_notification r identity payload now)
  unfolding handle_status_notification
  handle_status_notification-Offline identity payload now =
      promoted-Offline r identity (report_in_memory r identity payload _ _ now) _
        (report_in_memory-Offline r identity payload _ _ now)

  handle_start_transaction-Offline :
      (identity : String) (payload : StartTransactionPayload) (now : ℕ)
      → Keeps Offline (handle_start_transaction r identity payload now)
  unfolding handle_start_transaction
  handle_start_transaction-Offline identity payload now =
      promoted-Offline r identity (start_in_memory r identity payload now) _
        (start_in_memory-Offline r identity payload now)

  handle_meter_values-Offline :
      (identity : String) (payload : MeterValuesPayload) (now : ℕ)
      → Keeps Offline (handle_meter_values r identity payload now)
  unfolding handle_meter_values
  handle_meter_values-Offline identity payload now =
      promoted-Offline r identity (pure tt) _ (Keeps-pure Offline-IsPreorder tt)

  handle_stop_transaction-Offline :
      (payload : StopTransactionPayload) (now : ℕ)
      → Keeps Offline (handle_stop_transaction r payload now)
  unfolding handle_stop_transaction
  handle_stop_transaction-Offline payload now = record {
    holds = λ s.
        (Keeps-bind Offline-IsPreorder
            (promote_buffered r (get s.memory_transactions payload.transaction_id))
            (λ _. stop_mapped r (get s.memory_transactions payload.transaction_id) payload now)
            (promote_buffered-Offline r (get s.memory_transactions payload.transaction_id))
            (λ _.
              stop_mapped-Offline r (get s.memory_transactions payload.transaction_id) payload
                now)).holds
          s;
  }

  abbrev pub perform : Call → Service Db → Service Db
  perform (boot_notification identity payload endpoint now) s =
      (handle_boot_notification r identity payload endpoint now s).0
  perform (authorize identity payload now) s = (handle_authorize r identity payload now s).0
  perform (heartbeat identity now) s = (handle_heartbeat r identity now s).0
  perform (status_notification identity payload now) s =
      (handle_status_notification r identity payload now s).0
  perform (start_transaction identity payload now) s =
      (handle_start_transaction r identity payload now s).0
  perform (stop_transaction payload now) s = (handle_stop_transaction r payload now s).0
  perform (meter_values identity payload now) s = (handle_meter_values r identity payload now s).0

  perform-Offline : (c : Call) (s : Service Db) → Offline s (perform c s)
  perform-Offline (boot_notification identity payload endpoint now) s =
      (handle_boot_notification-Offline identity payload endpoint now).holds s
  perform-Offline (authorize identity payload now) s =
      (handle_authorize-Offline identity payload now).holds s
  perform-Offline (heartbeat identity now) s = (handle_heartbeat-Offline identity now).holds s
  perform-Offline (status_notification identity payload now) s =
      (handle_status_notification-Offline identity payload now).holds s
  perform-Offline (start_transaction identity payload now) s =
      (handle_start_transaction-Offline identity payload now).holds s
  perform-Offline (stop_transaction payload now) s =
      (handle_stop_transaction-Offline payload now).holds s
  perform-Offline (meter_values identity payload now) s =
      (handle_meter_values-Offline identity payload now).holds s

  unfoldable pub perform_all : List Call → Service Db → Service Db
  perform_all [] s = s
  perform_all (c ∷ cs) s = perform_all cs (perform c s)

  -- While there is no database, no sequence of handler calls, whether they end or throw, changes the
  -- database.
  pub perform_all-Offline :
      (cs : List Call) (s : Service Db) → s.connected ≡ false → (perform_all cs s).db ≡ s.db
  unfolding perform_all
  perform_all-Offline [] s e = refl
  perform_all-Offline (c ∷ cs) s e =
      let k = (perform-Offline c s).kept e in perform_all-Offline cs (perform c s) k.0 ∙ k.1
