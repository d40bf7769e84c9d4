-- ===== src/Station/Tests.antt =====
-- The methods of charging-station.service.ts on small services.
use voltron_ocpp_protocols.Common.{
  ℕ, true, false, ◌≡◌, refl, none, some, [], ◌∷◌, map, get, string_eq,
}
use voltron_ocpp_protocols.Json.{nat, number_eq}
use voltron_ocpp_protocols.Errors.{ok, err}
use voltron_ocpp_protocols.Station.Status.{
  ConnectorStatus, StationStatus, summary, is_charging, is_faulted, station_faulted,
}
use voltron_ocpp_protocols.Station.Status.Summary.{any, summary-reported}
use voltron_ocpp_protocols.Station.State.{Service, MemoryStationState}
use voltron_ocpp_protocols.Station.State.Rows.{of_text, TransactionStatus}
use voltron_ocpp_protocols.Station.Promote.{
  promote_all_memory_stations, promote_memory_station, promote_connectors, promote_transactions,
  persist_station, transaction,
}
use voltron_ocpp_protocols.Station.Promote.Outcome.{Promoted, promote_memory_station-Promoted}
use voltron_ocpp_protocols.Station.Promote.Reliable.{IsReliable, promote_all_memory_stations-gone}
use voltron_ocpp_protocols.Station.Transactions.{handle_start_transaction, handle_stop_transaction}
use voltron_ocpp_protocols.Station.Ledger.{not_found}
use voltron_ocpp_protocols.Station.Transactions.Stale.{
  with_blank_station, handle_stop_transaction-stale,
}
use voltron_ocpp_protocols.Station.Transactions.Session.{
  IsLeft, handle_stop_transaction-handle_start_transaction,
}
use voltron_ocpp_protocols.Station.Transactions.Session.Connectors.{said_by}
use voltron_ocpp_protocols.Station.Offline.Handlers.{
  heartbeat, start_transaction, perform_all, perform_all-Offline,
}
use voltron_ocpp_protocols.Station.Sample.{
  runtime, buffered_station, service, start_payload, stop_payload,
}

summary-reported_example :
    summary none StationStatus.charging (ConnectorStatus.faulted ∷ ConnectorStatus.available ∷ [])
    ≡ StationStatus.faulted
unfolding any is_charging is_faulted station_faulted
summary-reported_example =
    summary-reported StationStatus.charging
      (ConnectorStatus.faulted ∷ ConnectorStatus.available ∷ [])

promote_memory_station-Promoted_example :
    Promoted runtime "CP-1" (service true) (promote_memory_station runtime "CP-1" (service true))
promote_memory_station-Promoted_example =
    promote_memory_station-Promoted runtime "CP-1" (service true) refl

-- The sample service behind the promotion of its station.
abbrev promoted_service : Service ℕ
promoted_service = record (service true) {
  memory_stations = [];
  memory_transactions =
      (nat 1000000, record { station_identity = "CP-1"; db_transaction_id = some (nat 77) }) ∷ [];
  db = 2;
}

handle_stop_transaction-stale_example :
    handle_stop_transaction runtime (stop_payload 1000000) 9 (service true)
    ≡ (with_blank_station runtime "CP-1" 9 promoted_service, not_found err (nat 1000000))
unfolding promote_memory_station promote_connectors promote_transactions persist_station transaction
handle_stop_transaction-stale_example =
    handle_stop_transaction-stale runtime "CP-1" (stop_payload 1000000) 9 (service true)
      promoted_service refl refl refl

handle_stop_transaction-handle_start_transaction_example :
    let (u, a) = handle_start_transaction runtime "CP-1" start_payload 9 (service false) in
    let (v, b) = handle_stop_transaction runtime (stop_payload 1000001) 12 u in
    (y z : MemoryStationState) × (a ≡ ok (nat 1000001))
    × IsLeft
        (service false)
        u
        "CP-1"
        buffered_station
        y
        1000001
        (nat 2)
        ConnectorStatus.charging
        (of_text "2024-05-01T09:00:00Z")
        (some (record {
          id = 1000001;
          connector_id = nat 2;
          id_tag = "TAG";
          meter_start = nat 10;
          started_at = of_text "2024-05-01T09:00:00Z";
          status = TransactionStatus.started;
          meter_stop = none;
          stopped_at = none;
          reason = none;
          reservation_id = none;
        }))
        (some (record { station_identity = "CP-1"; db_transaction_id = none }))
    × (y.status ≡ StationStatus.charging)
    × (b ≡ ok tt)
    × IsLeft
        (service false)
        v
        "CP-1"
        buffered_station
        z
        1000001
        (nat 2)
        ConnectorStatus.available
        (of_text "2024-05-01T10:00:00Z")
        none
        none
    × (z.status ≡ said_by (get z.connectors (nat 0)) (map (λ e. e.1.status) z.connectors))
handle_stop_transaction-handle_start_transaction_example =
    handle_stop_transaction-handle_start_transaction runtime "CP-1" start_payload
      (stop_payload 1000001) 9 12 (service false) buffered_station refl refl refl

perform_all-Offline_example :
    (perform_all runtime
      (start_transaction "CP-1" start_payload 9 ∷ heartbeat "CP-2" 10 ∷ [])
      (service false)).db
    ≡ 0
perform_all-Offline_example =
    perform_all-Offline runtime
      (start_transaction "CP-1" start_payload 9 ∷ heartbeat "CP-2" 10 ∷ []) (service false) refl

reliable : IsReliable runtime
reliable = record {
  stations = λ identity id c u db. (_, refl);
  connectors = λ station k c u db. (_, refl);
  transactions = λ t db. (_, refl);
  settles = λ before after. refl;
}

promote_all_memory_stations-gone_example :
    get (promote_all_memory_stations runtime (service true)).memory_stations "CP-1" ≡ none
promote_all_memory_stations-gone_example =
    promote_all_memory_stations-gone runtime (service true) refl reliable "CP-1"
