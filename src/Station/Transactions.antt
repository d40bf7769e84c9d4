-- ===== src/Station/Transactions.antt =====
-- `handleStartTransaction` and `handleStopTransaction` of charging-station.service.ts.
pub mod Stale
pub mod Fallback
pub mod Session
use Prim.Native.String.{◌++◌}
use voltron_ocpp_protocols.Common.{
  ℕ, suc, Bool, true, false, not, ◌&&◌, ◌||◌, String, ◌==◌, if◌then◌else◌, Option, none, some, List,
  [], ◌∷◌, get, set, delete,
}
use voltron_ocpp_protocols.Json.{Number, nat, negative, Value, num, str, number_eq, number_text}
use voltron_ocpp_protocols.Errors.{Result, ok, err, Thrown, call_error, error}
use voltron_ocpp_protocols.Schemas.Payloads.{StartTransactionPayload, StopTransactionPayload}
use voltron_ocpp_protocols.Station.Status.{ConnectorStatus, StationStatus}
use voltron_ocpp_protocols.Station.State.Rows.{
  Date, at, of_text, ConnectorData, TransactionData, TransactionRow, TransactionStatus, StopData,
  StationLogEvent, set_status,
}
use voltron_ocpp_protocols.Station.State.{
  Runtime, Service, MemoryStationState, MemoryConnectorState, MemoryTransactionState,
  MemoryTransactionIndex, M, pure, throw, ◌>>=◌, ◌>>◌, read, modify, lift, query, use_fallback,
  put_station,
}
use voltron_ocpp_protocols.Station.Promote.{
  get_or_create_memory_station, promote_if_connected, ensure_station,
}
use voltron_ocpp_protocols.Station.Conversions.{update_station_status_from_connectors}
use voltron_ocpp_protocols.Station.Events.{
  record_station_event, object, text_or_null, number_or_null,
}
use voltron_ocpp_protocols.Station.Ledger.{
  to_big_int, not_found, charging_connector, started_transaction, started, released, stopped,
  is_buffered,
}

module _ (r : Runtime) where
  open r use {
    Db, update_station, upsert_connector, update_connector, create_transaction, find_transaction,
    update_transaction, to_iso_string,
  }

  -- `handleStartTransaction` on the buffered station.
  abbrev pub start_stored : String → StartTransactionPayload → MemoryStationState → M Db Number
  start_stored identity payload station s = (
    put_station identity (started s.next_fallback_transaction_id payload station) (record s {
      next_fallback_transaction_id = suc s.next_fallback_transaction_id;
      memory_transactions =
          set s.memory_transactions (nat s.next_fallback_transaction_id)
            (record { station_identity = identity; db_transaction_id = none });
    }),
    ok (nat s.next_fallback_transaction_id),
  )

  -- The fallback branch of `handleStartTransaction`.
  unfoldable pub start_in_memory : String → StartTransactionPayload → ℕ → M Db Number
  start_in_memory identity payload now =
      get_or_create_memory_station r identity now >>= start_stored identity payload

  -- The database branch of `handleStartTransaction`.
  unfoldable pub start_in_database : String → StartTransactionPayload → ℕ → M Db Number
  start_in_database identity payload now = do
    let started_at = of_text payload.timestamp
    let charging : ConnectorData = record {
      status = ConnectorStatus.charging;
      error_code = "NoError";
      info = none;
      vendor_error_code = none;
      status_timestamp = started_at;
    }
    station ← ensure_station r identity now
    connector ← query (upsert_connector station.id payload.connector_id charging charging)
    transaction ← query (
        create_transaction (record {
          station_id = station.id;
          connector_id = some connector.id;
          ocpp_connector_id = payload.connector_id;
          id_tag = payload.id_tag;
          meter_start = payload.meter_start;
          meter_stop = none;
          started_at = started_at;
          stopped_at = none;
          reason = none;
          status = TransactionStatus.started;
          reservation_id = payload.reservation_id;
        }))
    query (update_station station.id (set_status StationStatus.charging))
    time ← lift (to_iso_string started_at)
    record_station_event r station.id StationLogEvent.start_transaction
        (object (
          ("transactionId", str (number_text transaction.id))
          ∷ ("connectorId", num payload.connector_id)
          ∷ ("idTag", str payload.id_tag)
          ∷ ("meterStart", num payload.meter_start)
          ∷ ("reservationId", number_or_null payload.reservation_id)
          ∷ ("startedAt", str time)
          ∷ []))
        none
    pure transaction.id

  -- `handleStartTransaction`: the transaction's id; its `idTagInfo` is always accepted. `Number(id)` is
  -- exact below 2^53.
  unfoldable pub handle_start_transaction : String → StartTransactionPayload → ℕ → M Db Number
  handle_start_transaction identity payload now = do
    promote_if_connected r identity
    s ← read
    if use_fallback s
        then start_in_memory identity payload now
        else start_in_database identity payload now

  -- `handleStopTransaction` on the buffered station of the transaction.
  abbrev pub stop_stored :
      MemoryTransactionIndex → StopTransactionPayload → MemoryStationState → M Db (Unit {0})
  stop_stored mapping payload station = elim (get station.transactions payload.transaction_id) [
    | none ↦ not_found throw payload.transaction_id
    | some transaction ↦ modify (λ s.
        put_station mapping.station_identity
          (stopped payload.transaction_id payload transaction station)
          (record s { memory_transactions = delete s.memory_transactions payload.transaction_id }))
  ]

  -- The branch of `handleStopTransaction` for a buffered transaction.
  unfoldable pub stop_in_memory :
      Option MemoryTransactionIndex → StopTransactionPayload → ℕ → M Db (Unit {0})
  stop_in_memory none payload now = not_found throw payload.transaction_id
  stop_in_memory (some mapping) payload now =
      get_or_create_memory_station r mapping.station_identity now >>= stop_stored mapping payload

  -- `mapping?.dbTransactionId ?? BigInt(payload.transactionId)`
  abbrev pub database_id : Option MemoryTransactionIndex → Number → Result Number
  database_id none id = to_big_int id
  database_id (some m) id = elim m.db_transaction_id [ none ↦ to_big_int id | some d ↦ ok d ]

  -- `if (existing.connectorId)`: a `bigint` other than 0.
  abbrev pub release_connector : Option Number → M Db (Unit {0})
  release_connector none = pure tt
  release_connector (some c) =
      if c == nat 0 then pure tt else query (update_connector c ConnectorStatus.available)

  unfoldable pub stop_in_database :
      Option MemoryTransactionIndex → StopTransactionPayload → M Db (Unit {0})
  stop_in_database mapping payload = do
    id ← lift (database_id mapping payload.transaction_id)
    existing ← query (find_transaction id)
    elim existing [
      | none ↦ not_found throw payload.transaction_id
      | some row ↦ (do
        query (
            update_transaction id (record {
              meter_stop = payload.meter_stop;
              stopped_at = of_text payload.timestamp;
              reason = payload.reason;
              status = TransactionStatus.completed;
            }))
        release_connector row.connector_id
        query (update_station row.station_id (set_status StationStatus.available))
        record_station_event r row.station_id StationLogEvent.stop_transaction
            (object (
              ("transactionId", str (number_text payload.transaction_id))
              ∷ ("meterStop", num payload.meter_stop)
              ∷ ("reason", text_or_null payload.reason)
              ∷ ("stoppedAt", str payload.timestamp)
              ∷ []))
            none
        modify (λ s. record s {
          memory_transactions = delete s.memory_transactions payload.transaction_id;
        }))
    ]

  -- `if (mapping && !mapping.dbTransactionId && !this.useFallback())`
  abbrev pub promote_buffered : Option MemoryTransactionIndex → M Db (Unit {0})
  promote_buffered none = pure tt
  promote_buffered (some m) = elim (is_buffered (some m)) [
    | true ↦ promote_if_connected r m.station_identity
    | false ↦ pure tt
  ]

  -- `handleStopTransaction` behind the promotion.
  abbrev pub stop_mapped :
      Option MemoryTransactionIndex → StopTransactionPayload → ℕ → M Db (Unit {0})
  stop_mapped mapping payload now s =
      (if use_fallback s || is_buffered mapping
          then stop_in_memory mapping payload now
          else stop_in_database mapping payload)
        s

  -- `handleStopTransaction`. The mapping is the object that the map held at the start: a promotion sets a
  -- new object, so the second test reads the old one.
  unfoldable pub handle_stop_transaction : StopTransactionPayload → ℕ → M Db (Unit {0})
  handle_stop_transaction payload now s =
      (do
        promote_buffered (get s.memory_transactions payload.transaction_id)
        stop_mapped (get s.memory_transactions payload.transaction_id) payload now)
        s
