-- ===== src/Station/Promote.antt =====
-- Buffered stations: `getOrCreateMemoryStation`, `promoteMemoryStation` and `promoteAllMemoryStations`, with
-- `getStationByIdentity` and `ensureStation`, of charging-station.service.ts.
pub mod Outcome
pub mod All
pub mod Reliable
use Prim.Native.String.{◌++◌}
use voltron_ocpp_protocols.Common.{
  ℕ, suc, ◌+◌, Bool, true, false, not, String, if◌then◌else◌, Option, none, some, or_else, List, [],
  ◌∷◌, map, get, set, delete, string_eq,
}
use voltron_ocpp_protocols.Json.{Number, nat, Value, number_eq}
use voltron_ocpp_protocols.Errors.{Result, ok, err, Thrown, call_error}
use voltron_ocpp_protocols.Station.Status.{ConnectorStatus, StationStatus, summary}
use voltron_ocpp_protocols.Station.State.Rows.{
  Date, at, StationData, StationRow, ConnectorData, ConnectorRow, TransactionData, TransactionRow,
}
use voltron_ocpp_protocols.Station.State.{
  Runtime, Service, MemoryStationState, MemoryConnectorState, MemoryTransactionState, M, pure,
  throw, ◌>>=◌, ◌>>◌, read, modify, lift, query, use_fallback, put_station,
}
use voltron_ocpp_protocols.Station.Conversions.{
  StationRecord, build_station_record, blank_station, connector_status,
  update_station_status_from_connectors, station_data, connector_data, transaction_data,
}

module _ (r : Runtime) where
  open r use {
    Db, upsert_station, find_station, upsert_connector, create_transaction, settle, rollback,
    random_uuid,
  }

  unfoldable pub get_or_create_memory_station : String → ℕ → M Db MemoryStationState
  get_or_create_memory_station identity now s = elim (get s.memory_stations identity) [
    | some station ↦ (s, ok station)
    | none ↦
        let station = blank_station (random_uuid s.uuids) identity now in
        (put_station identity station (record s { uuids = suc s.uuids }), ok station)
  ]

  -- The loop over `station.connectors.entries()`, with `connectorIdMap`.
  unfoldable pub promote_connectors :
      String
      → List (Number × MemoryConnectorState)
      → List (Number × Number)
      → M Db (List (Number × Number))
  promote_connectors station_id [] ids = pure ids
  promote_connectors station_id ((connector_id, c) ∷ cs) ids = do
    row ← query (upsert_connector station_id connector_id (connector_data c) (connector_data c))
    promote_connectors station_id cs (set ids connector_id row.id)

  -- `memoryTransactions.set(transaction.id, …)`
  abbrev pub note_promoted : String → MemoryTransactionState → Number → Service Db → Service Db
  note_promoted identity t id s = record s {
    memory_transactions =
        set s.memory_transactions (nat t.id)
          (record { station_identity = identity; db_transaction_id = some id });
  }

  -- The loop over `station.transactions.values()`.
  unfoldable pub promote_transactions :
      String
      → String
      → List (Number × Number)
      → List (Number × MemoryTransactionState)
      → M Db (Unit {0})
  promote_transactions identity station_id ids [] = pure tt
  promote_transactions identity station_id ids ((_, t) ∷ ts) = do
    created ← query (create_transaction (transaction_data station_id (get ids t.connector_id) t))
    modify (note_promoted identity t created.id)
    promote_transactions identity station_id ids ts

  -- The callback of `prisma.$transaction`.
  unfoldable pub persist_station : MemoryStationState → M Db (Unit {0})
  persist_station station = do
    row ← query (
        upsert_station station.identity (some station.id) (station_data station)
          (station_data station))
    ids ← promote_connectors row.id station.connectors []
    promote_transactions station.identity row.id ids station.transactions

  -- `prisma.$transaction(callback)`: the database is settled or rolled back; what the callback did to the
  -- service stays.
  unfoldable pub transaction : M Db (Unit {0}) → M Db (Unit {0})
  transaction m s = elim (m s).1 [
    | ok _ ↦ (record (m s).0 { db = (settle s.db (m s).0.db).0 }, (settle s.db (m s).0.db).1)
    | err e ↦ (record (m s).0 { db = rollback s.db (m s).0.db }, err e)
  ]

  unfoldable pub promote_memory_station : String → M Db (Unit {0})
  promote_memory_station identity s = elim (use_fallback s) [
    | true ↦ (s, ok tt)
    | false ↦ elim (get s.memory_stations identity) [
      | none ↦ (s, ok tt)
      | some station ↦
          (do
            transaction (persist_station station)
            modify (λ s'. record s' { memory_stations = delete s'.memory_stations identity }))
            s
    ]
  ]

  -- The loop of `promoteAllMemoryStations`: a promotion that throws is logged.
  unfoldable pub promote_each : List String → Service Db → Service Db
  promote_each [] s = s
  promote_each (identity ∷ rest) s = promote_each rest (promote_memory_station identity s).0

  unfoldable pub promote_all_memory_stations : Service Db → Service Db
  unfolding promote_each
  promote_all_memory_stations s = promote_each (map (λ e. e.0) s.memory_stations) s

  -- `if (!this.useFallback()) await this.promoteMemoryStation(identity)`
  abbrev pub promote_if_connected : String → M Db (Unit {0})
  promote_if_connected identity s =
      (if use_fallback s then pure tt else promote_memory_station identity) s

  abbrev pub record_of_row : ℕ → Option StationRow → Option StationRecord
  record_of_row now none = none
  record_of_row now (some row) = some (record {
    id = row.id;
    ocpp_identity = row.ocpp_identity;
    vendor = row.vendor;
    model = row.model;
    serial_number = row.serial_number;
    firmware_version = row.firmware_version;
    endpoint = row.endpoint;
    last_heartbeat_at = or_else row.last_heartbeat_at (at now);
    status = row.status;
  })

  abbrev pub record_of_memory : Option MemoryStationState → Option StationRecord
  record_of_memory none = none
  record_of_memory (some station) = some (build_station_record station)

  unfoldable pub get_station_by_identity : String → ℕ → M Db (Option StationRecord)
  get_station_by_identity identity now = do
    promote_if_connected identity
    s ← read
    if use_fallback s
        then pure (record_of_memory (get s.memory_stations identity))
        else (do row ← query (find_station identity); pure (record_of_row now row))

  unfoldable pub ensure_station : String → ℕ → M Db StationRecord
  ensure_station identity now = do
    found ← get_station_by_identity identity now
    elim found [
      | none ↦ throw (
          call_error "SecurityError"
            ("Station " ++ (identity ++ " has not completed a BootNotification")))
      | some station ↦ pure station
    ]
