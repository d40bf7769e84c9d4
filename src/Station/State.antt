-- ===== src/Station/State.antt =====
-- What `ChargingStationService` keeps, and what it is given: the buffered stations and transactions, the
-- database behind `PrismaService`, identifiers, and the text of a date. A method changes the state and
-- returns a value or throws; what it changed before it threw stays changed.
pub mod Rows
use voltron_ocpp_protocols.Common.{
  ℕ, suc, ◌+◌, Bool, true, false, not, String, Option, none, some, List, [], get, set, string_eq,
}
use voltron_ocpp_protocols.Json.{Number, nat, Value}
use voltron_ocpp_protocols.Errors.{Result, ok, err, Thrown}
use voltron_ocpp_protocols.Station.Status.{ConnectorStatus, StationStatus}
pub use voltron_ocpp_protocols.Effect.{pure, throw, ◌>>=◌, ◌>>◌, read, modify, lift}
use voltron_ocpp_protocols.Effect.{Effect}
use Rows.{
  Date, StationData, StationPatch, StationRow, ConnectorData, ConnectorRow, TransactionData,
  TransactionRow, TransactionStatus, StopData, MeterRow, EventLog,
}

-- An operation on the database: it may change the database, and it may throw.
abbrev pub Query : Type 0 → Type 0 → Type 0
Query Db A = Db → Db × Result A

-- What the service calls and does not implement. `settle before after` ends `prisma.$transaction` on a
-- callback that returned: it commits, or throws. `rollback before after` ends it on one that threw.
pub record Runtime : Type 1 where
  pub Db : Type 0
  pub Decimal : Type 0
  pub upsert_station : String → Option String → StationData → StationData → Query Db StationRow
  pub update_station : String → StationPatch → Query Db (Unit {0})
  pub find_station : String → Query Db (Option StationRow)
  pub upsert_connector : String → Number → ConnectorData → ConnectorData → Query Db ConnectorRow
  pub update_connector : Number → ConnectorStatus → Query Db (Unit {0})
  pub create_transaction : TransactionData → Query Db TransactionRow
  pub find_transaction : Number → Query Db (Option TransactionRow)
  pub update_transaction : Number → StopData → Query Db (Unit {0})
  pub create_meter_values : List (MeterRow Decimal) → Query Db (Unit {0})
  -- `none` where the client has no `stationEventLog.create`
  pub create_event_log : Option (EventLog → Query Db (Unit {0}))
  pub settle : Db → Db → Db × Result (Unit {0})
  pub rollback : Db → Db → Db
  -- `new Prisma.Decimal(text)`
  pub to_decimal : String → Result Decimal
  -- `date.toISOString()`
  pub to_iso_string : Date → Result String
  -- the results of `randomUUID()`, in turn
  pub random_uuid : ℕ → String
  -- `ocppConfig.heartbeatIntervalSeconds`
  pub heartbeat_interval_seconds : Number

pub record MemoryConnectorState : Type 0 where
  pub status : ConnectorStatus
  pub error_code : String
  pub info : Option String
  pub vendor_error_code : Option String
  pub status_timestamp : Date

pub record MemoryTransactionState : Type 0 where
  pub id : ℕ
  pub connector_id : Number
  pub id_tag : String
  pub meter_start : Number
  pub started_at : Date
  pub status : TransactionStatus
  pub meter_stop : Option Number
  pub stopped_at : Option Date
  pub reason : Option String
  pub reservation_id : Option Number

pub record MemoryTransactionIndex : Type 0 where
  pub station_identity : String
  pub db_transaction_id : Option Number

pub record MemoryStationState : Type 0 where
  pub id : String
  pub identity : String
  pub vendor : Option String
  pub model : Option String
  pub serial_number : Option String
  pub firmware_version : Option String
  pub endpoint : Option String
  pub last_heartbeat_at : Date
  pub status : StationStatus
  pub connectors : List (Number × MemoryConnectorState)
  pub transactions : List (Number × MemoryTransactionState)

-- `connected` is `prisma.isConnected()`. It is a field of the service here; no method of the service
-- changes it, and `PrismaService` sets it only from false to true.
pub record Service (Db : Type 0) : Type 0 where
  pub memory_stations : List (String × MemoryStationState)
  pub memory_transactions : List (Number × MemoryTransactionIndex)
  pub next_fallback_transaction_id : ℕ
  pub connected : Bool
  pub uuids : ℕ
  pub db : Db

abbrev pub M : Type 0 → Type 0 → Type 0
M Db A = Effect (Service Db) A

module _ {Db : Type 0} where
  abbrev pub query : {A : Type 0} → Query Db A → M Db A
  query q s = (record s { db = (q s.db).0 }, (q s.db).1)

  -- `this.useFallback()`
  abbrev pub use_fallback : Service Db → Bool
  use_fallback s = not s.connected

  -- The object behind `memoryStations.get(identity)` is changed in place.
  abbrev pub put_station : String → MemoryStationState → Service Db → Service Db
  put_station identity station s = record s {
    memory_stations = set s.memory_stations identity station;
  }
