-- ===== src/Station/State/Rows.antt =====
-- What the service writes to the tables of prisma/schema.prisma and reads from them. A `bigint` is the
-- `Number` with its value.
use voltron_ocpp_protocols.Common.{ℕ, String, Option}
use voltron_ocpp_protocols.Json.{Number, Value}
use voltron_ocpp_protocols.Station.Status.{ConnectorStatus, StationStatus}

-- The moment of a `new Date()`, in milliseconds, or `new Date(text)`.
pub data Date : Type 0 where
  at : ℕ → Date
  of_text : String → Date

pub data TransactionStatus : Type 0 where
  started completed stopped errored : TransactionStatus

pub record StationData : Type 0 where
  pub vendor : Option String
  pub model : Option String
  pub serial_number : Option String
  pub firmware_version : Option String
  pub endpoint : Option String
  pub last_heartbeat_at : Date
  pub status : StationStatus

pub data StationPatch : Type 0 where
  heartbeat : Date → StationPatch
  set_status : StationStatus → StationPatch

pub record StationRow : Type 0 where
  pub id : String
  pub ocpp_identity : String
  pub vendor : Option String
  pub model : Option String
  pub serial_number : Option String
  pub firmware_version : Option String
  pub endpoint : Option String
  pub last_heartbeat_at : Option Date
  pub status : StationStatus

-- `info` and `vendorErrorCode` are `none` where the code leaves them out.
pub record ConnectorData : Type 0 where
  pub status : ConnectorStatus
  pub error_code : String
  pub info : Option (Option String)
  pub vendor_error_code : Option (Option String)
  pub status_timestamp : Date

pub record ConnectorRow : Type 0 where
  pub id : Number
  pub status : ConnectorStatus

pub record TransactionData : Type 0 where
  pub station_id : String
  pub connector_id : Option Number
  pub ocpp_connector_id : Number
  pub id_tag : String
  pub meter_start : Number
  pub meter_stop : Option Number
  pub started_at : Date
  pub stopped_at : Option Date
  pub reason : Option String
  pub status : TransactionStatus
  pub reservation_id : Option Number

pub record TransactionRow : Type 0 where
  pub id : Number
  pub station_id : String
  pub connector_id : Option Number

pub record StopData : Type 0 where
  pub meter_stop : Number
  pub stopped_at : Date
  pub reason : Option String
  pub status : TransactionStatus

pub record MeterRow (Decimal : Type 0) : Type 0 where
  pub station_id : String
  pub connector_id : Number
  pub transaction_id : Option Number
  pub sampled_at : Date
  pub value : Decimal
  pub context : Option String
  pub format : Option String
  pub measurand : Option String
  pub phase : Option String
  pub location : Option String
  pub unit : Option String

pub data StationLogEvent : Type 0 where
  boot_notification heartbeat status_notification start_transaction stop_transaction meter_values :
      StationLogEvent

pub record EventLog : Type 0 where
  pub station_id : String
  pub event_type : StationLogEvent
  pub payload : Value
  pub metadata : Option Value
