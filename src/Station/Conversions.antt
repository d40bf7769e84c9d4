-- ===== src/Station/Conversions.antt =====
-- Buffered stations, connectors and transactions as records and as rows of the database: `buildStationRecord`,
-- `updateStationStatusFromConnectors`, and the data that `promoteMemoryStation` of charging-station.service.ts
-- writes.
use voltron_ocpp_protocols.Common.{ℕ, String, Option, none, some, [], map, get, string_eq}
use voltron_ocpp_protocols.Json.{Number, nat, number_eq}
use voltron_ocpp_protocols.Station.Status.{ConnectorStatus, StationStatus, summary}
use voltron_ocpp_protocols.Station.State.Rows.{
  Date, at, StationData, ConnectorData, TransactionData,
}
use voltron_ocpp_protocols.Station.State.{
  MemoryStationState, MemoryConnectorState, MemoryTransactionState,
}

pub record StationRecord : Type 0 where
  pub id : String
  pub ocpp_identity : String
  pub vendor : Option String
  pub model : Option String
  pub serial_number : Option String
  pub firmware_version : Option String
  pub endpoint : Option String
  pub last_heartbeat_at : Date
  pub status : StationStatus

unfoldable pub build_station_record : MemoryStationState → StationRecord
build_station_record s = record {
  id = s.id;
  ocpp_identity = s.identity;
  vendor = s.vendor;
  model = s.model;
  serial_number = s.serial_number;
  firmware_version = s.firmware_version;
  endpoint = s.endpoint;
  last_heartbeat_at = s.last_heartbeat_at;
  status = s.status;
}

-- The object literal of `getOrCreateMemoryStation`.
abbrev pub blank_station : String → String → ℕ → MemoryStationState
blank_station id identity now = record {
  id = id;
  identity = identity;
  vendor = none;
  model = none;
  serial_number = none;
  firmware_version = none;
  endpoint = none;
  last_heartbeat_at = at now;
  status = StationStatus.available;
  connectors = [];
  transactions = [];
}

abbrev pub connector_status : Option MemoryConnectorState → Option ConnectorStatus
connector_status none = none
connector_status (some c) = some c.status

-- `updateStationStatusFromConnectors`
unfoldable pub update_station_status_from_connectors : MemoryStationState → MemoryStationState
update_station_status_from_connectors s = record s {
  status =
      summary (connector_status (get s.connectors (nat 0))) s.status
        (map (λ e. e.1.status) s.connectors);
}

-- `create` and `update` of the station's `upsert`.
abbrev pub station_data : MemoryStationState → StationData
station_data s = record {
  vendor = s.vendor;
  model = s.model;
  serial_number = s.serial_number;
  firmware_version = s.firmware_version;
  endpoint = s.endpoint;
  last_heartbeat_at = s.last_heartbeat_at;
  status = s.status;
}

abbrev pub connector_data : MemoryConnectorState → ConnectorData
connector_data c = record {
  status = c.status;
  error_code = c.error_code;
  info = some c.info;
  vendor_error_code = some c.vendor_error_code;
  status_timestamp = c.status_timestamp;
}

abbrev pub transaction_data : String → Option Number → MemoryTransactionState → TransactionData
transaction_data station_id connector_id t = record {
  station_id = station_id;
  connector_id = connector_id;
  ocpp_connector_id = t.connector_id;
  id_tag = t.id_tag;
  meter_start = t.meter_start;
  meter_stop = t.meter_stop;
  started_at = t.started_at;
  stopped_at = t.stopped_at;
  reason = t.reason;
  status = t.status;
  reservation_id = t.reservation_id;
}
