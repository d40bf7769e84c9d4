-- ===== src/Station/Sample.antt =====
-- A small database and small services, to run the methods of charging-station.service.ts on: the database
-- is the number of its writes.
use voltron_ocpp_protocols.Common.{ℕ, suc, Bool, String, none, some, or_else, [], ◌∷◌}
use voltron_ocpp_protocols.Json.{nat}
use voltron_ocpp_protocols.Errors.{ok}
use voltron_ocpp_protocols.Schemas.Payloads.{StartTransactionPayload, StopTransactionPayload}
use voltron_ocpp_protocols.Station.Status.{StationStatus}
use voltron_ocpp_protocols.Station.State.Rows.{
  at, of_text, StationData, StationRow, TransactionStatus,
}
use voltron_ocpp_protocols.Station.State.{
  Runtime, Service, MemoryStationState, MemoryTransactionState, Query,
}

abbrev row_of : String → String → StationData → StationRow
row_of id identity data' = record {
  id = id;
  ocpp_identity = identity;
  vendor = data'.vendor;
  model = data'.model;
  serial_number = data'.serial_number;
  firmware_version = data'.firmware_version;
  endpoint = data'.endpoint;
  last_heartbeat_at = some data'.last_heartbeat_at;
  status = data'.status;
}

abbrev written : {A : Type 0} → A → Query ℕ A
written a n = (suc n, ok a)

abbrev pub runtime : Runtime
runtime = record {
  Db = ℕ;
  Decimal = String;
  upsert_station = λ identity id create update. written (row_of (or_else id "new") identity update);
  update_station = λ id patch. written tt;
  find_station = λ identity n. (n, ok none);
  upsert_connector =
      λ station id create update. written (record { id = id; status = update.status });
  update_connector = λ id status. written tt;
  create_transaction = λ t.
      written (record { id = nat 77; station_id = t.station_id; connector_id = t.connector_id });
  find_transaction = λ id n. (n, ok none);
  update_transaction = λ id stop. written tt;
  create_meter_values = λ rows. written tt;
  create_event_log = none;
  settle = λ before after. (after, ok tt);
  rollback = λ before after. before;
  to_decimal = ok;
  to_iso_string = λ date. ok "2024-05-01T08:00:00.000Z";
  random_uuid = λ n. "station";
  heartbeat_interval_seconds = nat 300;
}

abbrev pub charging_transaction : MemoryTransactionState
charging_transaction = record {
  id = 1000000;
  connector_id = nat 1;
  id_tag = "TAG";
  meter_start = nat 5;
  started_at = of_text "2024-05-01T08:00:00Z";
  status = TransactionStatus.started;
  meter_stop = none;
  stopped_at = none;
  reason = none;
  reservation_id = none;
}

abbrev pub buffered_station : MemoryStationState
buffered_station = record {
  id = "station";
  identity = "CP-1";
  vendor = some "ACME";
  model = some "One";
  serial_number = none;
  firmware_version = none;
  endpoint = none;
  last_heartbeat_at = at 0;
  status = StationStatus.charging;
  connectors = [];
  transactions = (nat 1000000, charging_transaction) ∷ [];
}

-- One buffered station with an open transaction.
abbrev pub service : Bool → Service ℕ
service connected = record {
  memory_stations = ("CP-1", buffered_station) ∷ [];
  memory_transactions =
      (nat 1000000, record { station_identity = "CP-1"; db_transaction_id = none }) ∷ [];
  next_fallback_transaction_id = 1000001;
  connected = connected;
  uuids = 1;
  db = 0;
}

abbrev pub start_payload : StartTransactionPayload
start_payload = record {
  connector_id = nat 2;
  id_tag = "TAG";
  meter_start = nat 10;
  timestamp = "2024-05-01T09:00:00Z";
  reservation_id = none;
}

abbrev pub stop_payload : ℕ → StopTransactionPayload
stop_payload id = record {
  transaction_id = nat id;
  meter_stop = nat 25;
  timestamp = "2024-05-01T10:00:00Z";
  id_tag = none;
  reason = none;
}
