-- ===== src/Station/Ledger.antt =====
-- What a start and a stop of a transaction make of a buffered station, and the numbers that they test.
use Prim.Native.String.{◌++◌}
use voltron_ocpp_protocols.Common.{ℕ, Bool, true, false, Option, none, some, List, get, set, delete}
use voltron_ocpp_protocols.Json.{Number, nat, negative, number_eq, number_text}
use voltron_ocpp_protocols.Errors.{Result, ok, err, Thrown, call_error, error}
use voltron_ocpp_protocols.Schemas.Payloads.{StartTransactionPayload, StopTransactionPayload}
use voltron_ocpp_protocols.Station.Status.{ConnectorStatus, StationStatus}
use voltron_ocpp_protocols.Station.State.Rows.{Date, of_text, TransactionStatus}
use voltron_ocpp_protocols.Station.State.{
  MemoryStationState, MemoryConnectorState, MemoryTransactionState, MemoryTransactionIndex,
}
use voltron_ocpp_protocols.Station.Conversions.{update_station_status_from_connectors}

-- `BigInt(number)`, which throws a `RangeError` for a number that is no integer.
unfoldable pub to_big_int : Number → Result Number
to_big_int (nat n) = ok (nat n)
to_big_int (negative n) = ok (negative n)
to_big_int n = err (
    error (
      "The number "
      ++ (number_text n ++ " cannot be converted to a BigInt because it is not an integer")))

abbrev pub not_found {ℓ} : {A : Type ℓ} → (Thrown → A) → Number → A
not_found throw' id = throw' (
    call_error "PropertyConstraintViolation"
      ("Transaction " ++ (number_text id ++ " could not be found")))

-- The connector of a started transaction: the stored one, or a new one.
abbrev pub charging_connector : Option MemoryConnectorState → Date → MemoryConnectorState
charging_connector none started_at = record {
  status = ConnectorStatus.charging;
  error_code = "NoError";
  info = none;
  vendor_error_code = none;
  status_timestamp = started_at;
}
charging_connector (some c) started_at = record c {
  status = ConnectorStatus.charging;
  error_code = "NoError";
  status_timestamp = started_at;
}

abbrev pub started_transaction : ℕ → StartTransactionPayload → MemoryTransactionState
started_transaction id p = record {
  id = id;
  connector_id = p.connector_id;
  id_tag = p.id_tag;
  meter_start = p.meter_start;
  started_at = of_text p.timestamp;
  status = TransactionStatus.started;
  meter_stop = none;
  stopped_at = none;
  reason = none;
  reservation_id = p.reservation_id;
}

-- The station of a started transaction.
abbrev pub started : ℕ → StartTransactionPayload → MemoryStationState → MemoryStationState
started id p s = record s {
  connectors =
      set s.connectors p.connector_id
        (charging_connector (get s.connectors p.connector_id) (of_text p.timestamp));
  transactions = set s.transactions (nat id) (started_transaction id p);
  status = StationStatus.charging;
}

-- The connectors behind a stop: the transaction's connector, if it is stored, is available again.
abbrev pub released :
    Number → Date → List (Number × MemoryConnectorState) → List (Number × MemoryConnectorState)
released connector_id stopped_at connectors = elim (get connectors connector_id) [
  | none ↦ connectors
  | some c ↦ set connectors connector_id (record c {
    status = ConnectorStatus.available;
    status_timestamp = stopped_at;
    error_code = "NoError";
  })
]

-- The station of a stopped transaction, which is dropped.
abbrev pub stopped :
    Number
    → StopTransactionPayload
    → MemoryTransactionState
    → MemoryStationState
    → MemoryStationState
stopped id p t s = update_station_status_from_connectors (record s {
  connectors = released t.connector_id (of_text p.timestamp) s.connectors;
  transactions = delete s.transactions id;
})

-- `mapping && mapping.dbTransactionId === undefined`
abbrev pub is_buffered : Option MemoryTransactionIndex → Bool
is_buffered none = false
is_buffered (some m) = elim m.db_transaction_id [ none ↦ true | some _ ↦ false ]
