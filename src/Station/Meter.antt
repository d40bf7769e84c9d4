-- ===== src/Station/Meter.antt =====
-- `handleMeterValues` of charging-station.service.ts.
use voltron_ocpp_protocols.Common.{
  ℕ, String, if◌then◌else◌, Option, none, some, List, [], ◌∷◌, ◌++◌, get, length,
}
use voltron_ocpp_protocols.Json.{Number, nat, num, number_eq}
use voltron_ocpp_protocols.Errors.{Result, ok, err}
use voltron_ocpp_protocols.Schemas.Payloads.{MeterValuesPayload, MeterValueEntry, SampledValue}
use voltron_ocpp_protocols.Station.State.Rows.{of_text, MeterRow, StationLogEvent}
use voltron_ocpp_protocols.Station.State.{
  Runtime, MemoryTransactionIndex, M, pure, ◌>>=◌, ◌>>◌, read, lift, query, use_fallback,
}
use voltron_ocpp_protocols.Station.Promote.{promote_if_connected, ensure_station}
use voltron_ocpp_protocols.Station.Events.{record_station_event, object, number_or_null}
use voltron_ocpp_protocols.Station.Ledger.{to_big_int}

-- `mapping?.dbTransactionId`
abbrev pub mapped : Option MemoryTransactionIndex → Option Number
mapped none = none
mapped (some m) = m.db_transaction_id

-- The transaction that the rows name.
abbrev pub row_transaction :
    List (Number × MemoryTransactionIndex) → Option Number → Result (Option Number)
row_transaction transactions none = ok none
row_transaction transactions (some id) = elim (mapped (get transactions id)) [
  | some d ↦ ok (some d)
  | none ↦ elim (to_big_int id) [ ok n ↦ ok (some n) | err e ↦ err e ]
]

module _ (r : Runtime) where
  open r use {Db, Decimal, create_meter_values, to_decimal}

  -- One row of a sample.
  unfoldable pub meter_row :
      String → Number → Option Number → String → SampledValue → M Db (MeterRow Decimal)
  meter_row station_id connector_id transaction_id timestamp sample = do
    value ← lift (to_decimal sample.value)
    pure (record {
      station_id = station_id;
      connector_id = connector_id;
      transaction_id = transaction_id;
      sampled_at = of_text timestamp;
      value = value;
      context = sample.context;
      format = sample.format;
      measurand = sample.measurand;
      phase = sample.phase;
      location = sample.location;
      unit = sample.unit;
    })

  unfoldable pub sample_rows :
      String → Number → Option Number → String → List SampledValue → M Db (List (MeterRow Decimal))
  sample_rows station_id connector_id transaction_id timestamp [] = pure []
  sample_rows station_id connector_id transaction_id timestamp (x ∷ xs) = do
    row ← meter_row station_id connector_id transaction_id timestamp x
    rows ← sample_rows station_id connector_id transaction_id timestamp xs
    pure (row ∷ rows)

  -- The two loops over entries and samples.
  unfoldable pub entry_rows :
      String → Number → Option Number → List MeterValueEntry → M Db (List (MeterRow Decimal))
  entry_rows station_id connector_id transaction_id [] = pure []
  entry_rows station_id connector_id transaction_id (e ∷ es) = do
    rows ← sample_rows station_id connector_id transaction_id e.timestamp e.sampled_value
    rest ← entry_rows station_id connector_id transaction_id es
    pure (rows ++ rest)

  unfoldable pub handle_meter_values : String → MeterValuesPayload → ℕ → M Db (Unit {0})
  handle_meter_values identity payload now = do
    promote_if_connected r identity
    s ← read
    if use_fallback s then pure tt else (do
      station ← ensure_station r identity now
      s' ← read
      transaction_id ← lift (row_transaction s'.memory_transactions payload.transaction_id)
      rows ← entry_rows station.id payload.connector_id transaction_id payload.meter_value
      elim rows [
        | [] ↦ pure tt
        | x ∷ xs ↦ (do
          query (create_meter_values (x ∷ xs))
          record_station_event r station.id StationLogEvent.meter_values
              (object (
                ("connectorId", num payload.connector_id)
                ∷ ("transactionId", number_or_null payload.transaction_id)
                ∷ ("samples", num (nat (length (x ∷ xs))))
                ∷ []))
              none)
      ])
