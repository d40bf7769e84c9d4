-- ===== src/Schemas/Parse/Tests.antt =====
-- The parsers at concrete payloads.
use Prim.Native.String.{◌++◌}
use voltron_ocpp_protocols.Common.{
  ◌≡◌, ◌↔◌, refl, String, Option, none, some, [], ◌∷◌, false, if◌then◌else◌, All,
}
use voltron_ocpp_protocols.Json.{
  Value, num, str, arr, obj, no_items, item, no_fields, field, nat, member, items, entry,
}
use voltron_ocpp_protocols.Errors.{ok}
use voltron_ocpp_protocols.Schemas.Timestamp.{
  is_blank, is_iso_date, has_zone, front, accepts, fraction, is_empty, is_z, is_offset,
  ends_with_offset, ends_with_z, skip_digits,
}
use voltron_ocpp_protocols.Schemas.Guards.{
  ensure_object, ensure_string, ensure_optional_string, ensure_number, ensure_timestamp,
  property_violation,
}
use voltron_ocpp_protocols.Schemas.Guards.Laws.{
  IsTimestamp, ensure_timestamp-IsTimestamp, ensure_timestamp_idempotent, IsObject,
}
use voltron_ocpp_protocols.Schemas.Payloads.{StartTransactionPayload, MeterValuesPayload}
use voltron_ocpp_protocols.Schemas.Parse.{
  parse_authorize, parse_start_transaction, parse_meter_values, parse_array, map_index,
  parse_meter_value_entry, parse_sampled_value, optional_number,
}
use voltron_ocpp_protocols.Schemas.Parse.Refusals.{Checked, parse-Checked}
use voltron_ocpp_protocols.Schemas.Parse.Accepts.{IsEntry, parse_meter_values-valid}
use voltron_ocpp_protocols.Schemas.Parse.StartTransaction.{
  StartTransactionOf, parse_start_transaction_iff,
}

abbrev start_body : Value
start_body = obj (
    field "connectorId" (num (nat 1)) (
      field "idTag" (str "TAG-1") (
        field "meterStart" (num (nat 100))
          (field "timestamp" (str "2024-01-01T00:00:00") no_fields))))

abbrev start_payload : StartTransactionPayload
start_payload = record {
  connector_id = nat 1;
  id_tag = "TAG-1";
  meter_start = nat 100;
  timestamp = "2024-01-01T00:00:00Z";
  reservation_id = none;
}

start_accepted : parse_start_transaction (some start_body) ≡ ok start_payload
unfolding parse_start_transaction ensure_object ensure_number ensure_string ensure_timestamp
    optional_number member entry is_blank is_iso_date has_zone front accepts fraction is_empty is_z
    is_offset ends_with_offset ends_with_z
start_accepted = refl

parse_start_transaction_iff_example :
    (parse_start_transaction (some start_body) ≡ ok start_payload)
    ↔ (IsObject start_body × StartTransactionOf start_body start_payload)
parse_start_transaction_iff_example = parse_start_transaction_iff start_body start_payload

parse-Checked_example : Checked (parse_authorize (some start_body))
parse-Checked_example = (parse-Checked (some start_body)).1

local_time :
    ensure_timestamp (some (str "2024-01-01T00:00:00.25")) "timestamp"
    ≡ ok "2024-01-01T00:00:00.25Z"
unfolding ensure_timestamp ensure_string is_blank is_iso_date has_zone front accepts fraction
    skip_digits is_empty is_z is_offset ends_with_offset ends_with_z
local_time = refl

no_time :
    ensure_timestamp (some (str "2024-01-01")) "timestamp"
    ≡ property_violation "timestamp must be an ISO-8601 timestamp"
unfolding ensure_timestamp ensure_string is_blank is_iso_date front accepts
no_time = refl

ensure_timestamp-IsTimestamp_example :
    (s : String) × (◌≡◌ {A = Option Value} (some (str "2024-01-01T00:00:00.25")) (some (str s)))
    × ("2024-01-01T00:00:00.25Z" ≡ (if has_zone s then s else s ++ "Z"))
    × IsTimestamp "2024-01-01T00:00:00.25Z"
    × (is_blank "2024-01-01T00:00:00.25Z" ≡ false)
ensure_timestamp-IsTimestamp_example =
    ensure_timestamp-IsTimestamp (some (str "2024-01-01T00:00:00.25")) "timestamp" local_time

ensure_timestamp_idempotent_example :
    ensure_timestamp (some (str "2024-01-01T00:00:00.25Z")) "timestamp"
    ≡ ok "2024-01-01T00:00:00.25Z"
ensure_timestamp_idempotent_example =
    ensure_timestamp_idempotent (some (str "2024-01-01T00:00:00.25")) "timestamp" local_time

abbrev reading : Value
reading = obj (
    field "timestamp" (str "2024-01-01T00:00:00Z") (
      field "sampledValue" (arr (item (obj (field "value" (str "10") no_fields)) no_items))
        no_fields))

abbrev meter_body : Value
meter_body =
    obj (
      field "connectorId" (num (nat 1))
        (field "meterValue" (arr (item reading no_items)) no_fields))

abbrev meter_payload : MeterValuesPayload
meter_payload = record {
  connector_id = nat 1;
  transaction_id = none;
  meter_value =
      record {
        timestamp = "2024-01-01T00:00:00Z";
        sampled_value =
            record {
              value = "10";
              context = none;
              format = none;
              measurand = none;
              phase = none;
              location = none;
              unit = none;
            }
            ∷ [];
      }
      ∷ [];
}

meter_accepted : parse_meter_values (some meter_body) ≡ ok meter_payload
unfolding parse_meter_values parse_array map_index parse_meter_value_entry parse_sampled_value
    ensure_object ensure_number ensure_string ensure_optional_string ensure_timestamp
    optional_number member entry items is_blank is_iso_date has_zone front accepts fraction is_empty
    is_z is_offset ends_with_offset ends_with_z
meter_accepted = refl

parse_meter_values-valid_example : All IsEntry meter_payload.meter_value
parse_meter_values-valid_example =
    (parse_meter_values-valid (some meter_body) meter_payload meter_accepted).2
