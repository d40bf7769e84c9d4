-- ===== src/Schemas/Parse.antt =====
-- The `parse…` functions of src/modules/ocpp/messages/schemas.ts. The guards run in the order of the
-- object literals, so the first field that is refused gives the error.
pub mod Refusals
pub mod Accepts
pub mod StartTransaction
mod Tests
use Prim.Native.String.{◌++◌}
use voltron_ocpp_protocols.Common.{
  ℕ, zero, suc, ◌+◌, Bool, true, false, not, String, if◌then◌else◌, Option, none, some, List, [],
  ◌∷◌, ◌==◌, string_eq,
}
use voltron_ocpp_protocols.Json.{
  Value, null, bool, num, str, arr, obj, Number, nat, nan, items, member, decimal,
}
use voltron_ocpp_protocols.Errors.{Result, ok, err, ◌>>=◌}
use voltron_ocpp_protocols.Schemas.Payloads.{
  BootNotificationPayload, AuthorizePayload, StatusNotificationPayload, StartTransactionPayload,
  StopTransactionPayload, SampledValue, MeterValueEntry, MeterValuesPayload,
}
use voltron_ocpp_protocols.Schemas.Guards.{
  type_violation, ensure_object, ensure_string, ensure_optional_string, ensure_number,
  ensure_timestamp,
}

-- Whether a value counts as true in a condition.
unfoldable pub truthy : Option Value → Bool
truthy none = false
truthy (some null) = false
truthy (some (bool b)) = b
truthy (some (num (nat zero))) = false
truthy (some (num nan)) = false
truthy (some (num n)) = true
truthy (some (str s)) = not (s == "")
truthy (some (arr vs)) = true
truthy (some (obj fs)) = true

unfoldable pub parse_boot_notification : Option Value → Result BootNotificationPayload
parse_boot_notification payload = do
  data' ← ensure_object payload "BootNotification"
  charge_point_vendor ← ensure_string (member data' "chargePointVendor") "chargePointVendor"
  charge_point_model ← ensure_string (member data' "chargePointModel") "chargePointModel"
  charge_point_serial_number ←
      ensure_optional_string (member data' "chargePointSerialNumber") "chargePointSerialNumber"
  charge_box_serial_number ←
      ensure_optional_string (member data' "chargeBoxSerialNumber") "chargeBoxSerialNumber"
  firmware_version ← ensure_optional_string (member data' "firmwareVersion") "firmwareVersion"
  iccid ← ensure_optional_string (member data' "iccid") "iccid"
  imsi ← ensure_optional_string (member data' "imsi") "imsi"
  meter_serial_number ←
      ensure_optional_string (member data' "meterSerialNumber") "meterSerialNumber"
  meter_type ← ensure_optional_string (member data' "meterType") "meterType"
  ok (record {
    charge_point_vendor = charge_point_vendor;
    charge_point_model = charge_point_model;
    charge_point_serial_number = charge_point_serial_number;
    charge_box_serial_number = charge_box_serial_number;
    firmware_version = firmware_version;
    iccid = iccid;
    imsi = imsi;
    meter_serial_number = meter_serial_number;
    meter_type = meter_type;
  })

unfoldable pub parse_authorize : Option Value → Result AuthorizePayload
parse_authorize payload = do
  data' ← ensure_object payload "Authorize"
  id_tag ← ensure_string (member data' "idTag") "idTag"
  ok (record { id_tag = id_tag })

-- `value ? ensureTimestamp(value, field) : undefined`
unfoldable pub optional_timestamp : Option Value → String → Result (Option String)
optional_timestamp value field =
    if truthy value then (do t ← ensure_timestamp value field; ok (some t)) else ok none

-- `value === undefined ? undefined : ensureNumber(value, field)`
unfoldable pub optional_number : Option Value → String → Result (Option Number)
optional_number none field = ok none
optional_number (some v) field = do n ← ensure_number (some v) field; ok (some n)

unfoldable pub parse_status_notification : Option Value → Result StatusNotificationPayload
parse_status_notification payload = do
  data' ← ensure_object payload "StatusNotification"
  connector_id ← ensure_number (member data' "connectorId") "connectorId"
  error_code ← ensure_string (member data' "errorCode") "errorCode"
  status ← ensure_string (member data' "status") "status"
  timestamp ← optional_timestamp (member data' "timestamp") "timestamp"
  info ← ensure_optional_string (member data' "info") "info"
  vendor_id ← ensure_optional_string (member data' "vendorId") "vendorId"
  vendor_error_code ← ensure_optional_string (member data' "vendorErrorCode") "vendorErrorCode"
  ok (record {
    connector_id = connector_id;
    error_code = error_code;
    status = status;
    timestamp = timestamp;
    info = info;
    vendor_id = vendor_id;
    vendor_error_code = vendor_error_code;
  })

unfoldable pub parse_start_transaction : Option Value → Result StartTransactionPayload
parse_start_transaction payload = do
  data' ← ensure_object payload "StartTransaction"
  connector_id ← ensure_number (member data' "connectorId") "connectorId"
  id_tag ← ensure_string (member data' "idTag") "idTag"
  meter_start ← ensure_number (member data' "meterStart") "meterStart"
  timestamp ← ensure_timestamp (member data' "timestamp") "timestamp"
  reservation_id ← optional_number (member data' "reservationId") "reservationId"
  ok (record {
    connector_id = connector_id;
    id_tag = id_tag;
    meter_start = meter_start;
    timestamp = timestamp;
    reservation_id = reservation_id;
  })

unfoldable pub parse_stop_transaction : Option Value → Result StopTransactionPayload
parse_stop_transaction payload = do
  data' ← ensure_object payload "StopTransaction"
  transaction_id ← ensure_number (member data' "transactionId") "transactionId"
  meter_stop ← ensure_number (member data' "meterStop") "meterStop"
  timestamp ← ensure_timestamp (member data' "timestamp") "timestamp"
  id_tag ← ensure_optional_string (member data' "idTag") "idTag"
  reason ← ensure_optional_string (member data' "reason") "reason"
  ok (record {
    transaction_id = transaction_id;
    meter_stop = meter_stop;
    timestamp = timestamp;
    id_tag = id_tag;
    reason = reason;
  })

unfoldable pub parse_sampled_value : Value → ℕ → Result SampledValue
parse_sampled_value value index = do
  entry ← ensure_object (some value) ("sampledValue[" ++ (decimal index ++ "]"))
  value' ← ensure_string (member entry "value") "value"
  context ← ensure_optional_string (member entry "context") "context"
  format ← ensure_optional_string (member entry "format") "format"
  measurand ← ensure_optional_string (member entry "measurand") "measurand"
  phase ← ensure_optional_string (member entry "phase") "phase"
  location ← ensure_optional_string (member entry "location") "location"
  unit ← ensure_optional_string (member entry "unit") "unit"
  ok (record {
    value = value';
    context = context;
    format = format;
    measurand = measurand;
    phase = phase;
    location = location;
    unit = unit;
  })

-- `values.map((value, index) => parse(value, index))`, from an index; the first error ends it.
unfoldable pub map_index {ℓ} :
    {A : Type ℓ} → (Value → ℕ → Result A) → List Value → ℕ → Result (List A)
map_index parse [] index = ok []
map_index parse (v ∷ vs) index = do
  a ← parse v index
  as' ← map_index parse vs (index + 1)
  ok (a ∷ as')

-- An array that is not empty, each element parsed; the error for any other value names the field.
unfoldable pub parse_array {ℓ} :
    {A : Type ℓ} → (Value → ℕ → Result A) → Option Value → String → Result (List A)
parse_array parse (some (arr vs)) field = do
  parsed ← map_index parse (items vs) 0
  elim parsed [
    | [] ↦ type_violation (field ++ " must be a non-empty array")
    | a ∷ as' ↦ ok (a ∷ as')
  ]
parse_array parse _ field = type_violation (field ++ " must be a non-empty array")

unfoldable pub parse_meter_value_entry : Value → ℕ → Result MeterValueEntry
parse_meter_value_entry value index = do
  entry ← ensure_object (some value) ("meterValue[" ++ (decimal index ++ "]"))
  sampled_value ← parse_array parse_sampled_value (member entry "sampledValue") "sampledValue"
  timestamp ← ensure_timestamp (member entry "timestamp") "timestamp"
  ok (record { timestamp = timestamp; sampled_value = sampled_value })

unfoldable pub parse_meter_values : Option Value → Result MeterValuesPayload
parse_meter_values payload = do
  data' ← ensure_object payload "MeterValues"
  meter_value ← parse_array parse_meter_value_entry (member data' "meterValue") "meterValue"
  connector_id ← ensure_number (member data' "connectorId") "connectorId"
  transaction_id ← optional_number (member data' "transactionId") "transactionId"
  ok (record {
    connector_id = connector_id;
    transaction_id = transaction_id;
    meter_value = meter_value;
  })
