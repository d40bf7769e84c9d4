-- ===== src/Schemas/Payloads.antt =====
-- The payload types of src/modules/ocpp/messages/schemas.ts. An optional field is an `Option`.
use voltron_ocpp_protocols.Common.{String, List, Option}
use voltron_ocpp_protocols.Json.{Number}

pub record BootNotificationPayload : Type 0 where
  pub charge_point_vendor : String
  pub charge_point_model : String
  pub charge_point_serial_number : Option String
  pub charge_box_serial_number : Option String
  pub firmware_version : Option String
  pub iccid : Option String
  pub imsi : Option String
  pub meter_serial_number : Option String
  pub meter_type : Option String

pub record AuthorizePayload : Type 0 where
  pub id_tag : String

pub record StatusNotificationPayload : Type 0 where
  pub connector_id : Number
  pub error_code : String
  pub status : String
  pub timestamp : Option String
  pub info : Option String
  pub vendor_id : Option String
  pub vendor_error_code : Option String

pub record StartTransactionPayload : Type 0 where
  pub connector_id : Number
  pub id_tag : String
  pub meter_start : Number
  pub timestamp : String
  pub reservation_id : Option Number

pub record StopTransactionPayload : Type 0 where
  pub transaction_id : Number
  pub meter_stop : Number
  pub timestamp : String
  pub id_tag : Option String
  pub reason : Option String

pub record SampledValue : Type 0 where
  pub value : String
  pub context : Option String
  pub format : Option String
  pub measurand : Option String
  pub phase : Option String
  pub location : Option String
  pub unit : Option String

pub record MeterValueEntry : Type 0 where
  pub timestamp : String
  pub sampled_value : List SampledValue

pub record MeterValuesPayload : Type 0 where
  pub connector_id : Number
  pub transaction_id : Option Number
  pub meter_value : List MeterValueEntry
