-- ===== src/Station/Events.antt =====
-- `recordStationEvent` of charging-station.service.ts, and the objects that it is given.
-- `serialiseLogValue` is left out: what is logged holds texts, numbers, null and objects alone, which
-- `JSON.parse` gives back from `JSON.stringify`.
use voltron_ocpp_protocols.Common.{String, Option, none, some, List, [], ◌∷◌}
use voltron_ocpp_protocols.Json.{Number, Value, Fields, null, num, str, obj, no_fields, field}
use voltron_ocpp_protocols.Errors.{ok}
use voltron_ocpp_protocols.Schemas.Payloads.{BootNotificationPayload}
use voltron_ocpp_protocols.Station.State.Rows.{StationLogEvent, EventLog}
use voltron_ocpp_protocols.Station.State.{Runtime, M}

-- `value ?? null`
abbrev pub text_or_null : Option String → Value
text_or_null none = null
text_or_null (some s) = str s

abbrev pub number_or_null : Option Number → Value
number_or_null none = null
number_or_null (some n) = num n

abbrev pub fields : List (String × Value) → Fields
fields [] = no_fields
fields ((name, v) ∷ rest) = field name v (fields rest)

abbrev pub object : List (String × Value) → Value
object entries = obj (fields entries)

-- An optional field: `JSON.stringify` drops one that is `undefined`.
abbrev pub with_text : String → Option String → Fields → Fields
with_text name none rest = rest
with_text name (some s) rest = field name (str s) rest

abbrev pub boot_value : BootNotificationPayload → Value
boot_value p = obj (
    field "chargePointVendor" (str p.charge_point_vendor) (
      field "chargePointModel" (str p.charge_point_model) (
        with_text "chargePointSerialNumber" p.charge_point_serial_number (
          with_text "chargeBoxSerialNumber" p.charge_box_serial_number (
            with_text "firmwareVersion" p.firmware_version (
              with_text "iccid" p.iccid (
                with_text "imsi" p.imsi (
                  with_text "meterSerialNumber" p.meter_serial_number
                    (with_text "meterType" p.meter_type no_fields)))))))))

module _ (r : Runtime) where
  open r use {Db, create_event_log}

  -- An error of the database is logged and goes no further.
  unfoldable pub record_station_event :
      String → StationLogEvent → Value → Option Value → M Db (Unit {0})
  record_station_event station_id event payload metadata s = elim create_event_log [
    | none ↦ (s, ok tt)
    | some create ↦
        let log : EventLog = record {
          station_id = station_id;
          event_type = event;
          payload = payload;
          metadata = metadata;
        } in
        (record s { db = (create log s.db).0 }, ok tt)
  ]
