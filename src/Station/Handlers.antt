-- ===== src/Station/Handlers.antt =====
-- `handleBootNotification`, `handleAuthorize`, `handleHeartbeat` and `handleStatusNotification` of
-- charging-station.service.ts. `now` is the `new Date()` of the call.
use voltron_ocpp_protocols.Common.{ℕ, String, ◌==◌, if◌then◌else◌, Option, none, some, [], ◌∷◌, set}
use voltron_ocpp_protocols.Json.{Number, nat, Value, num, str, number_eq}
use voltron_ocpp_protocols.Schemas.Payloads.{
  BootNotificationPayload, AuthorizePayload, StatusNotificationPayload,
}
use voltron_ocpp_protocols.Station.Status.{
  ConnectorStatus, StationStatus, resolve_connector_status, derive_station_status, is_charging,
}
use voltron_ocpp_protocols.Station.State.Rows.{
  Date, at, of_text, StationData, StationPatch, StationLogEvent, set_status,
}
use voltron_ocpp_protocols.Station.State.{
  Runtime, MemoryStationState, MemoryConnectorState, M, pure, ◌>>=◌, ◌>>◌, read, modify, lift,
  query, use_fallback, put_station,
}
use voltron_ocpp_protocols.Station.Promote.{
  get_or_create_memory_station, promote_if_connected, ensure_station,
}
use voltron_ocpp_protocols.Station.Conversions.{
  update_station_status_from_connectors, connector_data,
}
use voltron_ocpp_protocols.Station.Events.{record_station_event, object, text_or_null, boot_value}

-- `a ?? b`, of optional texts
abbrev either : Option String → Option String → Option String
either none b = b
either (some a) b = some a

-- `chargePointSerialNumber ?? chargeBoxSerialNumber ?? meterSerialNumber ?? null`
abbrev pub serial_of : BootNotificationPayload → Option String
serial_of p =
    either p.charge_point_serial_number (either p.charge_box_serial_number p.meter_serial_number)

abbrev pub boot_data : BootNotificationPayload → Option String → ℕ → StationData
boot_data p endpoint now = record {
  vendor = some p.charge_point_vendor;
  model = some p.charge_point_model;
  serial_number = serial_of p;
  firmware_version = p.firmware_version;
  endpoint = endpoint;
  last_heartbeat_at = at now;
  status = StationStatus.available;
}

abbrev pub booted :
    BootNotificationPayload → Option String → ℕ → MemoryStationState → MemoryStationState
booted p endpoint now s = record s {
  vendor = some p.charge_point_vendor;
  model = some p.charge_point_model;
  serial_number = serial_of p;
  firmware_version = p.firmware_version;
  endpoint = endpoint;
  last_heartbeat_at = at now;
  status = StationStatus.available;
}

pub record BootResult : Type 0 where
  pub station_id : String
  pub response : Value

-- `{ idTagInfo: { status: 'Accepted' } }`
abbrev pub accepted_tag : Value
accepted_tag = object (("idTagInfo", object (("status", str "Accepted") ∷ [])) ∷ [])

-- The connector that a `StatusNotification` reports.
abbrev pub reported_connector :
    StatusNotificationPayload → ConnectorStatus → Date → MemoryConnectorState
reported_connector p status timestamp = record {
  status = status;
  error_code = p.error_code;
  info = p.info;
  vendor_error_code = p.vendor_error_code;
  status_timestamp = timestamp;
}

-- The station's status behind a report, over the stored connectors.
abbrev pub after_report : Number → ConnectorStatus → MemoryStationState → MemoryStationState
after_report connector_id status s =
    if connector_id == nat 0
    then record s { status = derive_station_status status }
    else if is_charging status
    then record s { status = StationStatus.charging }
    else update_station_status_from_connectors s

-- `payload.timestamp ? new Date(payload.timestamp) : new Date()`
abbrev pub date_or_now : Option String → ℕ → Date
date_or_now none now = at now
date_or_now (some t) now = of_text t

module _ (r : Runtime) where
  open r use {
    Db, upsert_station, update_station, upsert_connector, to_iso_string, heartbeat_interval_seconds,
  }

  -- The response of a boot: its date is written before the method returns.
  abbrev pub boot_response : ℕ → M Db Value
  boot_response now = do
    time ← lift (to_iso_string (at now))
    pure (
        object (
          ("status", str "Accepted")
          ∷ ("currentTime", str time)
          ∷ ("interval", num heartbeat_interval_seconds)
          ∷ []))

  unfoldable pub boot_in_memory :
      String → BootNotificationPayload → Option String → ℕ → M Db BootResult
  boot_in_memory identity payload endpoint now = do
    station ← get_or_create_memory_station r identity now
    modify (put_station identity (booted payload endpoint now station))
    response ← boot_response now
    pure (record { station_id = station.id; response = response })

  unfoldable pub handle_boot_notification :
      String → BootNotificationPayload → Option String → ℕ → M Db BootResult
  handle_boot_notification identity payload endpoint now = do
    s ← read
    if use_fallback s then boot_in_memory identity payload endpoint now else (do
      let written = boot_data payload endpoint now
      row ← query (upsert_station identity none written written)
      time ← lift (to_iso_string (at now))
      record_station_event r row.id StationLogEvent.boot_notification
          (object (("payload", boot_value payload) ∷ ("endpoint", text_or_null endpoint) ∷ []))
          (some (object (("receivedAt", str time) ∷ [])))
      response ← boot_response now
      pure (record { station_id = row.id; response = response }))

  -- `station.lastHeartbeatAt = new Date()` of the buffered station
  unfoldable pub touch_in_memory : String → ℕ → M Db (Unit {0})
  touch_in_memory identity now = do
    station ← get_or_create_memory_station r identity now
    modify (put_station identity (record station { last_heartbeat_at = at now }))

  unfoldable pub handle_authorize : String → AuthorizePayload → ℕ → M Db Value
  handle_authorize identity payload now = do
    s ← read
    if use_fallback s then (do touch_in_memory identity now; pure accepted_tag) else (do
      station ← ensure_station r identity now
      query (update_station station.id (StationPatch.heartbeat (at now)))
      pure accepted_tag)

  unfoldable pub heartbeat_in_memory : String → ℕ → M Db Value
  heartbeat_in_memory identity now = do
    touch_in_memory identity now
    time ← lift (to_iso_string (at now))
    pure (object (("currentTime", str time) ∷ []))

  unfoldable pub handle_heartbeat : String → ℕ → M Db Value
  handle_heartbeat identity now = do
    promote_if_connected r identity
    s ← read
    if use_fallback s then heartbeat_in_memory identity now else (do
      station ← ensure_station r identity now
      query (update_station station.id (StationPatch.heartbeat (at now)))
      time ← lift (to_iso_string (at now))
      record_station_event r station.id StationLogEvent.heartbeat
          (object (("receivedAt", str time) ∷ [])) none
      pure (object (("currentTime", str time) ∷ [])))

  unfoldable pub report_in_memory :
      String → StatusNotificationPayload → ConnectorStatus → Date → ℕ → M Db (Unit {0})
  report_in_memory identity payload status timestamp now = do
    station ← get_or_create_memory_station r identity now
    modify (
        put_station identity (
          after_report payload.connector_id status (record station {
            connectors =
                set station.connectors payload.connector_id
                  (reported_connector payload status timestamp);
          })))

  unfoldable pub handle_status_notification :
      String → StatusNotificationPayload → ℕ → M Db (Unit {0})
  handle_status_notification identity payload now = do
    let status = resolve_connector_status payload.status
    let timestamp = date_or_now payload.timestamp now
    let reported = reported_connector payload status timestamp
    promote_if_connected r identity
    s ← read
    if use_fallback s then report_in_memory identity payload status timestamp now else (do
      station ← ensure_station r identity now
      connector ← query (
          upsert_connector station.id payload.connector_id (connector_data reported)
            (connector_data reported))
      (if payload.connector_id == nat 0
          then query (update_station station.id (set_status (derive_station_status status)))
          else if is_charging connector.status
          then query (update_station station.id (set_status StationStatus.charging))
          else pure tt)
      time ← lift (to_iso_string timestamp)
      record_station_event r station.id StationLogEvent.status_notification
          (object (
            ("connectorId", num payload.connector_id)
            ∷ ("status", str payload.status)
            ∷ ("errorCode", str payload.error_code)
            ∷ ("info", text_or_null payload.info)
            ∷ ("vendorErrorCode", text_or_null payload.vendor_error_code)
            ∷ ("timestamp", str time)
            ∷ []))
          none)
