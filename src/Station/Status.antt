-- ===== src/Station/Status.antt =====
-- The statuses (prisma/schema.prisma) and how a connector's status becomes the station's:
-- `connectorStatusMap`, `resolveConnectorStatus`, `deriveStationStatus` and the loop of
-- `updateStationStatusFromConnectors`.
pub mod Summary
use voltron_ocpp_protocols.Common.{
  Bool, true, false, String, ◌==◌, string_eq, if◌then◌else◌, Option, none, some, List, [], ◌∷◌,
}

pub data ConnectorStatus : Type 0 where
  available preparing charging suspended_ev suspended_evse finishing reserved unavailable faulted :
      ConnectorStatus

pub data StationStatus : Type 0 where
  available charging faulted unavailable offline finishing preparing reserved suspended_ev
        suspended_evse :
      StationStatus

-- `resolveConnectorStatus`. The names that a plain object inherits, such as "constructor", are found
-- by `connectorStatusMap[rawStatus]` too; they are left out here.
unfoldable pub resolve_connector_status : String → ConnectorStatus
resolve_connector_status raw_status =
    if raw_status == "Available"
    then ConnectorStatus.available
    else if raw_status == "Preparing"
    then ConnectorStatus.preparing
    else if raw_status == "Charging"
    then ConnectorStatus.charging
    else if raw_status == "SuspendedEV"
    then ConnectorStatus.suspended_ev
    else if raw_status == "SuspendedEVSE"
    then ConnectorStatus.suspended_evse
    else if raw_status == "Finishing"
    then ConnectorStatus.finishing
    else if raw_status == "Reserved"
    then ConnectorStatus.reserved
    else if raw_status == "Unavailable"
    then ConnectorStatus.unavailable
    else if raw_status == "Faulted"
    then ConnectorStatus.faulted
    else ConnectorStatus.unavailable

unfoldable pub derive_station_status : ConnectorStatus → StationStatus
derive_station_status ConnectorStatus.charging = StationStatus.charging
derive_station_status ConnectorStatus.faulted = StationStatus.faulted
derive_station_status ConnectorStatus.unavailable = StationStatus.unavailable
derive_station_status _ = StationStatus.available

-- `status === CHARGING` and `status === FAULTED`
unfoldable pub is_charging : ConnectorStatus → Bool
is_charging ConnectorStatus.charging = true
is_charging _ = false

unfoldable pub is_faulted : ConnectorStatus → Bool
is_faulted ConnectorStatus.faulted = true
is_faulted _ = false

unfoldable pub station_faulted : StationStatus → Bool
station_faulted StationStatus.faulted = true
station_faulted _ = false

-- The loop over the connectors' statuses, with the station's status before each round, and the test
-- behind the loop.
unfoldable pub scan_connectors : StationStatus → List ConnectorStatus → StationStatus
scan_connectors status [] = if station_faulted status then status else StationStatus.available
scan_connectors status (c ∷ cs) =
    let rest = scan_connectors (if is_faulted c then StationStatus.faulted else status) cs in
    if is_charging c then StationStatus.charging else rest

-- The new status of a station: from connector 0, if there is one, or from all connectors.
unfoldable pub summary :
    Option ConnectorStatus → StationStatus → List ConnectorStatus → StationStatus
summary (some master) status connectors = derive_station_status master
summary none status connectors = scan_connectors status connectors
