-- ===== src/Station/Status/Summary.antt =====
-- The status of a station against what its connectors report.
use voltron_ocpp_protocols.Common.{
  Bool, false, ◌||◌, ◌≡◌, if◌then◌else◌, none, List, [], ◌∷◌, arith,
}
use voltron_ocpp_protocols.Station.Status.{
  ConnectorStatus, StationStatus, is_charging, is_faulted, station_faulted, scan_connectors,
  summary,
}

unfoldable pub any : (ConnectorStatus → Bool) → List ConnectorStatus → Bool
any p [] = false
any p (c ∷ cs) = p c || any p cs

-- What the connectors report, where none of them is connector 0 of the station.
abbrev pub reported : StationStatus → List ConnectorStatus → StationStatus
reported status cs =
    if any is_charging cs
    then StationStatus.charging
    else if station_faulted status || any is_faulted cs
    then StationStatus.faulted
    else StationStatus.available

scan_connectors-reported :
    (status : StationStatus) (cs : List ConnectorStatus)
    → scan_connectors status cs ≡ reported status cs
unfolding scan_connectors any station_faulted
scan_connectors-reported status [] = ground arith
scan_connectors-reported status (c ∷ cs) =
    ground
      (arith, scan_connectors-reported (if is_faulted c then StationStatus.faulted else status) cs)

-- Without a connector 0 the station charges exactly if a connector does. If none does, it is faulted
-- exactly if a connector is faulted or the station already was, and available otherwise.
pub summary-reported :
    (status : StationStatus) (cs : List ConnectorStatus)
    → summary none status cs ≡ reported status cs
unfolding summary
summary-reported status cs = scan_connectors-reported status cs
