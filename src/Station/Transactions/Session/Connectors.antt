-- ===== src/Station/Transactions/Session/Connectors.antt =====
-- The connectors, the entries and the status of a buffered station behind a start and a stop, for Session.
use voltron_ocpp_protocols.Common.{
  ℕ, String, ◌≡◌, refl, ◌==◌, ==_refl, if◌then◌else◌, Option, none, some, List, map, get, set,
  delete, get-set, get-delete, string_eq, arith,
}
use voltron_ocpp_protocols.Json.{Number, nat, number_eq}
use voltron_ocpp_protocols.Schemas.Payloads.{StartTransactionPayload, StopTransactionPayload}
use voltron_ocpp_protocols.Station.Status.{
  ConnectorStatus, StationStatus, derive_station_status, summary,
}
use voltron_ocpp_protocols.Station.Status.Summary.{reported, summary-reported}
use voltron_ocpp_protocols.Station.State.Rows.{Date, of_text}
use voltron_ocpp_protocols.Station.State.{MemoryStationState, MemoryConnectorState}
use voltron_ocpp_protocols.Station.Conversions.{
  connector_status, update_station_status_from_connectors,
}
use voltron_ocpp_protocols.Station.Ledger.{
  started, started_transaction, stopped, released, charging_connector,
}

-- The texts that an old connector keeps.
abbrev pub info_of : Option MemoryConnectorState → Option String
info_of none = none
info_of (some c) = c.info

abbrev pub vendor_error_code_of : Option MemoryConnectorState → Option String
vendor_error_code_of none = none
vendor_error_code_of (some c) = c.vendor_error_code

-- The station's status is that of connector 0, if there is one, and else what its connectors report.
abbrev pub said_by : Option MemoryConnectorState → List ConnectorStatus → StationStatus
said_by none connectors = reported StationStatus.charging connectors
said_by (some c) connectors = derive_station_status c.status

charging_connector-get :
    (o : Option MemoryConnectorState) (since : Date)
    → charging_connector o since ≡ record {
      status = ConnectorStatus.charging;
      error_code = "NoError";
      info = info_of o;
      vendor_error_code = vendor_error_code_of o;
      status_timestamp = since;
    }
charging_connector-get none since = refl
charging_connector-get (some c) since = refl

pub started-connectors :
    (n : ℕ) (p : StartTransactionPayload) (x : MemoryStationState) (k : Number)
    → get (started n p x).connectors k ≡ (
        if p.connector_id == k
        then some (record {
          status = ConnectorStatus.charging;
          error_code = "NoError";
          info = info_of (get x.connectors k);
          vendor_error_code = vendor_error_code_of (get x.connectors k);
          status_timestamp = of_text p.timestamp;
        })
        else get x.connectors k)
started-connectors n p x k = ground (
  arith,
  number_eq.same_iff p.connector_id k,
  charging_connector-get (get x.connectors p.connector_id) (of_text p.timestamp),
  get-set x.connectors p.connector_id k
      (charging_connector (get x.connectors p.connector_id) (of_text p.timestamp)),
)

released-get :
    (since : Date) (x : MemoryStationState) (connector k : Number) (c : MemoryConnectorState)
    → get x.connectors connector ≡ some c
    → get (released connector since x.connectors) k ≡ (
        if connector == k
        then some (record {
          status = ConnectorStatus.available;
          error_code = "NoError";
          info = c.info;
          vendor_error_code = c.vendor_error_code;
          status_timestamp = since;
        })
        else get x.connectors k)
released-get since x connector k c e = rw (released, e) (get-set x.connectors connector k _)

pub summed :
    (x : MemoryStationState)
    → x.status ≡ StationStatus.charging
    → (update_station_status_from_connectors x).status
      ≡ said_by (get x.connectors (nat 0)) (map (λ e. e.1.status) x.connectors)
unfolding update_station_status_from_connectors summary
summed x charging =
    rw charging (from (get x.connectors (nat 0)) (map (λ e. e.1.status) x.connectors))
  where
    from :
        (master : Option MemoryConnectorState) (connectors : List ConnectorStatus)
        → summary (connector_status master) StationStatus.charging connectors
          ≡ said_by master connectors
    from none connectors = summary-reported StationStatus.charging connectors
    from (some c) connectors = refl

pub stopped-connectors :
    (n : ℕ) (p : StartTransactionPayload) (q : StopTransactionPayload) (x : MemoryStationState)
    (k : Number)
    → get (stopped q.transaction_id q (started_transaction n p) (started n p x)).connectors k ≡ (
        if p.connector_id == k
        then some (record {
          status = ConnectorStatus.available;
          error_code = "NoError";
          info = info_of (get x.connectors k);
          vendor_error_code = vendor_error_code_of (get x.connectors k);
          status_timestamp = of_text q.timestamp;
        })
        else get x.connectors k)
unfolding update_station_status_from_connectors
stopped-connectors n p q x k =
    let c : MemoryConnectorState = record {
      status = ConnectorStatus.charging;
      error_code = "NoError";
      info = info_of (get x.connectors p.connector_id);
      vendor_error_code = vendor_error_code_of (get x.connectors p.connector_id);
      status_timestamp = of_text p.timestamp;
    } in
    let own : get (started n p x).connectors p.connector_id ≡ some c =
      rw (started-connectors n p x p.connector_id, ==_refl p.connector_id) refl in
    let all = released-get (of_text q.timestamp) (started n p x) p.connector_id k c own in
    ground (arith, number_eq.same_iff p.connector_id k, started-connectors n p x k, all)

pub deleted-set :
    {V : Type 0} (l : List (Number × V)) (j k : Number) (v : V)
    → get (delete (set l j v) j) k ≡ (if j == k then none else get l k)
deleted-set l j k v = ground (arith, get-delete (set l j v) j k, get-set l j k v)

pub set_twice :
    {V : Type 0} (l : List (String × V)) (j k : String) (v w : V)
    → get (set (set l j v) j w) k ≡ (if j == k then some w else get l k)
set_twice l j k v w = ground (arith, get-set (set l j v) j k w, get-set l j k v)
