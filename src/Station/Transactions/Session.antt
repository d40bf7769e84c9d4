-- ===== src/Station/Transactions/Session.antt =====
-- A whole transaction without a database: what `handleStartTransaction` and then `handleStopTransaction`
-- leave of the buffered station, of its connectors and of the index of transactions.
pub mod Connectors
use voltron_ocpp_protocols.Common.{
  ℕ, suc, true, false, not, String, ◌≡◌, refl, sym, ap, ◌∙◌, ◌==◌, ==_refl, if◌then◌else◌, Option,
  none, some, List, map, get, set, delete, get-set, get-set_self, get-delete, get-delete_self,
  string_eq, inl, inr, Option-cases, arith,
}
use voltron_ocpp_protocols.Json.{Number, nat, number_eq}
use voltron_ocpp_protocols.Errors.{ok}
use voltron_ocpp_protocols.Schemas.Payloads.{StartTransactionPayload, StopTransactionPayload}
use voltron_ocpp_protocols.Station.Status.{
  ConnectorStatus, StationStatus, derive_station_status, summary,
}
use voltron_ocpp_protocols.Station.Status.Summary.{reported, summary-reported}
use voltron_ocpp_protocols.Station.State.Rows.{Date, of_text, TransactionStatus}
use voltron_ocpp_protocols.Station.State.{
  Runtime, Service, MemoryStationState, MemoryConnectorState, MemoryTransactionState,
  MemoryTransactionIndex, use_fallback, put_station,
}
use voltron_ocpp_protocols.Station.Conversions.{
  connector_status, update_station_status_from_connectors,
}
use voltron_ocpp_protocols.Station.Transactions.{
  start_stored, handle_start_transaction, handle_stop_transaction,
}
use voltron_ocpp_protocols.Station.Ledger.{
  started, started_transaction, stopped, released, charging_connector,
}
use voltron_ocpp_protocols.Station.Transactions.Fallback.{
  after_start, handle_start_transaction-fallback, handle_stop_transaction-after_start,
}
use voltron_ocpp_protocols.Station.Transactions.Session.Connectors.{
  info_of, vendor_error_code_of, said_by, started-connectors, stopped-connectors, deleted-set,
  set_twice, summed,
}

-- What a call for transaction `n` at `connector` of the station of `identity` makes of the service `s`
-- and of that station, `old`: the connector has the status since the moment, without an error; the
-- number has the entries `transaction` in the station and `index` in the service; the counter is behind
-- the number; and nothing else has changed but the station's status.
pub record IsLeft {Db : Type 0} (s t : Service Db) (identity : String)
    (old new : MemoryStationState) (n : ℕ) (connector : Number) (status : ConnectorStatus)
    (since : Date) (transaction : Option MemoryTransactionState)
    (index : Option MemoryTransactionIndex) : Type 0 where
  pub stations :
      (k : String)
      → get t.memory_stations k ≡ (if identity == k then some new else get s.memory_stations k)
  pub indices :
      (k : Number)
      → get t.memory_transactions k ≡ (if nat n == k then index else get s.memory_transactions k)
  pub counter : t.next_fallback_transaction_id ≡ suc n
  pub service : t ≡ record s {
    memory_stations = t.memory_stations;
    memory_transactions = t.memory_transactions;
    next_fallback_transaction_id = t.next_fallback_transaction_id;
  }
  pub connectors :
      (k : Number)
      → get new.connectors k ≡ (
          if connector == k
          then some (record {
            status = status;
            error_code = "NoError";
            info = info_of (get old.connectors k);
            vendor_error_code = vendor_error_code_of (get old.connectors k);
            status_timestamp = since;
          })
          else get old.connectors k)
  pub transactions :
      (k : Number)
      → get new.transactions k ≡ (if nat n == k then transaction else get old.transactions k)
  pub station : new ≡ record old {
    connectors = new.connectors;
    transactions = new.transactions;
    status = new.status;
  }

module _ (r : Runtime) where
  open r use {Db}

  after_start-IsLeft :
      (identity : String) (p : StartTransactionPayload) (s : Service Db) (x : MemoryStationState)
      → let n = s.next_fallback_transaction_id in
        IsLeft s
          (start_stored r identity p x s).0
          identity
          x
          (started n p x)
          n
          p.connector_id
          ConnectorStatus.charging
          (of_text p.timestamp)
          (some (started_transaction n p))
          (some (record { station_identity = identity; db_transaction_id = none }))
  after_start-IsLeft identity p s x =
      let n = s.next_fallback_transaction_id in
      record {
        stations = λ k. get-set s.memory_stations identity k (started n p x);
        indices = λ k. get-set s.memory_transactions (nat n) k _;
        counter = refl;
        service = refl;
        connectors = started-connectors n p x;
        transactions = λ k. get-set x.transactions (nat n) k (started_transaction n p);
        station = refl;
      }

  after_stop-IsLeft :
      (identity : String) (p : StartTransactionPayload) (q : StopTransactionPayload)
      (s : Service Db) (x : MemoryStationState)
      → q.transaction_id ≡ nat s.next_fallback_transaction_id
      → let n = s.next_fallback_transaction_id in
        let u = after_start r identity p x s in
        let y = stopped q.transaction_id q (started_transaction n p) (started n p x) in
        IsLeft s
          (put_station identity y
            (record u { memory_transactions = delete u.memory_transactions q.transaction_id }))
          identity
          x
          y
          n
          p.connector_id
          ConnectorStatus.available
          (of_text q.timestamp)
          none
          none
  unfolding update_station_status_from_connectors
  after_stop-IsLeft identity p q s x same =
      let n = s.next_fallback_transaction_id in
      record {
        stations = λ k. set_twice s.memory_stations identity k (started n p x) _;
        indices = λ k. rw same (deleted-set s.memory_transactions (nat n) k _);
        counter = refl;
        service = refl;
        connectors = stopped-connectors n p q x;
        transactions =
            λ k. rw same (deleted-set x.transactions (nat n) k (started_transaction n p));
        station = refl;
      }

  -- Without a database, a start for a buffered station and then a stop of the number that the start gave
  -- both succeed. Behind the start the connector and the station are charging, and the number has the
  -- started transaction with the fields of the request; behind the stop the connector is available since
  -- the moment of the stop, the number is gone from the station and from the index, and the station's
  -- status is what connector 0 or else all its connectors say. The counter is one further, and nothing
  -- else has changed: other connectors, transactions, stations and numbers are as before.
  pub handle_stop_transaction-handle_start_transaction :
      (identity : String) (p : StartTransactionPayload) (q : StopTransactionPayload) (now now' : ℕ)
      (s : Service Db) (x : MemoryStationState)
      → use_fallback s ≡ true
      → get s.memory_stations identity ≡ some x
      → q.transaction_id ≡ nat s.next_fallback_transaction_id
      → let n = s.next_fallback_transaction_id in
        let (u, a) = handle_start_transaction r identity p now s in
        let (v, b) = handle_stop_transaction r q now' u in
        (y z : MemoryStationState) × (a ≡ ok (nat n))
        × IsLeft s u identity x y n p.connector_id ConnectorStatus.charging
            (of_text p.timestamp)
            (some (record {
              id = n;
              connector_id = p.connector_id;
              id_tag = p.id_tag;
              meter_start = p.meter_start;
              started_at = of_text p.timestamp;
              status = TransactionStatus.started;
              meter_stop = none;
              stopped_at = none;
              reason = none;
              reservation_id = p.reservation_id;
            }))
            (some (record { station_identity = identity; db_transaction_id = none }))
        × (y.status ≡ StationStatus.charging)
        × (b ≡ ok tt)
        × IsLeft s v identity x z n p.connector_id ConnectorStatus.available
            (of_text q.timestamp)
            none
            none
        × (z.status ≡ said_by (get z.connectors (nat 0)) (map (λ e. e.1.status) z.connectors))
  unfolding update_station_status_from_connectors
  handle_stop_transaction-handle_start_transaction identity p q now now' s x c e same =
      let n = s.next_fallback_transaction_id in
      let t = record (started n p x) {
        connectors = released p.connector_id (of_text q.timestamp) (started n p x).connectors;
        transactions = delete (started n p x).transactions q.transaction_id;
      } in
      rw
        (
          handle_start_transaction-fallback r identity p now s x c e,
          handle_stop_transaction-after_start r identity p q now' s x c same,
        )
        (
          started n p x,
          stopped q.transaction_id q (started_transaction n p) (started n p x),
          refl,
          after_start-IsLeft identity p s x,
          refl,
          refl,
          after_stop-IsLeft identity p q s x same,
          summed t refl,
        )
