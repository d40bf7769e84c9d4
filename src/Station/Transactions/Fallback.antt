-- ===== src/Station/Transactions/Fallback.antt =====
-- `handleStartTransaction` and `handleStopTransaction` while there is no database.
use voltron_ocpp_protocols.Common.{
  ℕ, true, ◌||◌, String, ◌≡◌, refl, ap, ◌∙◌, if◌then◌else◌, Option, none, some, get, delete,
  get-set_self, string_eq, inl, inr, Option-cases,
}
use voltron_ocpp_protocols.Json.{nat, number_eq}
use voltron_ocpp_protocols.Errors.{ok}
use voltron_ocpp_protocols.Effect.Keeps.{>>=-ok}
use voltron_ocpp_protocols.Schemas.Payloads.{StartTransactionPayload, StopTransactionPayload}
use voltron_ocpp_protocols.Station.State.{
  Runtime, Service, MemoryStationState, MemoryTransactionState, MemoryTransactionIndex, pure,
  use_fallback, put_station,
}
use voltron_ocpp_protocols.Station.Promote.{
  get_or_create_memory_station, promote_if_connected, promote_memory_station,
}
use voltron_ocpp_protocols.Station.Transactions.{
  start_stored, start_in_memory, start_in_database, stop_stored, stop_in_memory, stop_in_database,
  promote_buffered, stop_mapped, handle_start_transaction, handle_stop_transaction,
}
use voltron_ocpp_protocols.Station.Ledger.{started, started_transaction, stopped, is_buffered}

module _ (r : Runtime) where
  open r use {Db}

  found :
      (identity : String) (now : ℕ) (s : Service Db) (station : MemoryStationState)
      → get s.memory_stations identity ≡ some station
      → get_or_create_memory_station r identity now s ≡ (s, ok station)
  unfolding get_or_create_memory_station
  found identity now s station e = rw (get_or_create_memory_station, e) refl

  promote_if_connected-fallback :
      (identity : String) (s : Service Db)
      → use_fallback s ≡ true
      → promote_if_connected r identity s ≡ (s, ok tt)
  promote_if_connected-fallback identity s c =
      ap (λ b. (if b then pure tt else promote_memory_station r identity) s) c

  -- A start for a buffered station, while there is no database, is what `start_stored` does to it.
  pub handle_start_transaction-fallback :
      (identity : String) (payload : StartTransactionPayload) (now : ℕ) (s : Service Db)
      (station : MemoryStationState)
      → use_fallback s ≡ true
      → get s.memory_stations identity ≡ some station
      → handle_start_transaction r identity payload now s
        ≡ start_stored r identity payload station s
  unfolding handle_start_transaction start_in_memory
  handle_start_transaction-fallback identity payload now s station c e =
      >>=-ok (promote_if_connected r identity)
        (λ _ s'.
          (if use_fallback s'
              then start_in_memory r identity payload now
              else start_in_database r identity payload now)
            s')
        (promote_if_connected-fallback identity s c)
      ∙ ap
          (λ b.
            (if b
                then start_in_memory r identity payload now
                else start_in_database r identity payload now)
              s)
          c
      ∙ >>=-ok (get_or_create_memory_station r identity now) (start_stored r identity payload)
          (found identity now s station e)

  promote_buffered-fallback :
      (mapping : Option MemoryTransactionIndex) (s : Service Db)
      → use_fallback s ≡ true
      → promote_buffered r mapping s ≡ (s, ok tt)
  promote_buffered-fallback none s c = refl
  promote_buffered-fallback (some m) s c = elim (Option-cases m.db_transaction_id) [
    | inl e ↦ rw e (promote_if_connected-fallback m.station_identity s c)
    | inr (d, e) ↦ rw e refl
  ]

  -- A stop of a known transaction of a buffered station, while there is no database, is what
  -- `stop_stored` does to it.
  pub handle_stop_transaction-fallback :
      (payload : StopTransactionPayload) (now : ℕ) (s : Service Db) (m : MemoryTransactionIndex)
      (station : MemoryStationState)
      → use_fallback s ≡ true
      → get s.memory_transactions payload.transaction_id ≡ some m
      → get s.memory_stations m.station_identity ≡ some station
      → handle_stop_transaction r payload now s ≡ stop_stored r m payload station s
  unfolding handle_stop_transaction stop_in_memory
  handle_stop_transaction-fallback payload now s m station c mapped e =
      rw (handle_stop_transaction, mapped)
        (>>=-ok (promote_buffered r (some m)) (λ _. stop_mapped r (some m) payload now)
            (promote_buffered-fallback (some m) s c)
          ∙ ap
              (λ b.
                (if b || is_buffered (some m)
                    then stop_in_memory r (some m) payload now
                    else stop_in_database r (some m) payload)
                  s)
              c
          ∙ >>=-ok (get_or_create_memory_station r m.station_identity now) (stop_stored r m payload)
              (found m.station_identity now s station e))

  stop_stored-found :
      (m : MemoryTransactionIndex) (payload : StopTransactionPayload) (x : MemoryStationState)
      (t : MemoryTransactionState) (s : Service Db)
      → get x.transactions payload.transaction_id ≡ some t
      → stop_stored r m payload x s ≡ (
        put_station m.station_identity (stopped payload.transaction_id payload t x) (record s {
          memory_transactions = delete s.memory_transactions payload.transaction_id;
        }),
        ok tt,
      )
  stop_stored-found m payload x t s e = rw (stop_stored, e) refl

  -- The service behind a start of a buffered station.
  abbrev pub after_start :
      String → StartTransactionPayload → MemoryStationState → Service Db → Service Db
  after_start identity payload station s = (start_stored r identity payload station s).0

  -- A stop, behind the start, of the number that the start gave.
  pub handle_stop_transaction-after_start :
      (identity : String) (p : StartTransactionPayload) (q : StopTransactionPayload) (now' : ℕ)
      (s : Service Db) (station : MemoryStationState)
      → use_fallback s ≡ true
      → q.transaction_id ≡ nat s.next_fallback_transaction_id
      → handle_stop_transaction r q now' (after_start identity p station s) ≡ (
        put_station identity
            (stopped q.transaction_id q
              (started_transaction s.next_fallback_transaction_id p)
              (started s.next_fallback_transaction_id p station))
            (record (after_start identity p station s) {
              memory_transactions =
                  delete (after_start identity p station s).memory_transactions q.transaction_id;
            }),
        ok tt,
      )
  handle_stop_transaction-after_start identity p q now' s station c same =
      let n = s.next_fallback_transaction_id in
      let u = after_start identity p station s in
      let m : MemoryTransactionIndex = record {
        station_identity = identity;
        db_transaction_id = none;
      } in
      handle_stop_transaction-fallback q now' u m (started n p station) c
        (ap (get u.memory_transactions) same ∙ get-set_self s.memory_transactions (nat n) m)
        (get-set_self s.memory_stations identity (started n p station))
      ∙ stop_stored-found m q (started n p station) (started_transaction n p) u (
          ap (get (started n p station).transactions) same
          ∙ get-set_self station.transactions (nat n) (started_transaction n p))
