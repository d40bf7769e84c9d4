-- ===== src/Station/Transactions/Stale.antt =====
-- A stop of a buffered transaction while the database is connected (`handleStopTransaction`).
use voltron_ocpp_protocols.Common.{
  ℕ, suc, Bool, true, false, ◌||◌, not, String, ◌≡◌, refl, ap, ◌∙◌, if◌then◌else◌, ==_refl, none,
  some, get, string_eq, arith,
}
use mathlib.Core.Path.{subst}
use voltron_ocpp_protocols.Json.{number_eq}
use voltron_ocpp_protocols.Errors.{ok, err}
use voltron_ocpp_protocols.Effect.Keeps.{>>=-ok}
use voltron_ocpp_protocols.Schemas.Payloads.{StopTransactionPayload}
use voltron_ocpp_protocols.Station.State.{
  Runtime, Service, MemoryTransactionIndex, pure, use_fallback, put_station,
}
use voltron_ocpp_protocols.Station.Promote.{get_or_create_memory_station, promote_memory_station}
use voltron_ocpp_protocols.Station.Conversions.{blank_station}
use voltron_ocpp_protocols.Station.Promote.Outcome.{Promoted, promote_memory_station-Promoted}
use voltron_ocpp_protocols.Station.Transactions.{
  promote_buffered, stop_stored, stop_mapped, stop_in_memory, stop_in_database,
  handle_stop_transaction,
}
use voltron_ocpp_protocols.Station.Ledger.{not_found}

module _ (r : Runtime) where
  open r use {Db, random_uuid}

  -- The service behind a stop that found no buffered station: a blank one is buffered.
  abbrev pub with_blank_station : String → ℕ → Service Db → Service Db
  with_blank_station identity now t =
      put_station identity (blank_station (random_uuid t.uuids) identity now)
        (record t { uuids = suc t.uuids })

  -- The index of a buffered transaction.
  abbrev pub buffered : String → MemoryTransactionIndex
  buffered identity = record { station_identity = identity; db_transaction_id = none }

  created :
      (identity : String) (now : ℕ) (t : Service Db)
      → get t.memory_stations identity ≡ none
      → get_or_create_memory_station r identity now t
        ≡ (with_blank_station identity now t, ok (blank_station (random_uuid t.uuids) identity now))
  unfolding get_or_create_memory_station
  created identity now t e = rw (get_or_create_memory_station, e) refl

  stop_in_memory-missing :
      (identity : String) (payload : StopTransactionPayload) (now : ℕ) (t : Service Db)
      → get t.memory_stations identity ≡ none
      → stop_in_memory r (some (buffered identity)) payload now t
        ≡ (with_blank_station identity now t, not_found err payload.transaction_id)
  unfolding stop_in_memory
  stop_in_memory-missing identity payload now t e =
      >>=-ok (get_or_create_memory_station r identity now)
        (stop_stored r (buffered identity) payload) (created identity now t e)

  dropped :
      (identity : String) (s t : Service Db) (a : Unit {0})
      → Promoted r identity s (t, ok a)
      → get t.memory_stations identity ≡ none
  dropped identity s t a h = h.1 identity ∙ ground (arith, ==_refl identity)

  stop_mapped-missing :
      (identity : String) (payload : StopTransactionPayload) (now : ℕ) (t : Service Db)
      → use_fallback t ≡ false
      → get t.memory_stations identity ≡ none
      → stop_mapped r (some (buffered identity)) payload now t
        ≡ (with_blank_station identity now t, not_found err payload.transaction_id)
  stop_mapped-missing identity payload now t up e =
      ap {A = Bool}
        (λ b.
          (if b || true
              then stop_in_memory r (some (buffered identity)) payload now
              else stop_in_database r (some (buffered identity)) payload)
            t)
        up
      ∙ stop_in_memory-missing identity payload now t e

  promote_buffered-connected :
      (identity : String) (s : Service Db)
      → use_fallback s ≡ false
      → promote_buffered r (some (buffered identity)) s ≡ promote_memory_station r identity s
  promote_buffered-connected identity s c =
      ap {A = Bool} (λ b. (if b then pure tt else promote_memory_station r identity) s) c

  -- A stop of a transaction that is still buffered, while the database is connected: if the promotion of
  -- its station succeeds, the transaction is reported missing, although it is in the database now, and
  -- a blank station is buffered under the identity that was just promoted.
  pub handle_stop_transaction-stale :
      (identity : String) (payload : StopTransactionPayload) (now : ℕ) (s t : Service Db)
      → s.connected ≡ true
      → get s.memory_transactions payload.transaction_id ≡ some (buffered identity)
      → promote_memory_station r identity s ≡ (t, ok tt)
      → handle_stop_transaction r payload now s
        ≡ (with_blank_station identity now t, not_found err payload.transaction_id)
  unfolding handle_stop_transaction
  handle_stop_transaction-stale identity payload now s t up mapped promoted =
      let c : use_fallback s ≡ false = ap not up in
      let p : Promoted r identity s (t, ok tt) =
        subst (Promoted r identity s) promoted (promote_memory_station-Promoted r identity s up) in
      rw (handle_stop_transaction, mapped)
        (>>=-ok (promote_buffered r (some (buffered identity)))
            (λ _. stop_mapped r (some (buffered identity)) payload now)
            (promote_buffered-connected identity s c ∙ promoted)
          ∙ stop_mapped-missing identity payload now t (ap not (p.0 ∙ up))
              (dropped identity s t tt p))
