-- ===== src/Station/Promote/Outcome.antt =====
-- What a promotion leaves behind.
use voltron_ocpp_protocols.Common.{
  true, false, not, String, ◌≡◌, refl, ap, ◌∙◌, if◌then◌else◌, ◌==◌, none, List, [], ◌∷◌, get, set,
  delete, string_eq, get-delete, Option-cases, inl, inr, arith, eq_iff,
}
use voltron_ocpp_protocols.Json.{Number, number_eq}
use voltron_ocpp_protocols.Errors.{Result, ok, err}
use voltron_ocpp_protocols.Effect.Keeps.{Result-cases, IsPreorder, Keeps, Keeps-pure, Keeps-bind}
use voltron_ocpp_protocols.Station.State.{
  Query, Runtime, Service, MemoryStationState, MemoryConnectorState, MemoryTransactionState, M,
  ◌>>=◌, modify, query, use_fallback,
}
use voltron_ocpp_protocols.Station.Promote.{
  promote_connectors, promote_transactions, persist_station, note_promoted, transaction,
  promote_memory_station,
}
use voltron_ocpp_protocols.Station.Conversions.{connector_data, transaction_data}

-- The same buffered stations, and the same connection.
pub record Same {Db : Type 0} (s t : Service Db) : Type 0 where
  pub stations : t.memory_stations ≡ s.memory_stations
  pub connection : t.connected ≡ s.connected

Same-IsPreorder : {Db : Type 0} → IsPreorder (Same {Db = Db})
Same-IsPreorder = record {
  stays = λ s. record { stations = refl; connection = refl };
  chains = λ s t u h k. record {
    stations = k.stations ∙ h.stations;
    connection = k.connection ∙ h.connection;
  };
}

module _ (r : Runtime) where
  open r use {Db, upsert_station, upsert_connector, create_transaction, settle, rollback}

  query-Same : {A : Type 0} (q : Query Db A) → Keeps Same (query q)
  query-Same q = record { holds = λ s. record { stations = refl; connection = refl } }

  promote_connectors-Same :
      (id : String) (cs : List (Number × MemoryConnectorState)) (ids : List (Number × Number))
      → Keeps Same (promote_connectors r id cs ids)
  unfolding promote_connectors
  promote_connectors-Same id [] ids = Keeps-pure Same-IsPreorder ids
  promote_connectors-Same id ((k, c) ∷ cs) ids =
      Keeps-bind Same-IsPreorder
        (query (upsert_connector id k (connector_data c) (connector_data c))) _ (query-Same _)
        (λ row. promote_connectors-Same id cs (set ids k row.id))

  promote_transactions-Same :
      (identity id : String) (ids : List (Number × Number))
      (ts : List (Number × MemoryTransactionState))
      → Keeps Same (promote_transactions r identity id ids ts)
  unfolding promote_transactions
  promote_transactions-Same identity id ids [] = Keeps-pure Same-IsPreorder tt
  promote_transactions-Same identity id ids ((_, t) ∷ ts) =
      Keeps-bind Same-IsPreorder
        (query (create_transaction (transaction_data id (get ids t.connector_id) t))) _
        (query-Same _)
        (λ created.
          Keeps-bind Same-IsPreorder (modify (note_promoted r identity t created.id)) _
            (record { holds = λ s. record { stations = refl; connection = refl } })
            (λ _. promote_transactions-Same identity id ids ts))

  persist_station-Same : (station : MemoryStationState) → Keeps Same (persist_station r station)
  unfolding persist_station
  persist_station-Same station = Keeps-bind Same-IsPreorder (query _) _ (query-Same _) (λ row.
      Keeps-bind Same-IsPreorder (promote_connectors r row.id station.connectors []) _
        (promote_connectors-Same row.id station.connectors [])
        (λ ids. promote_transactions-Same station.identity row.id ids station.transactions))

  transaction-Same : (m : M Db (Unit {0})) → Keeps Same m → Keeps Same (transaction r m)
  unfolding transaction
  transaction-Same m h = record {
    holds = λ s. elim (Result-cases (m s).1) [
      | inl (a, e) ↦
          rw (e, transaction)
            (record { stations = (h.holds s).stations; connection = (h.holds s).connection })
      | inr (x, e) ↦
          rw (e, transaction)
            (record { stations = (h.holds s).stations; connection = (h.holds s).connection })
    ];
  }

  -- The buffered stations behind a promotion that ended with a result.
  abbrev pub Promoted : String → Service Db → Service Db × Result (Unit {0}) → Type 0
  Promoted identity s (t, ok _) =
      (t.connected ≡ s.connected)
      × ((i : String)
          → get t.memory_stations i ≡ (if identity == i then none else get s.memory_stations i))
  Promoted identity s (t, err e) =
      (t.connected ≡ s.connected) × (t.memory_stations ≡ s.memory_stations)

  forget_step :
      (identity : String) (s t : Service Db) (x : Result (Unit {0}))
      → Same s t
      → Promoted identity s (
          ◌>>=◌
            (λ _. (t, x))
            (λ _. modify (λ u. record u { memory_stations = delete u.memory_stations identity }))
            s)
  forget_step identity s t (ok a) h =
      (h.connection, λ i. rw h.stations (get-delete s.memory_stations identity i))
  forget_step identity s t (err e) h = (h.connection, h.stations)

  unbuffered :
      (identity : String) (s : Service Db)
      → get s.memory_stations identity ≡ none
      → Promoted identity s (s, ok tt)
  unbuffered identity s e = (refl, λ i. ground (arith, eq_iff identity i))

  -- A promotion with a connected database drops the buffered station of its identity if it succeeds, and
  -- no station if it throws; every other identity keeps its buffered station either way.
  pub promote_memory_station-Promoted :
      (identity : String) (s : Service Db)
      → s.connected ≡ true
      → Promoted identity s (promote_memory_station r identity s)
  unfolding promote_memory_station
  promote_memory_station-Promoted identity s up =
      let connected : use_fallback s ≡ false = ap not up in
      elim (Option-cases (get s.memory_stations identity)) [
        | inl e ↦ rw (connected, promote_memory_station, e) (unbuffered identity s e)
        | inr (station, e) ↦
            rw (connected, promote_memory_station, e)
              (forget_step identity s (transaction r (persist_station r station) s).0
                (transaction r (persist_station r station) s).1
                ((transaction-Same (persist_station r station) (persist_station-Same station)).holds
                  s))
      ]
