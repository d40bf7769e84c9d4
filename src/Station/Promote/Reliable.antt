-- ===== src/Station/Promote/Reliable.antt =====
-- Promotion to a database of which no operation throws.
use voltron_ocpp_protocols.Common.{
  ◌≡◌, refl, ap, sym, ◌∙◌, ◌⊎◌, inl, inr, Bool, true, false, not, ◌||◌, String, ◌==◌, string_eq,
  Option, none, some, List, [], ◌∷◌, map, get, set, delete, arith, Bool-cases, Option-cases,
  ==_refl,
}
use voltron_ocpp_protocols.Json.{Number, number_eq}
use voltron_ocpp_protocols.Errors.{Result, ok, err}
use voltron_ocpp_protocols.Effect.Keeps.{>>=-ok}
use voltron_ocpp_protocols.Station.State.Rows.{
  StationData, StationRow, ConnectorData, ConnectorRow, TransactionData, TransactionRow,
}
use voltron_ocpp_protocols.Station.State.{
  Runtime, Service, M, MemoryStationState, MemoryConnectorState, MemoryTransactionState, query,
  use_fallback, modify, ◌>>=◌,
}
use voltron_ocpp_protocols.Station.Promote.{
  note_promoted, promote_connectors, promote_transactions, persist_station, transaction,
  promote_memory_station, promote_each, promote_all_memory_stations,
}
use voltron_ocpp_protocols.Station.Conversions.{station_data, connector_data, transaction_data}
use voltron_ocpp_protocols.Station.Promote.Outcome.{Promoted, promote_memory_station-Promoted}
use voltron_ocpp_protocols.Station.Promote.All.{Promoted-Settled, promote_each-Settled}

module _ (r : Runtime) where
  open r use {Db, upsert_station, upsert_connector, create_transaction, settle}

  -- A method that never throws.
  record Returns {A : Type 0} (m : M Db A) : Type 0 where
    returns : (s : Service Db) → (t : Service Db) × (a : A) × (m s ≡ (t, ok a))

  bind-Returns :
      {A B : Type 0} (m : M Db A) (f : A → M Db B)
      → Returns m
      → ((a : A) → Returns (f a))
      → Returns (m >>= f)
  bind-Returns m f h k = record {
    returns = λ s.
        let (t, a, e) = h.returns s in let (u, b, d) = (k a).returns t in (u, b, >>=-ok m f e ∙ d);
  }

  -- No operation on the database throws.
  pub record IsReliable : Type 0 where
    pub stations :
        (identity : String) (id : Option String) (c u : StationData) (db : Db)
        → (row : StationRow) × ((upsert_station identity id c u db).1 ≡ ok row)
    pub connectors :
        (station : String) (k : Number) (c u : ConnectorData) (db : Db)
        → (row : ConnectorRow) × ((upsert_connector station k c u db).1 ≡ ok row)
    pub transactions :
        (t : TransactionData) (db : Db)
        → (row : TransactionRow) × ((create_transaction t db).1 ≡ ok row)
    pub settles : (before after : Db) → (settle before after).1 ≡ ok tt

  module _ (reliable : IsReliable) where
    query-Returns :
        {A : Type 0} (q : Db → Db × Result A)
        → ((db : Db) → (a : A) × ((q db).1 ≡ ok a))
        → Returns (query q)
    query-Returns q h = record {
      returns = λ s.
          let (a, e) = h s.db in
          (record s { db = (q s.db).0 }, a, ap (λ x. (record s { db = (q s.db).0 }, x)) e);
    }

    promote_connectors-Returns :
        (id : String) (cs : List (Number × MemoryConnectorState)) (ids : List (Number × Number))
        → Returns (promote_connectors r id cs ids)
    unfolding promote_connectors
    promote_connectors-Returns id [] ids = record { returns = λ s. (s, ids, refl) }
    promote_connectors-Returns id ((k, c) ∷ cs) ids =
        bind-Returns (query (upsert_connector id k (connector_data c) (connector_data c))) _
          (query-Returns _ (reliable.connectors id k (connector_data c) (connector_data c)))
          (λ row. promote_connectors-Returns id cs (set ids k row.id))

    promote_transactions-Returns :
        (identity id : String) (ids : List (Number × Number))
        (ts : List (Number × MemoryTransactionState))
        → Returns (promote_transactions r identity id ids ts)
    unfolding promote_transactions
    promote_transactions-Returns identity id ids [] = record { returns = λ s. (s, tt, refl) }
    promote_transactions-Returns identity id ids ((_, t) ∷ ts) =
        bind-Returns (query (create_transaction (transaction_data id (get ids t.connector_id) t))) _
          (query-Returns _ (reliable.transactions (transaction_data id (get ids t.connector_id) t)))
          (λ created.
            bind-Returns (modify (note_promoted r identity t created.id)) _
              (record { returns = λ s. (_, tt, refl) })
              (λ _. promote_transactions-Returns identity id ids ts))

    persist_station-Returns : (station : MemoryStationState) → Returns (persist_station r station)
    unfolding persist_station
    persist_station-Returns station =
        bind-Returns
          (query (
            upsert_station station.identity (some station.id) (station_data station)
              (station_data station)))
          _
          (query-Returns _ (
            reliable.stations station.identity (some station.id) (station_data station)
              (station_data station)))
          (λ row.
            bind-Returns (promote_connectors r row.id station.connectors []) _
              (promote_connectors-Returns row.id station.connectors [])
              (λ ids.
                promote_transactions-Returns station.identity row.id ids station.transactions))

    transaction_lem :
        (m : M Db (Unit {0})) (s : Service Db) → Returns m → (transaction r m s).1 ≡ ok tt
    unfolding transaction
    transaction_lem m s h =
        let (t, a, e) = h.returns s in
        ap (λ p. (transaction r (λ _. p) s).1) e ∙ reliable.settles s.db t.db

    promote_memory_station-ok :
        (identity : String) (s : Service Db)
        → s.connected ≡ true
        → (promote_memory_station r identity s).1 ≡ ok tt
    unfolding promote_memory_station
    promote_memory_station-ok identity s up =
        let connected : use_fallback s ≡ false = ap not up in
        elim (Option-cases (get s.memory_stations identity)) [
          | inl e ↦ rw (connected, promote_memory_station, e) refl
          | inr (station, e) ↦
              rw (connected, promote_memory_station, e)
                (ap
                  (λ x.
                    (◌>>=◌ (λ _. ((transaction r (persist_station r station) s).0, x))
                      (λ _.
                        modify
                          (λ u. record u { memory_stations = delete u.memory_stations identity }))
                      s).1)
                  (transaction_lem (persist_station r station) s (persist_station-Returns station)))
        ]

    Promoted-gone :
        (identity : String) (s : Service Db) (t : Service Db × Result (Unit {0}))
        → Promoted r identity s t
        → t.1 ≡ ok tt
        → get t.0.memory_stations identity ≡ none
    Promoted-gone identity s (t, ok _) (c, h) e = h identity ∙ rw (==_refl identity) refl
    Promoted-gone identity s (t, err x) h e = cc

    listed : String → List String → Bool
    listed i [] = false
    listed i (x ∷ xs) = x == i || listed i xs

    promote_each-gone :
        (ids : List String) (s : Service Db) (i : String)
        → s.connected ≡ true
        → listed i ids ≡ true
        → get (promote_each r ids s).memory_stations i ≡ none
    unfolding promote_each listed
    promote_each-gone [] s i up h = cc
    promote_each-gone (identity ∷ ids) s i up h =
        let p = promote_memory_station-Promoted r identity s up in
        let t = (promote_memory_station r identity s).0 in
        let still =
          (Promoted-Settled r identity s (promote_memory_station r identity s) p).0 ∙ up in
        elim (Bool-cases (identity == i)) [
          | inl same ↦
              let i_is : identity ≡ i = (string_eq.same_iff identity i).0 same in
              let gone =
                ap (get t.memory_stations) (sym i_is)
                ∙ Promoted-gone identity s (promote_memory_station r identity s) p
                    (promote_memory_station-ok identity s up) in
              elim ((promote_each-Settled r ids t still).1 i) [ inl e ↦ e | inr k ↦ k ∙ gone ]
          | inr other ↦ promote_each-gone ids t i still (ground arith)
        ]

    listed_keys :
        (m : List (String × MemoryStationState)) (i : String)
        → (listed i (map (λ e. e.0) m) ≡ true) ⊎ (get m i ≡ none)
    unfolding listed
    listed_keys [] i = inr refl
    listed_keys ((k, v) ∷ m) i = elim (Bool-cases (k == i)) [
      | inl same ↦ inl (ground arith)
      | inr other ↦ elim (listed_keys m i) [ inl e ↦ inl (ground arith) | inr e ↦ inr (rw other e) ]
    ]

  -- With a connected database of which no operation throws, promoting all buffered stations leaves no
  -- station buffered.
  pub promote_all_memory_stations-gone :
      (s : Service Db)
      → s.connected ≡ true
      → IsReliable
      → (i : String) → get (promote_all_memory_stations r s).memory_stations i ≡ none
  unfolding promote_all_memory_stations
  promote_all_memory_stations-gone s up reliable i =
      let keys = map (λ e. e.0) s.memory_stations in
      elim (listed_keys reliable s.memory_stations i) [
        | inl e ↦ promote_each-gone reliable keys s i up e
        | inr e ↦ elim ((promote_each-Settled r keys s up).1 i) [ inl k ↦ k | inr k ↦ k ∙ e ]
      ]
