-- ===== src/Station/Promote/All.antt =====
-- What `promoteAllMemoryStations` leaves.
use voltron_ocpp_protocols.Common.{
  ◌≡◌, refl, ap, ◌∙◌, ◌⊎◌, inl, inr, true, String, ◌==◌, string_eq, Option, none, List, [], ◌∷◌,
  map, get, Bool-cases,
}
use voltron_ocpp_protocols.Json.{number_eq}
use voltron_ocpp_protocols.Errors.{Result, ok, err}
use voltron_ocpp_protocols.Station.State.{Runtime, Service, MemoryStationState}
use voltron_ocpp_protocols.Station.Promote.{
  promote_memory_station, promote_each, promote_all_memory_stations,
}
use voltron_ocpp_protocols.Station.Promote.Outcome.{Promoted, promote_memory_station-Promoted}

gone_or_kept :
    {x y z : Option MemoryStationState}
    → (y ≡ none) ⊎ (y ≡ x)
    → (z ≡ none) ⊎ (z ≡ y)
    → (z ≡ none) ⊎ (z ≡ x)
gone_or_kept h (inl e) = inl e
gone_or_kept (inl e) (inr k) = inl (k ∙ e)
gone_or_kept (inr e) (inr k) = inr (k ∙ e)

module _ (r : Runtime) where
  open r use {Db}

  -- A step of the loop drops the station of its identity or changes no station.
  abbrev pub Settled : Service Db → Service Db → Type 0
  Settled s t =
      (t.connected ≡ s.connected)
      × ((i : String)
          → (get t.memory_stations i ≡ none) ⊎ (get t.memory_stations i ≡ get s.memory_stations i))

  pub Promoted-Settled :
      (identity : String) (s : Service Db) (t : Service Db × Result (Unit {0}))
      → Promoted r identity s t
      → Settled s t.0
  Promoted-Settled identity s (t, ok _) (c, h) = (
    c,
    λ i. elim (Bool-cases (identity == i)) [
      | inl e ↦ inl (h i ∙ rw e refl)
      | inr e ↦ inr (h i ∙ rw e refl)
    ],
  )
  Promoted-Settled identity s (t, err e) (c, h) = (c, λ i. inr (ap (λ m. get m i) h))

  pub promote_each-Settled :
      (ids : List String) (s : Service Db) → s.connected ≡ true → Settled s (promote_each r ids s)
  unfolding promote_each
  promote_each-Settled [] s up = (refl, λ i. inr refl)
  promote_each-Settled (identity ∷ ids) s up =
      let t = (promote_memory_station r identity s).0 in
      let (c, first) =
        Promoted-Settled identity s (promote_memory_station r identity s)
          (promote_memory_station-Promoted r identity s up) in
      let (d, later) = promote_each-Settled ids t (c ∙ up) in
      (d ∙ c, λ i. gone_or_kept (first i) (later i))

  -- With a connected database, promoting all buffered stations leaves of each identity either nothing or
  -- the station that was buffered, whatever the database does, and adds none.
  pub promote_all_memory_stations-Settled :
      (s : Service Db)
      → s.connected ≡ true
      → ((promote_all_memory_stations r s).connected ≡ s.connected)
        × ((i : String)
            → (get (promote_all_memory_stations r s).memory_stations i ≡ none)
              ⊎ (get (promote_all_memory_stations r s).memory_stations i ≡ get s.memory_stations i))
  unfolding promote_all_memory_stations
  promote_all_memory_stations-Settled s up =
      promote_each-Settled (map (λ e. e.0) s.memory_stations) s up
