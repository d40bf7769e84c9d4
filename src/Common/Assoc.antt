-- ===== src/Common/Assoc.antt =====
-- A JavaScript `Map` as an association list in insertion order, without repeated keys.
use mathlib.Core.Path.{◌≡◌, refl}
use mathlib.Core.Option.{Option, none, some}
use mathlib.Core.List.{List, [], ◌∷◌}
use native.Mathlib.Omega.{arith}
use voltron_ocpp_protocols.Common.Tests.{Eq, ◌==◌, ==_refl, if◌then◌else◌}

module _ {ℓ κ} {K : Type ℓ} {V : Type κ} ⦃e : Eq K⦄ where
  -- `map.get(key)`
  abbrev pub get : List (K × V) → K → Option V
  get [] k = none
  get ((j, v) ∷ m) k = if j == k then some v else get m k

  -- `map.set(key, value)`: an old key keeps its place, a new one goes to the end.
  abbrev pub set : List (K × V) → K → V → List (K × V)
  set [] k v = (k, v) ∷ []
  set ((j, w) ∷ m) k v = if j == k then (k, v) ∷ m else (j, w) ∷ set m k v

  -- `map.delete(key)`
  abbrev pub delete : List (K × V) → K → List (K × V)
  delete [] k = []
  delete ((j, w) ∷ m) k = if j == k then delete m k else (j, w) ∷ delete m k

  pub get-set :
      (m : List (K × V)) (k j : K) (v : V)
      → get (set m k v) j ≡ (if k == j then some v else get m j)
  get-set [] k j v = refl
  get-set ((i, w) ∷ m) k j v =
      ground (arith, e.same_iff i k, e.same_iff i j, e.same_iff k j, get-set m k j v)

  pub get-delete :
      (m : List (K × V)) (k j : K) → get (delete m k) j ≡ (if k == j then none else get m j)
  get-delete [] k j = ground arith
  get-delete ((i, w) ∷ m) k j =
      ground (arith, e.same_iff i k, e.same_iff i j, e.same_iff k j, get-delete m k j)

  pub get-set_self : (m : List (K × V)) (k : K) (v : V) → get (set m k v) k ≡ some v
  get-set_self m k v = rw (get-set m k k v, ==_refl k)

  pub get-delete_self : (m : List (K × V)) (k : K) → get (delete m k) k ≡ none
  get-delete_self m k = rw (get-delete m k k, ==_refl k)
