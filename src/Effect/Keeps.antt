-- ===== src/Effect/Keeps.antt =====
-- Relations between the states before and after a method, which hold of a chain of methods if they hold
-- of each, whether the chain ends or throws.
use mathlib.Core.Logic.{◌⊎◌, inl, inr}
use mathlib.Core.Path.{◌≡◌, refl, ap}
use voltron_ocpp_protocols.Errors.{Result, ok, err, Thrown}
use voltron_ocpp_protocols.Effect.{Effect, pure, ◌>>=◌, read, lift}

-- To split on a result and keep the equation.
pub Result-cases :
    {A : Type 0} (r : Result A) → ((a : A) × (r ≡ ok a)) ⊎ ((e : Thrown) × (r ≡ err e))
Result-cases (ok a) = inl (a, refl)
Result-cases (err e) = inr (e, refl)

-- A chain goes on with the value and the state of its first method.
pub >>=-ok :
    {S A B : Type 0} (m : Effect S A) (f : A → Effect S B) {s t : S} {a : A}
    → m s ≡ (t, ok a)
    → (m >>= f) s ≡ f a t
>>=-ok m f e = ap (λ p. ◌>>=◌ (λ _. p) f p.0) e

pub record IsPreorder {S : Type 0} (R : S → S → Type 0) : Type 0 where
  pub stays : (s : S) → R s s
  pub chains : (s t u : S) → R s t → R t u → R s u

-- `m` leads from every state to one that is related to it.
pub record Keeps {S A : Type 0} (R : S → S → Type 0) (m : Effect S A) : Type 0 where
  pub holds : (s : S) → R s (m s).0

module _ {S : Type 0} {R : S → S → Type 0} (o : IsPreorder R) where
  pub Keeps-pure : {A : Type 0} (a : A) → Keeps R (pure a)
  Keeps-pure a = record { holds = o.stays }

  pub Keeps-lift : {A : Type 0} (a : Result A) → Keeps R (lift a)
  Keeps-lift a = record { holds = o.stays }

  pub Keeps-read : Keeps R read
  Keeps-read = record { holds = o.stays }

  bind_step :
      {A B : Type 0} (s t : S) (x : Result A) (f : A → Effect S B)
      → R s t
      → ((a : A) → Keeps R (f a))
      → R s (◌>>=◌ (λ _. (t, x)) f s).0
  bind_step s t (ok a) f h k = o.chains s t (f a t).0 h ((k a).holds t)
  bind_step s t (err e) f h k = h

  pub Keeps-bind :
      {A B : Type 0} (m : Effect S A) (f : A → Effect S B)
      → Keeps R m
      → ((a : A) → Keeps R (f a))
      → Keeps R (m >>= f)
  Keeps-bind m f h k = record { holds = λ s. bind_step s (m s).0 (m s).1 f (h.holds s) k }
