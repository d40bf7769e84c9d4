-- ===== src/Effect.antt =====
-- Methods that change a state and return a value or throw. What a method changed before it threw stays
-- changed, as in JavaScript. `await` is left out: a method runs to its end before another one begins.
pub mod Keeps
use voltron_ocpp_protocols.Errors.{Result, ok, err, Thrown}

abbrev pub Effect : Type 0 → Type 0 → Type 0
Effect S A = S → S × Result A

module _ {S : Type 0} where
  abbrev pub pure : {A : Type 0} → A → Effect S A
  pure a s = (s, ok a)

  abbrev pub throw : {A : Type 0} → Thrown → Effect S A
  throw e s = (s, err e)

  infixl 5 ◌>>=◌ ◌>>◌
  abbrev pub ◌>>=◌ : {A B : Type 0} → Effect S A → (A → Effect S B) → Effect S B
  ◌>>=◌ m f s = elim (m s).1 [ ok a ↦ f a (m s).0 | err e ↦ ((m s).0, err e) ]

  abbrev pub ◌>>◌ : {B : Type 0} → Effect S (Unit {0}) → Effect S B → Effect S B
  m >> k = m >>= λ _. k

  abbrev pub read : Effect S S
  read s = (s, ok s)

  abbrev pub modify : (S → S) → Effect S (Unit {0})
  modify f s = (f s, ok tt)

  abbrev pub lift : {A : Type 0} → Result A → Effect S A
  lift r s = (s, r)
