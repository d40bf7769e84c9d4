-- ===== src/Errors.antt =====
-- What a handler throws (src/modules/ocpp/ocpp.errors.ts, and the `new Error(…)` of ocpp.service.ts), and
-- results that may be such an error. No code of the program gives an `OcppCallError` any details, so
-- they are always `{}` and are left out here.
use voltron_ocpp_protocols.Common.{◌≡◌, refl, String}

pub data Thrown : Type 0 where
  -- `new OcppCallError(code, message)`
  call_error : String → String → Thrown
  -- `new Error(message)`, and any other `Error`
  error : String → Thrown
  -- a thrown value that is no `Error`
  unknown : Thrown

pub data Result {ℓ} (A : Type ℓ) : Type ℓ where
  ok : A → Result A
  err : Thrown → Result A

infixl 5 ◌>>=◌
abbrev pub ◌>>=◌ {ℓ κ} : {A : Type ℓ} {B : Type κ} → Result A → (A → Result B) → Result B
ok a >>= k = k a
err e >>= k = err e

pub >>=-eq-ok {ℓ κ} :
    {A : Type ℓ} {B : Type κ} (m : Result A) (k : A → Result B) {b : B}
    → (m >>= k) ≡ ok b
    → (a : A) × (m ≡ ok a) × (k a ≡ ok b)
>>=-eq-ok (ok a) k h = (a, refl, h)
>>=-eq-ok (err e) k h = cc

pub ok_inj {ℓ} : {A : Type ℓ} {a b : A} → ok a ≡ ok b → a ≡ b
ok_inj e = cc
