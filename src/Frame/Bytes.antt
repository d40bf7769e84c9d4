-- ===== src/Frame/Bytes.antt =====
-- Splitting and reading bytes: the laws that the frames' proofs share.
use voltron_ocpp_protocols.Common.{
  ℕ, zero, suc, ◌+◌, ◌*◌, ◌/◌, ◌%◌, ◌^◌, ◌<◌, ◌≡◌, refl, ap, List, [], ◌∷◌, ◌++◌, some,
  Option-cases, inl, inr, length, length-append, arith,
}
use native.Mathlib.Nat.{pow-suc}
use voltron_ocpp_protocols.Frame.{unmask_from, split_at, read_be, write_be}

pub split_at-append :
    (n : ℕ) (xs ys : List ℕ) {a b : List ℕ}
    → split_at n xs ≡ some (a, b)
    → split_at n (xs ++ ys) ≡ some (a, b ++ ys)
unfolding split_at
split_at-append zero xs ys h = ground arith
split_at-append (suc n) [] ys h = cc
split_at-append (suc n) (x ∷ xs) ys h = elim (Option-cases (split_at n xs)) [
  | inl e ↦ cc
  | inr ((c, d), e) ↦ ground (arith, split_at-append n xs ys {a = c} {b = d} e)
]

pub split_at-length : (xs ys : List ℕ) → split_at (length xs) (xs ++ ys) ≡ some (xs, ys)
unfolding split_at
split_at-length [] ys = refl
split_at-length (x ∷ xs) ys = rw (split_at-length xs ys)

-- What is split off comes back by `++`, and has the length asked for.
pub split_at-some :
    (n : ℕ) (xs : List ℕ) {a b : List ℕ}
    → split_at n xs ≡ some (a, b)
    → (xs ≡ a ++ b) × (length a ≡ n)
unfolding split_at
split_at-some zero xs h = ground arith
split_at-some (suc n) [] h = cc
split_at-some (suc n) (x ∷ xs) h = elim (Option-cases (split_at n xs)) [
  | inl e ↦ cc
  | inr ((c, d), e) ↦ ground (arith, split_at-some n xs {a = c} {b = d} e)
]

pub read_be-append :
    (acc : ℕ) (xs ys : List ℕ) → read_be acc (xs ++ ys) ≡ read_be (read_be acc xs) ys
unfolding read_be
read_be-append acc [] ys = refl
read_be-append acc (x ∷ xs) ys = read_be-append (acc * 256 + x) xs ys

pub length-write_be : (k n : ℕ) → length (write_be k n) ≡ k
unfolding write_be
length-write_be zero n = refl
length-write_be (suc k) n =
    omega (arith, length-write_be k (n / 256), length-append (write_be k (n / 256)) (n % 256 ∷ []))

pub read_be-write_be : (k n : ℕ) → n < 256 ^ k → read_be 0 (write_be k n) ≡ n
unfolding read_be write_be
read_be-write_be zero n h = omega arith
read_be-write_be (suc k) n h =
    rw (read_be-append 0 (write_be k (n / 256)) (n % 256 ∷ []))
      (omega (arith, read_be-write_be k (n / 256) (omega (arith, pow-suc 256 k))))

pub length-unmask_from : (i : ℕ) (mask xs : List ℕ) → length (unmask_from i mask xs) ≡ length xs
unfolding unmask_from
length-unmask_from i mask [] = refl
length-unmask_from i mask (x ∷ xs) = ap suc (length-unmask_from (i + 1) mask xs)
