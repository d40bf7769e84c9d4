-- ===== src/Frame/Parts.antt =====
-- The parts that a successful `extract_frame` read, with the laws of each part.
use voltron_ocpp_protocols.Common.{
  ℕ, ◌/◌, ◌%◌, ◌≡◌, Bool, true, false, not, List, [], ◌∷◌, ◌++◌, Option, some, Option-cases, ◌>>=◌,
  >>=-eq-some, inl, inr, arith, ◌==◌, nat_eq, Bool-cases,
}
use voltron_ocpp_protocols.Frame.{
  Frame, split_at, payload_length, read_mask, unmask, extract_frame, read_be, long_length,
}
use voltron_ocpp_protocols.Frame.Bytes.{split_at-append, split_at-some}

pub record Parts (first second : ℕ) (rest : List ℕ) (f : Frame) : Type 0 where
  pub fin_bit : f.fin ≡ not (first / 128 % 2 == 0)
  pub low_bits : f.opcode ≡ first % 16
  pub len : ℕ
  pub rest₁ : List ℕ
  pub mask : Option (List ℕ)
  pub rest₂ : List ℕ
  pub raw : List ℕ
  pub read_len : payload_length (second % 128) rest ≡ some (len, rest₁)
  pub masked : read_mask (not (second / 128 % 2 == 0)) rest₁ ≡ some (mask, rest₂)
  pub split : split_at len rest₂ ≡ some (raw, f.remaining)
  pub unmasked : f.payload ≡ unmask mask raw

pub extract_frame-Parts :
    (first second : ℕ) (rest : List ℕ) {f : Frame}
    → extract_frame (first ∷ second ∷ rest) ≡ some f
    → Parts first second rest f
unfolding extract_frame
extract_frame-Parts first second rest h =
    let ((len, rest₁), p, h₁) = >>=-eq-some (payload_length (second % 128) rest) _ h in
    let ((mask, rest₂), q, h₂) = >>=-eq-some (read_mask (not (second / 128 % 2 == 0)) rest₁) _ h₁ in
    let ((raw, remaining), r, h₃) = >>=-eq-some (split_at len rest₂) _ h₂ in
    record {
      fin_bit = ground arith;
      low_bits = ground arith;
      len = len;
      rest₁ = rest₁;
      mask = mask;
      rest₂ = rest₂;
      raw = raw;
      read_len = p;
      masked = q;
      split = ground arith;
      unmasked = ground arith;
    }

-- The frame made of given parts: a length field `short`, and a mask bit.
pub extract_frame_of_parts :
    (first second short len : ℕ) (bit : Bool) (rest rest₁ rest₂ raw remaining : List ℕ)
    (mask : Option (List ℕ))
    → second % 128 ≡ short
    → not (second / 128 % 2 == 0) ≡ bit
    → payload_length short rest ≡ some (len, rest₁)
    → read_mask bit rest₁ ≡ some (mask, rest₂)
    → split_at len rest₂ ≡ some (raw, remaining)
    → extract_frame (first ∷ second ∷ rest)
      ≡ some (record {
        fin = not (first / 128 % 2 == 0);
        opcode = first % 16;
        payload = unmask mask raw;
        remaining = remaining;
      })
unfolding extract_frame
extract_frame_of_parts first second short len bit rest rest₁ rest₂ raw remaining mask e b p q r =
    rw (e, b, p, q, r)

-- A value computed from the first `n` bytes, and the bytes behind them.
abbrev front_value {ℓ} : {A : Type ℓ} → (List ℕ → A) → ℕ → List ℕ → Option (A × List ℕ)
front_value g n xs = do (front, back) ← split_at n xs; some (g front, back)

front_value-append {ℓ} :
    {A : Type ℓ} (g : List ℕ → A) (n : ℕ) (xs ys : List ℕ) {a : A} {b : List ℕ}
    → front_value g n xs ≡ some (a, b)
    → front_value g n (xs ++ ys) ≡ some (a, b ++ ys)
front_value-append g n xs ys h = elim (Option-cases (split_at n xs)) [
  | inl e ↦ cc
  | inr ((front, back), e) ↦ ground (arith, split_at-append n xs ys {a = front} {b = back} e)
]

front_value-some {ℓ} :
    {A : Type ℓ} (g : List ℕ → A) (n : ℕ) (xs : List ℕ) {a : A} {b : List ℕ}
    → front_value g n xs ≡ some (a, b)
    → (used : List ℕ) × (xs ≡ used ++ b)
front_value-some g n xs h = elim (Option-cases (split_at n xs)) [
  | inl e ↦ cc
  | inr ((front, back), e) ↦ (front, ground (arith, split_at-some n xs {a = front} {b = back} e))
]

pub payload_length-append :
    (short : ℕ) (xs ys : List ℕ) {n : ℕ} {b : List ℕ}
    → payload_length short xs ≡ some (n, b)
    → payload_length short (xs ++ ys) ≡ some (n, b ++ ys)
unfolding payload_length
payload_length-append short xs ys h = elim (Bool-cases (short == 126)) [
  | inl e ↦ rw e (front_value-append (read_be 0) 2 xs ys (rw e at h))
  | inr e ↦ elim (Bool-cases (short == 127)) [
    | inl e' ↦ rw (e, e') (front_value-append long_length 8 xs ys (rw (e, e') at h))
    | inr e' ↦ rw (e, e') (ground arith)
  ]
]

pub payload_length-some :
    (short : ℕ) (xs : List ℕ) {n : ℕ} {b : List ℕ}
    → payload_length short xs ≡ some (n, b)
    → (used : List ℕ) × (xs ≡ used ++ b)
unfolding payload_length
payload_length-some short xs h = elim (Bool-cases (short == 126)) [
  | inl e ↦ front_value-some (read_be 0) 2 xs (rw e at h)
  | inr e ↦ elim (Bool-cases (short == 127)) [
    | inl e' ↦ front_value-some long_length 8 xs (rw (e, e') at h)
    | inr e' ↦ ([], ground arith)
  ]
]

pub read_mask-append :
    (masked : Bool) (xs ys : List ℕ) {m : Option (List ℕ)} {b : List ℕ}
    → read_mask masked xs ≡ some (m, b)
    → read_mask masked (xs ++ ys) ≡ some (m, b ++ ys)
unfolding read_mask
read_mask-append true xs ys h = front_value-append some 4 xs ys h
read_mask-append false xs ys h = ground arith

pub read_mask-some :
    (masked : Bool) (xs : List ℕ) {m : Option (List ℕ)} {b : List ℕ}
    → read_mask masked xs ≡ some (m, b)
    → (used : List ℕ) × (xs ≡ used ++ b)
unfolding read_mask
read_mask-some true xs h = front_value-some some 4 xs h
read_mask-some false xs h = ([], ground arith)
