-- ===== src/Frame/Masked.antt =====
-- The frames that a client sends are masked (RFC 6455, 5.3). `client_frame` is such a frame, written
-- from the RFC: the length bytes with the mask bit, the four mask bytes, and the payload with each
-- byte combined with its mask byte.
use Prim.Native.Nat.{bit_or, bit_xor}
use mathlib.Core.List.{append_assoc}
use voltron_ocpp_protocols.Common.{
  ℕ, zero, suc, ◌+◌, ◌%◌, ◌^◌, ◌<◌, ◌≡◌, refl, ap, ◌∙◌, true, List, [], ◌∷◌, ◌++◌, some, length,
  arith, ◌==◌, nat_eq, nat_beq_iff, All, holds_below, holds_below_lem,
}
use voltron_ocpp_protocols.Frame.{
  extract_frame, read_mask, split_at, unmask, unmask_from, byte_at, length_bytes,
}
use voltron_ocpp_protocols.Frame.Bytes.{split_at-length}
use voltron_ocpp_protocols.Frame.Parts.{extract_frame_of_parts}
use voltron_ocpp_protocols.Frame.RoundTrip.{bit_or-fin, length_bytes-IsReadBack}

xor_table : holds_below (λ a. holds_below (λ m. bit_xor (bit_xor a m) m == a) 256) 256 ≡ true
unfolding holds_below
xor_table = refl

bit_xor_twice : (a m : ℕ) → a < 256 → m < 256 → bit_xor (bit_xor a m) m ≡ a
bit_xor_twice a m p q = (nat_beq_iff _ _).0 (
    holds_below_lem (λ m. bit_xor (bit_xor a m) m == a)
      (holds_below_lem (λ a. holds_below (λ m. bit_xor (bit_xor a m) m == a) 256) xor_table a p) m
      q)

abbrev pub IsByte : ℕ → Type 0
IsByte b = b < 256

byte_at-IsByte : (mask : List ℕ) (i : ℕ) → All IsByte mask → byte_at mask i < 256
unfolding byte_at
byte_at-IsByte [] i h = omega arith
byte_at-IsByte (b ∷ bs) zero h = h.0
byte_at-IsByte (b ∷ bs) (suc i) h = byte_at-IsByte bs i h.1

-- The masking of RFC 6455, 5.3: the four bytes of the key in turn, written without an index.
pub masked : ℕ → ℕ → ℕ → ℕ → List ℕ → List ℕ
masked a b c d [] = []
masked a b c d (p ∷ ps) = bit_xor p a ∷ masked b c d a ps

-- The byte of the key at a position of the payload.
abbrev key : List ℕ → ℕ → ℕ
key mask i = byte_at mask (i % 4)

-- The key, one position on.
key_turn :
    (mask : List ℕ) (i : ℕ) (ps : List ℕ)
    → masked (key mask (i + 1)) (key mask (i + 2)) (key mask (i + 3)) (key mask i) ps
      ≡ masked
          (key mask (i + 1))
          (key mask (i + 1 + 1))
          (key mask (i + 1 + 2))
          (key mask (i + 1 + 3))
          ps
key_turn mask i ps =
    let second : key mask (i + 2) ≡ key mask (i + 1 + 1) = ap (key mask) (omega arith) in
    let third : key mask (i + 3) ≡ key mask (i + 1 + 2) = ap (key mask) (omega arith) in
    let fourth : key mask i ≡ key mask (i + 1 + 3) = ap (byte_at mask) (omega arith) in
    ap (λ x. masked (key mask (i + 1)) x (key mask (i + 3)) (key mask i) ps) second
    ∙ ap (λ x. masked (key mask (i + 1)) (key mask (i + 1 + 1)) x (key mask i) ps) third
    ∙ ap (λ x. masked (key mask (i + 1)) (key mask (i + 1 + 1)) (key mask (i + 1 + 2)) x ps) fourth

unmask_from-masked :
    (i : ℕ) (mask payload : List ℕ)
    → All IsByte mask
    → All IsByte payload
    → unmask_from i mask
        (masked (key mask i) (key mask (i + 1)) (key mask (i + 2)) (key mask (i + 3)) payload)
      ≡ payload
unfolding unmask_from masked
unmask_from-masked i mask [] h k = refl
unmask_from-masked i mask (p ∷ ps) h (k, ks) =
    rw (bit_xor_twice p (key mask i) k (byte_at-IsByte mask (i % 4) h)) (
      ap (◌∷◌ p) (
        ap (unmask_from (i + 1) mask) (key_turn mask i ps)
        ∙ unmask_from-masked (i + 1) mask ps h ks))

length-masked : (a b c d : ℕ) (ps : List ℕ) → length (masked a b c d ps) ≡ length ps
unfolding masked
length-masked a b c d [] = refl
length-masked a b c d (p ∷ ps) = ap suc (length-masked b c d a ps)

with_mask_bit : List ℕ → List ℕ
with_mask_bit [] = []
with_mask_bit (b ∷ bs) = (b + 128) ∷ bs

pub client_frame : ℕ → ℕ → ℕ → ℕ → ℕ → List ℕ → List ℕ
client_frame opcode a b c d payload =
    bit_or 0x80 opcode
    ∷ (with_mask_bit (length_bytes (length payload)) ++ (a ∷ b ∷ c ∷ d ∷ masked a b c d payload))

read_mask_four :
    (a b c d : ℕ) (ys : List ℕ)
    → read_mask true (a ∷ b ∷ c ∷ d ∷ ys) ≡ some (some (a ∷ b ∷ c ∷ d ∷ []), ys)
unfolding read_mask split_at
read_mask_four a b c d ys = refl

-- A masked frame of a client is read with its payload in the clear, and exactly the bytes behind it
-- remain; for an opcode of four bits, a mask of four bytes, and a payload of bytes whose length fits
-- 64 bits.
pub extract_frame-client_frame :
    (opcode a b c d : ℕ) (payload rest : List ℕ)
    → opcode < 16
    → All IsByte (a ∷ b ∷ c ∷ d ∷ [])
    → All IsByte payload
    → length payload < 2 ^ 64
    → extract_frame (client_frame opcode a b c d payload ++ rest)
      ≡ some (record { fin = true; opcode = opcode; payload = payload; remaining = rest })
unfolding client_frame with_mask_bit unmask byte_at
extract_frame-client_frame opcode a b c d payload rest op_ok mask_ok bytes_ok len_ok =
    let mask : List ℕ = a ∷ b ∷ c ∷ d ∷ [] in
    let hidden = masked a b c d payload in
    let l = length_bytes-IsReadBack (length payload) len_ok in
    let short_ok = l.unmasked in
    let behind : List ℕ = mask ++ (hidden ++ rest) in
    rw (bit_or-fin opcode op_ok, l.written, append_assoc l.extended (mask ++ hidden) rest)
      (extract_frame_of_parts (128 + opcode) (l.short + 128) l.short (length payload) true
          (l.extended ++ behind) behind (hidden ++ rest) hidden rest (some mask) (omega arith)
          (ground arith) (l.read_back behind) (read_mask_four a b c d (hidden ++ rest))
          (rw (length-masked a b c d payload) at (split_at-length hidden rest))
        ∙ ground (arith, unmask_from-masked 0 mask payload mask_ok bytes_ok))
