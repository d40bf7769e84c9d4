-- ===== src/Frame/RoundTrip.antt =====
-- What `build_frame` writes, `extract_frame` reads.
use Prim.Native.Nat.{bit_or}
use mathlib.Core.List.{append_assoc}
use voltron_ocpp_protocols.Common.{
  ℕ, ◌+◌, ◌^◌, ◌<◌, ◌≡◌, refl, ◌∙◌, true, false, List, [], ◌∷◌, ◌++◌, none, some, inl, inr, length,
  arith, ◌==◌, nat_eq, ltb, Bool-cases, nat_beq_iff, holds_below, holds_below_lem,
}
use voltron_ocpp_protocols.Frame.{
  extract_frame, payload_length, read_mask, split_at, unmask, build_frame, length_bytes, read_be,
  write_be, long_length,
}
use voltron_ocpp_protocols.Frame.Parts.{extract_frame_of_parts}
use voltron_ocpp_protocols.Frame.Bytes.{split_at-length, length-write_be, read_be-write_be}

fin_table : holds_below (λ op. bit_or 128 op == 128 + op) 16 ≡ true
unfolding holds_below
fin_table = refl

pub bit_or-fin : (op : ℕ) → op < 16 → bit_or 128 op ≡ 128 + op
bit_or-fin op h =
    (nat_beq_iff _ _).0 (holds_below_lem (λ op. bit_or 128 op == 128 + op) fin_table op h)

-- The first length byte, the bytes behind it, and how they are read back.
pub record IsReadBack (n : ℕ) : Type 0 where
  pub short : ℕ
  pub extended : List ℕ
  pub written : length_bytes n ≡ short ∷ extended
  pub unmasked : short < 128
  pub read_back : (ys : List ℕ) → payload_length short (extended ++ ys) ≡ some (n, ys)

split_at-write_be :
    (k n : ℕ) (ys : List ℕ) → split_at k (write_be k n ++ ys) ≡ some (write_be k n, ys)
split_at-write_be k n ys = rw (length-write_be k n) at (split_at-length (write_be k n) ys)

read_16 : (n : ℕ) (ys : List ℕ) → n < 65536 → payload_length 126 (write_be 2 n ++ ys) ≡ some (n, ys)
unfolding payload_length
read_16 n ys h = rw (split_at-write_be 2 n ys, read_be-write_be 2 n h)

long_length-read_be : (n : ℕ) → long_length (write_be 8 n) ≡ read_be 0 (write_be 8 n)
unfolding write_be read_be
long_length-read_be n = omega arith

read_64 :
    (n : ℕ) (ys : List ℕ) → n < 2 ^ 64 → payload_length 127 (write_be 8 n ++ ys) ≡ some (n, ys)
unfolding payload_length
read_64 n ys h = rw (split_at-write_be 8 n ys, long_length-read_be n, read_be-write_be 8 n h)

read_short : (n : ℕ) (ys : List ℕ) → n < 126 → payload_length n ys ≡ some (n, ys)
unfolding payload_length
read_short n ys h = ground arith

pub length_bytes-IsReadBack : (n : ℕ) → n < 2 ^ 64 → IsReadBack n
unfolding length_bytes
length_bytes-IsReadBack n h = elim (Bool-cases (ltb n 126)) [
  | inl e ↦ record {
    short = n;
    extended = [];
    written = rw e;
    unmasked = ground arith;
    read_back = λ ys. read_short n ys (ground arith);
  }
  | inr e ↦ elim (Bool-cases (ltb n 65536)) [
    | inl e' ↦ record {
      short = 126;
      extended = write_be 2 n;
      written = rw (e, e');
      unmasked = omega arith;
      read_back = λ ys. read_16 n ys (ground arith);
    }
    | inr e' ↦ record {
      short = 127;
      extended = write_be 8 n;
      written = rw (e, e');
      unmasked = omega arith;
      read_back = λ ys. read_64 n ys h;
    }
  ]
]

-- Whatever the server frames, a reader of the stream gets back: the last fragment, with the same
-- opcode and payload, and exactly the bytes behind it; for an opcode of four bits and a payload whose
-- length fits 64 bits.
pub extract_frame-build_frame :
    (opcode : ℕ) (payload rest : List ℕ)
    → opcode < 16
    → length payload < 2 ^ 64
    → extract_frame (build_frame opcode payload ++ rest)
      ≡ some (record { fin = true; opcode = opcode; payload = payload; remaining = rest })
unfolding build_frame read_mask unmask
extract_frame-build_frame opcode payload rest op_ok len_ok =
    let b = length_bytes-IsReadBack (length payload) len_ok in
    let short_ok = b.unmasked in
    rw (bit_or-fin opcode op_ok, b.written, append_assoc b.extended payload rest)
      (extract_frame_of_parts (128 + opcode) b.short b.short (length payload) false
          (b.extended ++ (payload ++ rest)) (payload ++ rest) (payload ++ rest) payload rest none
          (omega arith) (ground arith) (b.read_back (payload ++ rest)) refl
          (split_at-length payload rest)
        ∙ ground arith)
