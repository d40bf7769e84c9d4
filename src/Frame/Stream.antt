-- ===== src/Frame/Stream.antt =====
-- Reading frames from a byte stream: what a frame consumes, and that the cuts between the chunks that
-- arrive make no difference.
use voltron_ocpp_protocols.Common.{
  ℕ, zero, suc, ◌+◌, ◌≤◌, ◌≡◌, refl, sym, ap, ◌∙◌, List, [], ◌∷◌, ◌++◌, Option, none, some,
  Option-cases, inl, inr, length, length-append, arith,
}
use mathlib.Core.List.{append_assoc}
use voltron_ocpp_protocols.Frame.{Frame, extract_frame, unmask}
use voltron_ocpp_protocols.Frame.Bytes.{split_at-append, split_at-some, length-unmask_from}
use voltron_ocpp_protocols.Frame.Parts.{
  extract_frame-Parts, payload_length-append, payload_length-some, read_mask-append, read_mask-some,
}

length-unmask : (mask : Option (List ℕ)) (xs : List ℕ) → length (unmask mask xs) ≡ length xs
unfolding unmask
length-unmask none xs = refl
length-unmask (some mask) xs = length-unmask_from 0 mask xs

regroup :
    (a b : ℕ) (u v raw remaining : List ℕ) {rest rest₁ rest₂ : List ℕ}
    → rest ≡ u ++ rest₁
    → rest₁ ≡ v ++ rest₂
    → rest₂ ≡ raw ++ remaining
    → a ∷ b ∷ rest ≡ (a ∷ b ∷ u ++ (v ++ raw)) ++ remaining
regroup a b u v raw remaining p q r = rw (p, q, r) (simp append_assoc)

-- A frame is read from a prefix of the buffer, of two bytes and the payload's length at least, and
-- what is behind that prefix remains.
pub extract_frame-consumes :
    (buffer : List ℕ) {f : Frame}
    → extract_frame buffer ≡ some f
    → (used : List ℕ) × (buffer ≡ used ++ f.remaining) × (2 + length f.payload ≤ length used)
unfolding extract_frame
extract_frame-consumes [] h = cc
extract_frame-consumes (a ∷ []) h = cc
extract_frame-consumes (a ∷ b ∷ rest) {f} h =
    let r = extract_frame-Parts a b rest h in
    let (u₁, e₁) = payload_length-some _ rest r.read_len in
    let (u₂, e₂) = read_mask-some _ r.rest₁ r.masked in
    let (e₃, _) = split_at-some r.len r.rest₂ r.split in
    (
      a ∷ b ∷ u₁ ++ (u₂ ++ r.raw),
      regroup a b u₁ u₂ r.raw f.remaining e₁ e₂ e₃,
      omega (
        arith,
        ap length r.unmasked,
        length-unmask r.mask r.raw,
        length-append u₁ (u₂ ++ r.raw),
        length-append u₂ r.raw,
      ),
    )

-- Bytes that arrive later do not change a frame that is already complete; they stay behind it.
pub extract_frame-append :
    (xs ys : List ℕ) {f : Frame}
    → extract_frame xs ≡ some f
    → extract_frame (xs ++ ys) ≡ some (record f { remaining = f.remaining ++ ys })
unfolding extract_frame
extract_frame-append [] ys h = cc
extract_frame-append (a ∷ []) ys h = cc
extract_frame-append (a ∷ b ∷ rest) ys {f} h =
    let r = extract_frame-Parts a b rest h in
    rw
      (
        payload_length-append _ rest ys r.read_len,
        read_mask-append _ r.rest₁ ys r.masked,
        split_at-append r.len r.rest₂ ys r.split,
      )
      (ground (arith, r.fin_bit, r.low_bits, r.unmasked))

-- The frames in a buffer, each without what is behind it, and the bytes of an incomplete one. The
-- fuel is the number of bytes: a frame takes two at least.
pub drain : ℕ → List ℕ → List Frame × List ℕ
drain zero buffer = ([], buffer)
drain (suc n) buffer = elim (extract_frame buffer) [
  | none ↦ ([], buffer)
  | some f ↦ (record f { remaining = [] } ∷ (drain n f.remaining).0, (drain n f.remaining).1)
]

abbrev pub frames : List ℕ → List Frame × List ℕ
frames buffer = drain (length buffer) buffer

remaining-lt :
    (buffer : List ℕ) {f : Frame}
    → extract_frame buffer ≡ some f
    → 2 + length f.remaining ≤ length buffer
remaining-lt buffer {f} h =
    let (used, e, p) = extract_frame-consumes buffer h in
    omega (arith, ap length e, length-append used f.remaining)

drain-none : (n : ℕ) (buffer : List ℕ) → extract_frame buffer ≡ none → drain n buffer ≡ ([], buffer)
unfolding drain
drain-none zero buffer e = refl
drain-none (suc n) buffer e = rw (e, drain)

abbrev pub contents : Frame → Frame
contents f = record f { remaining = [] }

drain-some :
    (n : ℕ) (buffer : List ℕ) {f : Frame}
    → extract_frame buffer ≡ some f
    → drain (suc n) buffer ≡ (contents f ∷ (drain n f.remaining).0, (drain n f.remaining).1)
unfolding drain
drain-some n buffer e = rw (e, drain)

extract_frame-no_items : extract_frame [] ≡ none
unfolding extract_frame
extract_frame-no_items = refl

drain_fuel :
    (m n : ℕ) (buffer : List ℕ)
    → length buffer ≤ m
    → length buffer ≤ n
    → drain m buffer ≡ drain n buffer
drain_fuel m n [] p q =
    rw (drain-none m [] extract_frame-no_items, drain-none n [] extract_frame-no_items)
drain_fuel zero n (x ∷ xs) p q = absurd (omega arith)
drain_fuel (suc m) zero (x ∷ xs) p q = absurd (omega arith)
drain_fuel (suc m) (suc n) (x ∷ xs) p q = elim (Option-cases (extract_frame (x ∷ xs))) [
  | inl e ↦ rw (drain-none (suc m) (x ∷ xs) e, drain-none (suc n) (x ∷ xs) e)
  | inr (f, e) ↦
      let shorter = remaining-lt (x ∷ xs) e in
      rw (drain-some m (x ∷ xs) e, drain-some n (x ∷ xs) e)
        (rw (drain_fuel m n f.remaining (omega arith) (omega arith)))
]

pub frames-some :
    (buffer : List ℕ) {f : Frame}
    → extract_frame buffer ≡ some f
    → frames buffer ≡ (contents f ∷ (frames f.remaining).0, (frames f.remaining).1)
frames-some [] {f} e = absurd (omega (arith, remaining-lt [] e))
frames-some (x ∷ xs) {f} e =
    let shorter = remaining-lt (x ∷ xs) e in
    rw (drain-some (length xs) (x ∷ xs) e)
      (rw (drain_fuel (length xs) (length f.remaining) f.remaining (omega arith) (omega arith)))

-- The buffers that frames are cut from in two chunks, and the joined list of frames.
abbrev pub then_frames : List Frame × List ℕ → List ℕ → List Frame × List ℕ
then_frames (fs, rest) ys = (fs ++ (frames (rest ++ ys)).0, (frames (rest ++ ys)).1)

abbrev prepend : Frame → List Frame × List ℕ → List Frame × List ℕ
prepend f r = (f ∷ r.0, r.1)

frames-append_fuel :
    (n : ℕ) (xs ys : List ℕ) → length xs ≤ n → frames (xs ++ ys) ≡ then_frames (frames xs) ys
frames-append_fuel zero xs ys h = elim (Option-cases (extract_frame xs)) [
  | inl e ↦ rw (drain-none (length xs) xs e)
  | inr (f, e) ↦ absurd (omega (arith, remaining-lt xs e))
]
frames-append_fuel (suc n) xs ys h = elim (Option-cases (extract_frame xs)) [
  | inl e ↦ rw (drain-none (length xs) xs e)
  | inr (f, e) ↦
      let shorter = remaining-lt xs e in
      frames-some (xs ++ ys) (extract_frame-append xs ys e)
      ∙ ap (prepend (contents f)) (frames-append_fuel n f.remaining ys (omega arith))
      ∙ ap (λ r. then_frames r ys) (sym (frames-some xs e))
]

-- Reading a stream in two chunks gives the frames of the whole stream, and leaves the same bytes:
-- for all chunks, wherever the cut falls.
pub frames-append : (xs ys : List ℕ) → frames (xs ++ ys) ≡ then_frames (frames xs) ys
frames-append xs ys = frames-append_fuel (length xs) xs ys (omega arith)
