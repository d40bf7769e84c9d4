-- ===== src/Socket/Reader.antt =====
-- The buffer of a socket when calls of `handleFrame` interleave: each call appends its chunk at once, and each
-- loop takes a frame at once, but a loop waits for a message's answer with the rest still in the buffer, and
-- other calls go on meanwhile. `taken` and `received` record what the loops have taken and what has arrived.
use voltron_ocpp_protocols.Common.{ℕ, ◌≡◌, refl, ap, sym, ◌∙◌, some, List, [], ◌∷◌, ◌++◌}
use mathlib.Core.List.{append_assoc}
use voltron_ocpp_protocols.Frame.{Frame, extract_frame}
use voltron_ocpp_protocols.Frame.Stream.{frames, frames-append, frames-some, contents}

pub record Reader : Type 0 where
  pub buffer : List ℕ
  pub taken : List Frame
  pub received : List ℕ

abbrev pub new_reader : Reader
new_reader = record { buffer = []; taken = []; received = [] }

-- `context.buffer = Buffer.concat([context.buffer, data])`
abbrev pub arrive : List ℕ → Reader → Reader
arrive data' r = record r { buffer = r.buffer ++ data'; received = r.received ++ data' }

-- `context.buffer = frame.remaining`
abbrev pub take_frame : Frame → Reader → Reader
take_frame f r = record r { buffer = f.remaining; taken = r.taken ++ contents f ∷ [] }

-- What the calls do to the buffer, in any order.
pub data Step : Reader → Reader → Type 0 where
  arrived : {r : Reader} (data' : List ℕ) → Step r (arrive data' r)
  took : {r : Reader} (f : Frame) → extract_frame r.buffer ≡ some f → Step r (take_frame f r)

pub data Reach : Reader → Type 0 where
  here : Reach new_reader
  next : {r t : Reader} → Reach r → Step r t → Reach t

-- The frames that were taken, and those in the buffer, are the frames of all bytes.
pub record IsInOrder (r : Reader) : Type 0 where
  pub all : r.taken ++ (frames r.buffer).0 ≡ (frames r.received).0
  pub rest : (frames r.buffer).1 ≡ (frames r.received).1

arrive-IsInOrder : (data' : List ℕ) (r : Reader) → IsInOrder r → IsInOrder (arrive data' r)
arrive-IsInOrder data' r v =
    let mine = frames-append r.buffer data' in
    let whole = frames-append r.received data' in
    let later : List ℕ → List Frame = λ b. (frames (b ++ data')).0 in
    record {
      all =
          ap (λ x. r.taken ++ x.0) mine
          ∙ sym (append_assoc r.taken (frames r.buffer).0 (later (frames r.buffer).1))
          ∙ ap (λ x. x ++ later (frames r.buffer).1) v.all
          ∙ ap (λ b. (frames r.received).0 ++ later b) v.rest
          ∙ sym (ap (λ x. x.0) whole);
      rest =
          ap (λ x. x.1) mine ∙ ap (λ b. (frames (b ++ data')).1) v.rest ∙ sym (ap (λ x. x.1) whole);
    }

take_frame-IsInOrder :
    (f : Frame) (r : Reader)
    → extract_frame r.buffer ≡ some f
    → IsInOrder r
    → IsInOrder (take_frame f r)
take_frame-IsInOrder f r e v =
    let one = frames-some r.buffer e in
    record {
      all =
          append_assoc r.taken (contents f ∷ []) (frames f.remaining).0
          ∙ sym (ap (λ x. r.taken ++ x.0) one)
          ∙ v.all;
      rest = sym (ap (λ x. x.1) one) ∙ v.rest;
    }

-- However the calls of `handleFrame` on one socket interleave, no frame is lost, taken twice or taken out of
-- order: those that the loops have taken so far, followed by those still in the buffer, are the frames of all
-- the bytes that have arrived, and the incomplete frame at the end is theirs.
pub Reach-IsInOrder : {r : Reader} → Reach r → IsInOrder r
Reach-IsInOrder here = record { all = refl; rest = refl }
Reach-IsInOrder (next {r} k (arrived data')) = arrive-IsInOrder data' r (Reach-IsInOrder k)
Reach-IsInOrder (next {r} k (took f e)) = take_frame-IsInOrder f r e (Reach-IsInOrder k)
