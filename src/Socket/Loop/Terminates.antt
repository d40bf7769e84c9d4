-- ===== src/Socket/Loop/Terminates.antt =====
-- The loop of `handleFrame` comes to its end.
use voltron_ocpp_protocols.Common.{
  ℕ, zero, suc, ◌+◌, ◌≤◌, ◌≡◌, refl, ap, sym, ◌∙◌, true, false, String, Option, none, some, List,
  [], ◌++◌, length, length-append, arith, inl, inr, get, set, nat_eq, Option-cases, Bool-cases,
}
use mathlib.Core.Path.{subst}
use voltron_ocpp_protocols.Frame.{Frame, extract_frame}
use voltron_ocpp_protocols.Frame.Stream.{extract_frame-consumes}
use voltron_ocpp_protocols.Messages.{MessageStore}
use voltron_ocpp_protocols.Station.State.{Runtime}
use voltron_ocpp_protocols.Socket.{Node, SocketContext}
use voltron_ocpp_protocols.Socket.Reply.{State}
use voltron_ocpp_protocols.Socket.Loop.{on_frame, serve, handle_frame}

module _ (node : Node) (r : Runtime) (store : MessageStore) (socket : ℕ) (c : SocketContext)
    (endpoint : Option String) (now : ℕ) where
  -- The runs of the loop `while (true)`: it ends without a complete frame or at a `break`, and goes on
  -- with the rest of the buffer otherwise.
  pub data Runs : List ℕ → State node r store → State node r store × List ℕ → Type 0 where
    starved :
        {buffer : List ℕ} {s : State node r store}
        → extract_frame buffer ≡ none
        → Runs buffer s (s, buffer)
    broken :
        {buffer : List ℕ} {s : State node r store} {f : Frame}
        → extract_frame buffer ≡ some f
        → (on_frame node r store socket c endpoint now f s).1 ≡ false
        → Runs buffer s ((on_frame node r store socket c endpoint now f s).0, f.remaining)
    continued :
        {buffer : List ℕ} {s : State node r store} {f : Frame} {t : State node r store × List ℕ}
        → extract_frame buffer ≡ some f
        → (on_frame node r store socket c endpoint now f s).1 ≡ true
        → Runs f.remaining (on_frame node r store socket c endpoint now f s).0 t
        → Runs buffer s t

  remaining_lt :
      (buffer : List ℕ) {f : Frame}
      → extract_frame buffer ≡ some f
      → 2 + length f.remaining ≤ length buffer
  remaining_lt buffer {f} h =
      let (used, e, p) = extract_frame-consumes buffer h in
      omega (arith, ap length e, length-append used f.remaining)

  serve-starved :
      (fuel : ℕ) (buffer : List ℕ) (s : State node r store)
      → extract_frame buffer ≡ none
      → serve node r store fuel socket c endpoint now buffer s ≡ (s, buffer)
  unfolding serve
  serve-starved zero buffer s e = refl
  serve-starved (suc fuel) buffer s e = rw (e, serve) refl

  serve-broken :
      (fuel : ℕ) (buffer : List ℕ) (s : State node r store) {f : Frame}
      → extract_frame buffer ≡ some f
      → (on_frame node r store socket c endpoint now f s).1 ≡ false
      → serve node r store (suc fuel) socket c endpoint now buffer s
        ≡ ((on_frame node r store socket c endpoint now f s).0, f.remaining)
  unfolding serve
  serve-broken fuel buffer s e b = rw (e, serve) (rw b refl)

  serve-continued :
      (fuel : ℕ) (buffer : List ℕ) (s : State node r store) {f : Frame}
      → extract_frame buffer ≡ some f
      → (on_frame node r store socket c endpoint now f s).1 ≡ true
      → serve node r store (suc fuel) socket c endpoint now buffer s
        ≡ serve node r store fuel socket c endpoint now f.remaining
            (on_frame node r store socket c endpoint now f s).0
  unfolding serve
  serve-continued fuel buffer s e b = rw (e, serve) (rw b refl)

  extract_frame-empty : extract_frame [] ≡ none
  unfolding extract_frame
  extract_frame-empty = refl

  serve_frame :
      (fuel : ℕ) (buffer : List ℕ) (s : State node r store) {f : Frame}
      → extract_frame buffer ≡ some f
      → Runs f.remaining (on_frame node r store socket c endpoint now f s).0 (
          serve node r store fuel socket c endpoint now f.remaining
            (on_frame node r store socket c endpoint now f s).0)
      → Runs buffer s (serve node r store (suc fuel) socket c endpoint now buffer s)
  serve_frame fuel buffer s {f} e rest =
      elim (Bool-cases (on_frame node r store socket c endpoint now f s).1) [
        | inl b ↦
            subst (Runs buffer s) (sym (serve-continued fuel buffer s e b)) (continued e b rest)
        | inr b ↦ subst (Runs buffer s) (sym (serve-broken fuel buffer s e b)) (broken e b)
      ]

  pub serve_enough :
      (fuel : ℕ) (buffer : List ℕ) (s : State node r store)
      → length buffer ≤ fuel
      → Runs buffer s (serve node r store fuel socket c endpoint now buffer s)
  serve_enough zero buffer s p = elim (Option-cases (extract_frame buffer)) [
    | inl e ↦ subst (Runs buffer s) (sym (serve-starved zero buffer s e)) (starved e)
    | inr (f, e) ↦ absurd (omega (arith, remaining_lt buffer e))
  ]
  serve_enough (suc fuel) buffer s p = elim (Option-cases (extract_frame buffer)) [
    | inl e ↦ subst (Runs buffer s) (sym (serve-starved (suc fuel) buffer s e)) (starved e)
    | inr (f, e) ↦
        serve_frame fuel buffer s e
          (serve_enough fuel f.remaining _ (omega (arith, remaining_lt buffer e)))
  ]

  pub Runs-serve :
      {buffer : List ℕ} {s : State node r store} {t : State node r store × List ℕ}
      → Runs buffer s t
      → (fuel : ℕ) → length buffer ≤ fuel
      → serve node r store fuel socket c endpoint now buffer s ≡ t
  Runs-serve (starved e) fuel p = serve-starved fuel _ _ e
  Runs-serve {buffer} (broken {f = f} e b) zero p = absurd (omega (arith, remaining_lt buffer e))
  Runs-serve (broken e b) (suc fuel) p = serve-broken fuel _ _ e b
  Runs-serve {buffer} (continued {f = f} e b k) zero p =
      absurd (omega (arith, remaining_lt buffer e))
  Runs-serve {buffer} (continued e b k) (suc fuel) p =
      serve-continued fuel _ _ e b ∙ Runs-serve k fuel (omega (arith, remaining_lt buffer e))

module _ (node : Node) (r : Runtime) (store : MessageStore) where
  -- For every chunk that arrives on a socket with a context, the loop comes to an end, with one result: the
  -- state that `handle_frame` returns, in which the bytes that the loop left are the socket's buffer.
  pub handle_frame-Runs :
      (socket : ℕ) (data' : List ℕ) (endpoint : Option String) (now : ℕ) (s : State node r store)
      (c : SocketContext)
      → get s.contexts socket ≡ some c
      → (t : State node r store × List ℕ) × Runs node r store socket c endpoint now
          (c.buffer ++ data')
          s
          t
        × ((t' : State node r store × List ℕ)
            → Runs node r store socket c endpoint now (c.buffer ++ data') s t'
            → t' ≡ t)
        × (handle_frame node r store socket data' endpoint now s
            ≡ record t.0 { contexts = set t.0.contexts socket (record c { buffer = t.1 }) })
  unfolding handle_frame
  handle_frame-Runs socket data' endpoint now s c e =
      let buffer = c.buffer ++ data' in
      (
        serve node r store (length buffer) socket c endpoint now buffer s,
        serve_enough node r store socket c endpoint now (length buffer) buffer s (omega arith),
        λ t' k. sym (Runs-serve node r store socket c endpoint now k (length buffer) (omega arith)),
        rw (e, handle_frame) refl,
      )
