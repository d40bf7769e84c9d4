-- ===== src/Socket/Loop/Chunks.antt =====
-- How the bytes of a socket are cut into chunks makes no difference to what the server does.
use voltron_ocpp_protocols.Common.{
  ℕ, ◌≡◌, refl, ap, sym, ◌∙◌, String, true, nat_eq, Option, none, some, List, [], ◌∷◌, ◌++◌, length,
  arith, get, set, get-set_self,
}
use mathlib.Core.Path.{subst}
use mathlib.Core.List.{append_assoc}
use voltron_ocpp_protocols.Frame.{Frame, extract_frame}
use voltron_ocpp_protocols.Frame.Stream.{extract_frame-append}
use voltron_ocpp_protocols.Messages.{MessageStore}
use voltron_ocpp_protocols.Station.State.{Runtime}
use voltron_ocpp_protocols.Socket.{Node, SocketContext}
use voltron_ocpp_protocols.Socket.Reply.{State}
use voltron_ocpp_protocols.Socket.Contexts.{Contexts, with_contexts, on_frame-Ignores}
use voltron_ocpp_protocols.Socket.Loop.{on_frame, serve, handle_frame}
use voltron_ocpp_protocols.Socket.Loop.Terminates.{
  Runs, starved, broken, continued, Runs-serve, serve_enough,
}

set-set : (m : Contexts) (k : ℕ) (v w : SocketContext) → set (set m k v) k w ≡ set m k w
set-set [] k v w = ground (arith, nat_eq.same_iff k k)
set-set ((i, u) ∷ m) k v w =
    ground (arith, nat_eq.same_iff i k, nat_eq.same_iff k k, set-set m k v w)

module _ (node : Node) (r : Runtime) (store : MessageStore) where
  -- The whole loop, with what it leaves of the buffer.
  abbrev pub Left : Type 0
  Left = State node r store × List ℕ

  module _ (socket : ℕ) (c : SocketContext) (endpoint : Option String) (now : ℕ) where
    -- The runs of the loop without a `break`: it takes every complete frame.
    pub data Flows : List ℕ → State node r store → Left → Type 0 where
      waits :
          {buffer : List ℕ} {s : State node r store}
          → extract_frame buffer ≡ none
          → Flows buffer s (s, buffer)
      goes_on :
          {buffer : List ℕ} {s : State node r store} {f : Frame} {t : Left}
          → extract_frame buffer ≡ some f
          → (on_frame node r store socket c endpoint now f s).1 ≡ true
          → Flows f.remaining (on_frame node r store socket c endpoint now f s).0 t
          → Flows buffer s t

    Flows-Runs :
        {buffer : List ℕ} {s : State node r store} {t : Left}
        → Flows buffer s t
        → Runs node r store socket c endpoint now buffer s t
    Flows-Runs (waits e) = starved e
    Flows-Runs (goes_on e b k) = continued e b (Flows-Runs k)

    -- Bytes that come behind a buffer are read after its frames.
    Flows-append :
        {buffer : List ℕ} {s : State node r store} {t u : Left} (ys : List ℕ)
        → Flows buffer s t
        → Runs node r store socket c endpoint now (t.1 ++ ys) t.0 u
        → Runs node r store socket c endpoint now (buffer ++ ys) s u
    unfolding on_frame
    Flows-append ys (waits e) k = k
    Flows-append {buffer} ys (goes_on e b rest) k =
        continued (extract_frame-append buffer ys e) b (Flows-append ys rest k)

    on_frame-contexts :
        (f : Frame) (s : State node r store)
        → (on_frame node r store socket c endpoint now f s).0.contexts ≡ s.contexts
    on_frame-contexts f s =
        ap (λ p. p.0.contexts) (on_frame-Ignores node r store socket c endpoint now f s.contexts s)

    pub Runs-contexts :
        {buffer : List ℕ} {s : State node r store} {t : Left}
        → Runs node r store socket c endpoint now buffer s t
        → t.0.contexts ≡ s.contexts
    Runs-contexts (starved e) = refl
    Runs-contexts (broken e b) = on_frame-contexts _ _
    Runs-contexts (continued e b k) = Runs-contexts k ∙ on_frame-contexts _ _

    -- The state in which the loop stores what it left.
    abbrev pub stored : Left → State node r store
    stored t = with_contexts node r store (set t.0.contexts socket (record c { buffer = t.1 })) t.0

    -- What is done with a frame does not depend on the buffer or the contexts.
    on_frame-again :
        (x : Contexts) (b : List ℕ) (f : Frame) (s : State node r store)
        → on_frame node r store socket
            (record c { buffer = b })
            endpoint
            now
            f
            (with_contexts node r store x s)
          ≡ (
            with_contexts node r store x (on_frame node r store socket c endpoint now f s).0,
            (on_frame node r store socket c endpoint now f s).1,
          )
    unfolding on_frame
    on_frame-again x b f s = on_frame-Ignores node r store socket c endpoint now f x s

    Runs-again :
        {buffer : List ℕ} {s : State node r store} {t : Left} (x : Contexts) (b : List ℕ)
        → Runs node r store socket c endpoint now buffer s t
        → Runs node r store socket
            (record c { buffer = b })
            endpoint
            now
            buffer
            (with_contexts node r store x s)
            (with_contexts node r store x t.0, t.1)
    Runs-again x b (starved e) = starved e
    Runs-again {buffer} {s} x b (broken {f = f} e k) =
        let same = on_frame-again x b f s in
        subst
          (λ p.
            Runs node r store socket (record c { buffer = b }) endpoint now buffer
              (with_contexts node r store x s) (p.0, f.remaining))
          same (broken e (ap (λ p. p.1) same ∙ k))
    Runs-again {buffer} {s} {t} x b (continued {f = f} e k rest) =
        let same = on_frame-again x b f s in
        continued e (ap (λ p. p.1) same ∙ k) (
          subst
            (λ p.
              Runs node r store socket (record c { buffer = b }) endpoint now f.remaining p.0
                (with_contexts node r store x t.0, t.1))
            (sym same) (Runs-again x b rest))

    pub handle_frame-stored :
        (data' : List ℕ) (s : State node r store) {t : Left}
        → get s.contexts socket ≡ some c
        → Runs node r store socket c endpoint now (c.buffer ++ data') s t
        → handle_frame node r store socket data' endpoint now s ≡ stored t
    unfolding handle_frame
    handle_frame-stored data' s e k =
        rw (e, handle_frame)
          (ap stored (
            Runs-serve node r store socket c endpoint now k (length (c.buffer ++ data'))
              (omega arith)))

  -- A chunk that is taken without a `break`, and then another one, are the chunk of both: the server ends in
  -- the same state, having done the same to its sockets, wherever the bytes are cut.
  pub handle_frame-append :
      (socket : ℕ) (xs ys : List ℕ) (endpoint : Option String) (now : ℕ) (s : State node r store)
      (c : SocketContext) (t : Left)
      → get s.contexts socket ≡ some c
      → Flows socket c endpoint now (c.buffer ++ xs) s t
      → handle_frame node r store socket ys endpoint now
          (handle_frame node r store socket xs endpoint now s)
        ≡ handle_frame node r store socket (xs ++ ys) endpoint now s
  handle_frame-append socket xs ys endpoint now s c t e k =
      let rest = t.1 ++ ys in
      let u = serve node r store (length rest) socket c endpoint now rest t.0 in
      let runs : Runs node r store socket c endpoint now rest t.0 u =
        serve_enough node r store socket c endpoint now (length rest) rest t.0 (omega arith) in
      let between = record c { buffer = t.1 } in
      let after = record c { buffer = u.1 } in
      let kept = set t.0.contexts socket between in
      ap (handle_frame node r store socket ys endpoint now)
        (handle_frame-stored socket c endpoint now xs s e (Flows-Runs socket c endpoint now k))
      ∙ handle_frame-stored socket between endpoint now ys (stored socket c endpoint now t)
          (get-set_self t.0.contexts socket between)
          (Runs-again socket c endpoint now kept t.1 runs)
      ∙ ap (λ x. with_contexts node r store x u.0)
          (set-set t.0.contexts socket between after
            ∙ ap (λ x. set x socket after) (sym (Runs-contexts socket c endpoint now runs)))
      ∙ sym (
          handle_frame-stored socket c endpoint now (xs ++ ys) s e (
            subst (λ b. Runs node r store socket c endpoint now b s u) (append_assoc c.buffer xs ys)
              (Flows-append socket c endpoint now ys k runs)))
