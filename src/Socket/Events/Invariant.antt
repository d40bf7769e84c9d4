-- ===== src/Socket/Events/Invariant.antt =====
-- Every event keeps the wiring of the sockets.
use voltron_ocpp_protocols.Common.{
  ℕ, Bool, true, false, String, ◌≡◌, refl, sym, ◌==◌, nat_eq, string_eq, if◌then◌else◌, Option,
  none, some, List, [], ◌∷◌, get, set, inl, inr, Option-cases,
}
use mathlib.Core.Path.{subst}
use voltron_ocpp_protocols.Connection.{empty, Close, on_application_shutdown}
use voltron_ocpp_protocols.Messages.{MessageStore}
use voltron_ocpp_protocols.Station.State.{Runtime}
use voltron_ocpp_protocols.Socket.{Node, SocketContext, send_close_frame, close_all}
use voltron_ocpp_protocols.Socket.Upgrade.{
  Request, Decision, accept, not_found, bad_request, decide,
}
use voltron_ocpp_protocols.Socket.Upgrade.Acceptance.{decide-IsNamed}
use voltron_ocpp_protocols.Socket.Reply.{State, flush_queued_messages}
use voltron_ocpp_protocols.Socket.Loop.{handle_frame}
use voltron_ocpp_protocols.Socket.Loop.Terminates.{
  Runs, starved, broken, continued, handle_frame-Runs,
}
use voltron_ocpp_protocols.Socket.Loop.Chunks.{Runs-contexts}
use voltron_ocpp_protocols.Socket.Contexts.{flush_queued_messages-contexts}
use voltron_ocpp_protocols.Socket.Events.Wiring.{
  IsWired, derived-IsWired, stored-IsWired, opened-IsWired,
}
use voltron_ocpp_protocols.Socket.Events.Derived.{mark_disconnected-IsDerived}
use voltron_ocpp_protocols.Socket.Events.Frames.{
  Tames, order, on_frame-Tames, flush_queued_messages-Tames,
}
use voltron_ocpp_protocols.Socket.Events.{
  open_connection, register_socket, decided, handle_upgrade, on_close, on_error, on_module_init,
  on_shutdown, on_manager_shutdown, Event, started, stopped, manager_stopped, upgraded, received,
  closed, failed, handle,
}

module _ (node : Node) (r : Runtime) (store : MessageStore) where
  abbrev pub IsWiredServer : State node r store → Type 0
  IsWiredServer s = IsWired s.services.connections s.contexts

  -- Closing sockets changes neither the manager nor the contexts.
  close_all-same :
      (closes : List Close) (s : State node r store)
      → (close_all node closes s).services ≡ s.services
        × (close_all node closes s).contexts ≡ s.contexts
  unfolding close_all send_close_frame
  close_all-same [] s = (refl, refl)
  close_all-same (x ∷ xs) s =
      close_all-same xs (send_close_frame node x.socket x.code (some x.reason) s)

  Runs-Tames :
      (socket : ℕ) (c : SocketContext) (endpoint : Option String) (now : ℕ) {buffer : List ℕ}
      {s : State node r store} {t : State node r store × List ℕ}
      → Runs node r store socket c endpoint now buffer s t
      → Tames node r store s t.0
  Runs-Tames socket c endpoint now {s = s} (starved e) = (order node r store).stays s
  Runs-Tames socket c endpoint now {s = s} (broken {f = f} e b) =
      on_frame-Tames node r store socket c endpoint now f s
  Runs-Tames socket c endpoint now {s = s} {t = t} (continued {f = f} e b k) =
      (order node r store).chains s _ t.0 (on_frame-Tames node r store socket c endpoint now f s)
        (Runs-Tames socket c endpoint now k)

  handle_frame-IsWired :
      (socket : ℕ) (data' : List ℕ) (endpoint : Option String) (now : ℕ) (s : State node r store)
      → IsWiredServer s
      → IsWiredServer (handle_frame node r store socket data' endpoint now s)
  unfolding handle_frame
  handle_frame-IsWired socket data' endpoint now s v = elim (Option-cases (get s.contexts socket)) [
    | inl e ↦ rw (e, handle_frame) v
    | inr (c, e) ↦
        let (t, k, _, end) = handle_frame-Runs node r store socket data' endpoint now s c e in
        let same = Runs-contexts node r store socket c endpoint now k in
        let taken =
          derived-IsWired s.services.connections t.0.services.connections s.contexts
            (Runs-Tames socket c endpoint now k).tamed v in
        subst IsWiredServer (sym end) (
          subst (λ x. IsWired t.0.services.connections (set x socket (record c { buffer = t.1 })))
            (sym same)
            (stored-IsWired s.contexts socket c (record c { buffer = t.1 }) t.0.services.connections
              e refl refl taken))
  ]

  close_all-IsWired :
      (closes : List Close) (s : State node r store)
      → IsWiredServer s
      → IsWiredServer (close_all node closes s)
  close_all-IsWired closes s v =
      let (a, b) = close_all-same closes s in
      subst (λ x. IsWired x.connections (close_all node closes s).contexts) (sym a)
        (subst (λ x. IsWired s.services.connections x) (sym b) v)

  open_connection-IsWired :
      (identity : String) (socket : ℕ) (endpoint : Option String) (now : ℕ) (s : State node r store)
      → get s.contexts socket ≡ none
      → (identity == "") ≡ false
      → IsWiredServer s
      → IsWiredServer (open_connection node r store identity socket endpoint now s)
  unfolding open_connection
  open_connection-IsWired identity socket endpoint now s fresh named v = close_all-IsWired _ _ (
      opened-IsWired s.services.connections s.contexts identity socket now _ fresh refl refl named
        v)

  flush-IsWired :
      (station : Option String) (socket now : ℕ) (s : State node r store)
      → IsWiredServer s
      → IsWiredServer (flush_queued_messages node r store station socket now s).0
  flush-IsWired station socket now s v =
      subst (IsWired _) (sym (flush_queued_messages-contexts node r store station socket now s)) (
        derived-IsWired s.services.connections _ s.contexts
          ((flush_queued_messages-Tames node r store station socket now).holds s).tamed v)

  decided-IsWired :
      (d : Decision) (socket : ℕ) (request : Request) (now : ℕ) (s : State node r store)
      → ((i k : String) (p : Option String) → d ≡ accept i k p → (i == "") ≡ false)
      → get s.contexts socket ≡ none
      → IsWiredServer s
      → IsWiredServer (decided node r store d socket request now s).0
  unfolding register_socket
  decided-IsWired not_found socket request now s named fresh v = v
  decided-IsWired bad_request socket request now s named fresh v = v
  decided-IsWired (accept i k p) socket request now s named fresh v =
      flush-IsWired _ socket now _
        (open_connection-IsWired i socket request.url now _ fresh (named i k p refl) v)

  handle_upgrade-IsWired :
      (socket : ℕ) (request : Request) (now : ℕ) (s : State node r store)
      → get s.contexts socket ≡ none
      → IsWiredServer s
      → IsWiredServer (handle_upgrade node r store socket request now s).0
  unfolding handle_upgrade
  handle_upgrade-IsWired socket request now s fresh v =
      decided-IsWired (decide node request) socket request now s
        (λ i k p e. decide-IsNamed node request i k p e) fresh v

  -- A socket is upgraded once.
  abbrev pub IsProper : Event → State node r store → Type 0
  IsProper (upgraded socket request now) s = get s.contexts socket ≡ none
  IsProper _ s = Unit {0}

  manager_stopped-IsWired :
      (s : State node r store)
      → IsWiredServer s
      → IsWiredServer (on_manager_shutdown node r store s)
  unfolding on_manager_shutdown on_application_shutdown
  manager_stopped-IsWired s v =
      close_all-IsWired _ _
        (record { keyed = λ i c e. cc; held = λ i c e. cc; owned = v.owned; placed = v.placed })

  on_close-IsWired :
      (socket now : ℕ) (s : State node r store)
      → IsWiredServer s
      → IsWiredServer (on_close node r store socket now s)
  unfolding on_close
  on_close-IsWired socket now s v =
      derived-IsWired s.services.connections _ s.contexts
        (mark_disconnected-IsDerived s.services.connections socket now) v

  if-IsWired :
      (b : Bool) (s t : State node r store)
      → IsWiredServer s
      → IsWiredServer t
      → IsWiredServer (if b then s else t)
  if-IsWired true s t v w = v
  if-IsWired false s t v w = w

  handle-IsWired :
      (e : Event) (s : State node r store)
      → IsProper e s
      → IsWiredServer s
      → IsWiredServer (handle node r store e s)
  unfolding handle on_module_init on_shutdown on_error
  handle-IsWired started s p v = v
  handle-IsWired stopped s p v = v
  handle-IsWired manager_stopped s p v = manager_stopped-IsWired s v
  handle-IsWired (upgraded socket request now) s p v =
      if-IsWired s.listening _ _ (handle_upgrade-IsWired socket request now s p v) v
  handle-IsWired (received socket data' now) s p v = handle_frame-IsWired socket data' _ now s v
  handle-IsWired (closed socket now) s p v = on_close-IsWired socket now s v
  handle-IsWired (failed socket now) s p v = on_close-IsWired socket now s v

  -- The states of a server that starts with no connection.
  pub data Reach : State node r store → Type 0 where
    fresh : {s : State node r store} → s.services.connections ≡ empty → s.contexts ≡ [] → Reach s
    next :
        {s : State node r store} (e : Event)
        → Reach s
        → IsProper e s
        → Reach (handle node r store e s)

  empty-IsWired : IsWired empty []
  empty-IsWired = record {
    keyed = λ i c e. cc;
    held = λ i c e. cc;
    owned = λ k i e. cc;
    placed = λ k x e. cc;
  }

  -- Whatever happens to the server, as long as no socket is upgraded twice: each connection of the manager
  -- stands under its own identity, and its socket was opened for that identity, as was every socket that the
  -- manager knows; no station has an empty identity.
  pub Reach-IsWired : {s : State node r store} → Reach s → IsWiredServer s
  Reach-IsWired {s} (fresh e k) =
      subst (λ x. IsWired x s.contexts) (sym e) (subst (IsWired empty) (sym k) empty-IsWired)
  Reach-IsWired (next e r p) = handle-IsWired e _ p (Reach-IsWired r)
