-- ===== src/Socket/Contexts.antt =====
-- The handling of a frame neither reads nor changes the contexts of the sockets.
use voltron_ocpp_protocols.Common.{
  ℕ, Bool, true, false, not, String, ◌≡◌, refl, ap, ◌∙◌, ◌==◌, nat_eq, string_eq, if◌then◌else◌,
  Option, none, some, List, [], ◌∷◌,
}
use voltron_ocpp_protocols.Errors.{Result, ok, err, Thrown}
use voltron_ocpp_protocols.Effect.{pure, ◌>>=◌, modify}
use voltron_ocpp_protocols.Connection.{update_activity}
use voltron_ocpp_protocols.Frame.{Frame}
use voltron_ocpp_protocols.Messages as Queues
use voltron_ocpp_protocols.Messages.{
  MessageStore, QueuedMessage, list_pending_messages, mark_as_dispatched, mark_as_failed,
}
use voltron_ocpp_protocols.Station.State.{Runtime}
use voltron_ocpp_protocols.Ocpp.{Ocpp, handle_message}
use voltron_ocpp_protocols.Socket.{
  Node, SocketContext, with_connections, send_text, send_pong, send_close_frame,
}
use voltron_ocpp_protocols.Socket.Reply.{
  State, Work, attempt, messages, ocpp, send_queued, send_each, flush_queued_messages,
  build_call_error_payload, associated, refreshed_station, answer, refuse, refuse_with, settle,
  on_text, call_value,
}
use voltron_ocpp_protocols.Socket.Loop.{on_frame}

abbrev pub Contexts : Type 0
Contexts = List (ℕ × SocketContext)

module _ (node : Node) (r : Runtime) (store : MessageStore) where
  abbrev pub with_contexts : Contexts → State node r store → State node r store
  with_contexts x s = record s { contexts = x }

  -- A method that does the same whatever the contexts are.
  record Blind {A : Type 0} (m : Work node r store A) : Type 0 where
    blind :
        (x : Contexts) (s : State node r store)
        → m (with_contexts x s) ≡ (with_contexts x (m s).0, (m s).1)

  Blind-pure : {A : Type 0} (a : A) → Blind (pure a)
  Blind-pure a = record { blind = λ x s. refl }

  bind_step :
      {A B : Type 0} (f : A → Work node r store B)
      → ((a : A) → Blind (f a))
      → (x : Contexts) (t : State node r store) (a : Result A)
      → ◌>>=◌ (λ _. (with_contexts x t, a)) f t
        ≡ (with_contexts x (◌>>=◌ (λ _. (t, a)) f t).0, (◌>>=◌ (λ _. (t, a)) f t).1)
  bind_step f k x t (ok a) = (k a).blind x t
  bind_step f k x t (err e) = refl

  Blind-bind :
      {A B : Type 0} (m : Work node r store A) (f : A → Work node r store B)
      → Blind m
      → ((a : A) → Blind (f a))
      → Blind (m >>= f)
  Blind-bind m f h k = record {
    blind = λ x s. ap (λ p. ◌>>=◌ (λ _. p) f s) (h.blind x s) ∙ bind_step f k x (m s).0 (m s).1;
  }

  attempt_step :
      {A B : Type 0} (f : A → Work node r store B) (g : Thrown → Work node r store B)
      → ((a : A) → Blind (f a))
      → ((e : Thrown) → Blind (g e))
      → (x : Contexts) (t : State node r store) (a : Result A)
      → attempt (λ _. (with_contexts x t, a)) f g t
        ≡ (with_contexts x (attempt (λ _. (t, a)) f g t).0, (attempt (λ _. (t, a)) f g t).1)
  attempt_step f g k l x t (ok a) = (k a).blind x t
  attempt_step f g k l x t (err e) = (l e).blind x t

  Blind-attempt :
      {A B : Type 0} (m : Work node r store A) (f : A → Work node r store B)
      (g : Thrown → Work node r store B)
      → Blind m
      → ((a : A) → Blind (f a))
      → ((e : Thrown) → Blind (g e))
      → Blind (attempt m f g)
  Blind-attempt m f g h k l = record {
    blind = λ x s.
        ap (λ p. attempt (λ _. p) f g s) (h.blind x s) ∙ attempt_step f g k l x (m s).0 (m s).1;
  }

  Blind-if :
      {A : Type 0} (b : Bool) {m m' : Work node r store A}
      → Blind m
      → Blind m'
      → Blind (if b then m else m')
  Blind-if true h k = h
  Blind-if false h k = k

  Blind-messages : {A : Type 0} (m : Queues.M store A) → Blind (messages node r store m)
  Blind-messages m = record { blind = λ x s. refl }

  Blind-ocpp : {A : Type 0} (m : Ocpp node.json r A) → Blind (ocpp node r store m)
  Blind-ocpp m = record { blind = λ x s. refl }

  Blind-send_text : (socket : ℕ) (text : String) → Blind (modify (send_text node socket text))
  unfolding send_text
  Blind-send_text socket text = record { blind = λ x s. refl }

  Blind-send_queued :
      (socket now : ℕ) (m : QueuedMessage) → Blind (send_queued node r store socket now m)
  Blind-send_queued socket now m =
      Blind-bind (modify (send_text node socket (node.json.stringify (call_value m)))) _
        (Blind-send_text socket _) (λ _. Blind-messages (mark_as_dispatched store m.id now))

  Blind-send_each :
      (socket now : ℕ) (ms : List QueuedMessage) → Blind (send_each node r store socket now ms)
  unfolding send_each
  Blind-send_each socket now [] = Blind-pure tt
  Blind-send_each socket now (m ∷ ms) =
      Blind-attempt (send_queued node r store socket now m) _ _ (Blind-send_queued socket now m)
        (λ _. Blind-send_each socket now ms) (λ e. Blind-messages (mark_as_failed store m.id e))

  Blind-flush_queued_messages :
      (station : Option String) (socket now : ℕ)
      → Blind (flush_queued_messages node r store station socket now)
  unfolding flush_queued_messages
  Blind-flush_queued_messages none socket now = Blind-pure tt
  Blind-flush_queued_messages (some station) socket now = Blind-if (station == "") (Blind-pure tt) (
      Blind-bind (messages node r store (list_pending_messages store station now)) _
        (Blind-messages (list_pending_messages store station now))
        (λ ms. Blind-send_each socket now ms))

  pub flush_queued_messages-contexts :
      (station : Option String) (socket now : ℕ) (s : State node r store)
      → (flush_queued_messages node r store station socket now s).0.contexts ≡ s.contexts
  flush_queued_messages-contexts station socket now s =
      ap (λ p. p.0.contexts) ((Blind-flush_queued_messages station socket now).blind s.contexts s)

  Blind-associated :
      (identity : String) (station : Option String)
      → Blind (modify (associated node r store identity station))
  Blind-associated identity station = record { blind = λ x s. refl }

  Blind-answer :
      (identity : String) (socket : ℕ) (payload : List ℕ) (endpoint : Option String) (now : ℕ)
      → Blind (answer node r store identity socket payload endpoint now)
  unfolding answer
  Blind-answer identity socket payload endpoint now =
      Blind-bind
        (ocpp node r store
          (handle_message node.json r identity (node.from_utf8 payload) endpoint now))
        _ (Blind-ocpp (handle_message node.json r identity (node.from_utf8 payload) endpoint now))
        (λ result.
          Blind-bind
            (modify (λ s. with_connections (update_activity s.services.connections identity now) s))
            _ (record { blind = λ x s. refl })
            (λ _.
              Blind-bind (modify (send_text node socket result.reply)) _
                (Blind-send_text socket result.reply)
                (λ _.
                  Blind-bind (modify (associated node r store identity result.station_id)) _
                    (Blind-associated identity result.station_id)
                    (λ _.
                      Blind-bind (refreshed_station node r store identity) _
                        (record { blind = λ x s. refl })
                        (λ station.
                          Blind-if result.flush_pending_messages
                            (Blind-flush_queued_messages station socket now) (Blind-pure tt))))))

  -- What `on_frame` is, whatever the contexts are.
  abbrev Ignores : (State node r store → State node r store × Bool) → Type 0
  Ignores f =
      (x : Contexts) (s : State node r store)
      → f (with_contexts x s) ≡ (with_contexts x (f s).0, (f s).1)

  refuse_with-Ignores :
      (socket : ℕ) (o : Option String) → Ignores (refuse_with node r store socket o)
  unfolding send_close_frame send_text
  refuse_with-Ignores socket none x s = refl
  refuse_with-Ignores socket (some text) x s = refl

  settle-Ignores :
      (socket : ℕ) (payload : List ℕ) (e : Result (Unit {0}))
      → Ignores (λ s. settle node r store socket payload s e)
  unfolding refuse
  settle-Ignores socket payload (ok _) x s = refl
  settle-Ignores socket payload (err e) x s =
      refuse_with-Ignores socket (build_call_error_payload node r store (node.from_utf8 payload) e)
        x s

  on_text-Ignores :
      (identity : String) (socket : ℕ) (payload : List ℕ) (endpoint : Option String) (now : ℕ)
      → Ignores (on_text node r store identity socket payload endpoint now)
  unfolding on_text
  on_text-Ignores identity socket payload endpoint now x s =
      let done = answer node r store identity socket payload endpoint now s in
      ap (λ p. settle node r store socket payload p.0 p.1)
        ((Blind-answer identity socket payload endpoint now).blind x s)
      ∙ settle-Ignores socket payload done.1 x done.0

  Ignores-if :
      (b : Bool) (f g : State node r store → State node r store × Bool)
      → Ignores f
      → Ignores g
      → Ignores (λ s. if b then f s else g s)
  Ignores-if true f g h k = h
  Ignores-if false f g h k = k

  -- What is done with a frame is the same whatever the contexts are, and leaves them as they are.
  pub on_frame-Ignores :
      (socket : ℕ) (c : SocketContext) (endpoint : Option String) (now : ℕ) (f : Frame)
      (x : Contexts) (s : State node r store)
      → on_frame node r store socket c endpoint now f (with_contexts x s) ≡ (
        with_contexts x (on_frame node r store socket c endpoint now f s).0,
        (on_frame node r store socket c endpoint now f s).1,
      )
  unfolding on_frame send_close_frame send_pong
  on_frame-Ignores socket c endpoint now f =
      Ignores-if (not f.fin) _ _ (λ x s. refl)
        (Ignores-if (f.opcode == 8) _ _ (λ x s. refl)
          (Ignores-if (f.opcode == 9) _ _ (λ x s. refl)
            (Ignores-if (not (f.opcode == 1)) _ _ (λ x s. refl)
              (on_text-Ignores c.identity socket f.payload endpoint now))))
