-- ===== src/Socket/Events/Frames.antt =====
-- A frame changes a `ConnectionManager` as `IsDerived` says.
use voltron_ocpp_protocols.Common.{
  ℕ, Bool, true, false, not, String, ◌≡◌, refl, sym, ◌==◌, nat_eq, string_eq, if◌then◌else◌, Option,
  none, some, List, [], ◌∷◌,
}
use mathlib.Core.Path.{subst}
use voltron_ocpp_protocols.Errors.{Result, ok, err, Thrown}
use voltron_ocpp_protocols.Effect.{modify}
use voltron_ocpp_protocols.Effect.Keeps.{IsPreorder, Keeps, Keeps-pure, Keeps-bind}
use voltron_ocpp_protocols.Connection.{ConnectionManager, update_activity, associate_station}
use voltron_ocpp_protocols.Frame.{Frame}
use voltron_ocpp_protocols.Messages as Queues
use voltron_ocpp_protocols.Messages.{
  MessageStore, QueuedMessage, list_pending_messages, mark_as_dispatched, mark_as_failed,
}
use voltron_ocpp_protocols.Station.State.{Runtime}
use voltron_ocpp_protocols.Ocpp.{handle_message}
use voltron_ocpp_protocols.Socket.{
  Node, SocketContext, with_connections, send_text, send_pong, send_close_frame,
}
use voltron_ocpp_protocols.Socket.Reply.{
  State, Work, attempt, messages, ocpp, send_queued, send_each, flush_queued_messages,
  build_call_error_payload, associated, associate_result, refreshed_station, answer, refuse,
  refuse_with, settle, on_text, call_value,
}
use voltron_ocpp_protocols.Socket.Loop.{on_frame}
use voltron_ocpp_protocols.Socket.Events.Derived.{
  IsDerived, IsDerived-refl, IsDerived-trans, associate_station-IsDerived,
  update_activity-IsDerived, mark_disconnected-IsDerived,
}
use voltron_ocpp_protocols.Socket.Events.Handled.{handle_message-Derives}

module _ (node : Node) (r : Runtime) (store : MessageStore) where
  pub record Tames (s t : State node r store) : Type 0 where
    pub tamed : IsDerived s.services.connections t.services.connections

  pub order : IsPreorder Tames
  order = record {
    stays = λ s. record { tamed = IsDerived-refl s.services.connections };
    chains = λ s t u v w. record {
      tamed =
          IsDerived-trans s.services.connections t.services.connections u.services.connections
            v.tamed w.tamed;
    };
  }

  attempt_step :
      {A B : Type 0} (s t : State node r store) (x : Result A) (f : A → Work node r store B)
      (g : Thrown → Work node r store B)
      → Tames s t
      → ((a : A) → Keeps Tames (f a))
      → ((e : Thrown) → Keeps Tames (g e))
      → Tames s (attempt (λ _. (t, x)) f g s).0
  attempt_step s t (ok a) f g h k l = order.chains s t (f a t).0 h ((k a).holds t)
  attempt_step s t (err e) f g h k l = order.chains s t (g e t).0 h ((l e).holds t)

  Keeps-attempt :
      {A B : Type 0} (m : Work node r store A) (f : A → Work node r store B)
      (g : Thrown → Work node r store B)
      → Keeps Tames m
      → ((a : A) → Keeps Tames (f a))
      → ((e : Thrown) → Keeps Tames (g e))
      → Keeps Tames (attempt m f g)
  Keeps-attempt m f g h k l = record {
    holds = λ s. attempt_step s (m s).0 (m s).1 f g (h.holds s) k l;
  }

  if-Tames :
      {A : Type 0} (b : Bool) {m m' : Work node r store A}
      → Keeps Tames m
      → Keeps Tames m'
      → Keeps Tames (if b then m else m')
  if-Tames true h k = h
  if-Tames false h k = k

  messages-Tames : {A : Type 0} (m : Queues.M store A) → Keeps Tames (messages node r store m)
  messages-Tames m = record {
    holds = λ s. record { tamed = IsDerived-refl s.services.connections };
  }

  send_text-Tames : (socket : ℕ) (text : String) → Keeps Tames (modify (send_text node socket text))
  unfolding send_text
  send_text-Tames socket text = record {
    holds = λ s. record { tamed = IsDerived-refl s.services.connections };
  }

  send_each-Tames :
      (socket now : ℕ) (ms : List QueuedMessage)
      → Keeps Tames (send_each node r store socket now ms)
  unfolding send_each
  send_each-Tames socket now [] = Keeps-pure order tt
  send_each-Tames socket now (m ∷ ms) =
      Keeps-attempt (send_queued node r store socket now m) _ _
        (Keeps-bind order (modify (send_text node socket (node.json.stringify (call_value m)))) _
          (send_text-Tames socket _) (λ _. messages-Tames (mark_as_dispatched store m.id now)))
        (λ _. send_each-Tames socket now ms) (λ e. messages-Tames (mark_as_failed store m.id e))

  pub flush_queued_messages-Tames :
      (station : Option String) (socket now : ℕ)
      → Keeps Tames (flush_queued_messages node r store station socket now)
  unfolding flush_queued_messages
  flush_queued_messages-Tames none socket now = Keeps-pure order tt
  flush_queued_messages-Tames (some station) socket now =
      if-Tames (station == "") (Keeps-pure order tt) (
        Keeps-bind order (messages node r store (list_pending_messages store station now)) _
          (messages-Tames _) (λ ms. send_each-Tames socket now ms))

  associate_result-IsDerived :
      (m : ConnectionManager) (identity : String) (station : Option String)
      → IsDerived m (associate_result m identity station)
  associate_result-IsDerived m identity none = IsDerived-refl m
  associate_result-IsDerived m identity (some station) = chosen (station == "")
    where
      chosen : (b : Bool) → IsDerived m (if b then m else associate_station m identity station)
      chosen true = IsDerived-refl m
      chosen false = associate_station-IsDerived m identity station

  answer-Tames :
      (identity : String) (socket : ℕ) (payload : List ℕ) (endpoint : Option String) (now : ℕ)
      → Keeps Tames (answer node r store identity socket payload endpoint now)
  unfolding answer
  answer-Tames identity socket payload endpoint now =
      let handled =
        handle_message-Derives node.json r identity (node.from_utf8 payload) endpoint now in
      Keeps-bind order
        (ocpp node r store
          (handle_message node.json r identity (node.from_utf8 payload) endpoint now))
        _ (record { holds = λ s. record { tamed = (handled.holds s.services).derived } })
        (λ result.
          Keeps-bind order
            (modify (λ s. with_connections (update_activity s.services.connections identity now) s))
            _
            (record {
              holds = λ s. record {
                tamed = update_activity-IsDerived s.services.connections identity now;
              };
            })
            (λ _.
              Keeps-bind order (modify (send_text node socket result.reply)) _
                (send_text-Tames socket result.reply)
                (λ _.
                  Keeps-bind order (modify (associated node r store identity result.station_id)) _
                    (record {
                      holds = λ s. record {
                        tamed =
                            associate_result-IsDerived s.services.connections identity
                              result.station_id;
                      };
                    })
                    (λ _.
                      Keeps-bind order (refreshed_station node r store identity) _
                        (record { holds = order.stays })
                        (λ station.
                          if-Tames result.flush_pending_messages
                            (flush_queued_messages-Tames station socket now)
                            (Keeps-pure order tt))))))

  refuse_with-Tames :
      (socket : ℕ) (o : Option String) (s : State node r store)
      → Tames s (refuse_with node r store socket o s).0
  unfolding send_close_frame send_text
  refuse_with-Tames socket none s = record { tamed = IsDerived-refl s.services.connections }
  refuse_with-Tames socket (some text) s = record { tamed = IsDerived-refl s.services.connections }

  settle-Tames :
      (socket : ℕ) (payload : List ℕ) (s t : State node r store) (e : Result (Unit {0}))
      → Tames s t
      → Tames s (settle node r store socket payload t e).0
  unfolding refuse
  settle-Tames socket payload s t (ok _) h = h
  settle-Tames socket payload s t (err e) h = order.chains s t _ h (
      refuse_with-Tames socket (build_call_error_payload node r store (node.from_utf8 payload) e) t)

  on_text-Tames :
      (identity : String) (socket : ℕ) (payload : List ℕ) (endpoint : Option String) (now : ℕ)
      (s : State node r store)
      → Tames s (on_text node r store identity socket payload endpoint now s).0
  unfolding on_text
  on_text-Tames identity socket payload endpoint now s =
      settle-Tames socket payload s _ _
        ((answer-Tames identity socket payload endpoint now).holds s)

  if-first :
      (b : Bool) (s : State node r store) (p q : State node r store × Bool)
      → Tames s p.0
      → Tames s q.0
      → Tames s (if b then p else q).0
  if-first true s p q h k = h
  if-first false s p q h k = k

  pub on_frame-Tames :
      (socket : ℕ) (c : SocketContext) (endpoint : Option String) (now : ℕ) (f : Frame)
      (s : State node r store)
      → Tames s (on_frame node r store socket c endpoint now f s).0
  unfolding on_frame send_close_frame send_pong
  on_frame-Tames socket c endpoint now f s =
      let same : (t : State node r store)
          → t.services.connections ≡ s.services.connections
          → Tames s t =
        λ t h. record {
          tamed =
              subst (IsDerived s.services.connections) (sym h)
                (IsDerived-refl s.services.connections);
        } in
      if-first (not f.fin) s _ _ (same _ refl) (
        if-first (f.opcode == 8) s _ _
          (record { tamed = mark_disconnected-IsDerived s.services.connections c.connection now })
          (if-first (f.opcode == 9) s _ _ (same _ refl) (
            if-first (not (f.opcode == 1)) s _ _ (same _ refl)
              (on_text-Tames c.identity socket f.payload endpoint now s))))
