-- ===== src/Socket/Flush.antt =====
-- The flush of the messages that wait for a station, while there is no database.
use voltron_ocpp_protocols.Common.{
  Option, none, Bool-cases, inl, inr, ℕ, ◌≡◌, refl, ap, sym, ◌∙◌, false, String, ◌==◌, string_eq,
  if◌then◌else◌, some, List, [], ◌∷◌, ◌++◌, map,
}
use mathlib.Core.List.{append_assoc}
use mathlib.Core.Path.{subst}
use voltron_ocpp_protocols.Errors.{Result, ok}
use voltron_ocpp_protocols.Effect.{pure, ◌>>=◌}
use voltron_ocpp_protocols.Effect.Keeps.{>>=-ok}
use voltron_ocpp_protocols.Messages.{
  MessageStore, MemoryMessage, QueuedMessage, id_text, dispatch_at, change_message,
  list_pending_messages, mark_as_failed,
}
use voltron_ocpp_protocols.Messages.Queue.{pending_in}
use voltron_ocpp_protocols.Messages.Pending.{
  mark_as_dispatched-offline, list_pending_messages-offline,
}
use voltron_ocpp_protocols.Messages.Draining.{
  all_ids, AreUnique, all_ids-change_message, pending_in-change_first,
}
use voltron_ocpp_protocols.Station.State.{Runtime}
use voltron_ocpp_protocols.Socket.{Node, Output, written, text_frame, send_text}
use voltron_ocpp_protocols.Socket.Reply.{
  State, messages, attempt, send_queued, send_each, flush_queued_messages, call_value,
}

module _ (node : Node) (r : Runtime) (store : MessageStore) (socket now : ℕ) where
  -- The CALL of a message, as it is written.
  abbrev pub call_written : QueuedMessage → Output
  call_written m = written socket (text_frame node (node.json.stringify (call_value m)))

  -- The state behind a message that was sent.
  abbrev sent : QueuedMessage → State node r store → State node r store
  sent m s = record s {
    output = s.output ++ call_written m ∷ [];
    messages = record s.messages {
      memory_queues =
          change_message (id_text m.id) (dispatch_at store now) s.messages.memory_queues;
    };
  }

  send_queued-offline :
      (m : QueuedMessage) (s : State node r store)
      → s.messages.connected ≡ false
      → send_queued node r store socket now m s ≡ (sent m s, ok tt)
  unfolding send_text
  send_queued-offline m s e =
      ap (λ p. (record s { output = s.output ++ call_written m ∷ []; messages = p.0 }, p.1))
        (mark_as_dispatched-offline store m.id now s.messages e)

  -- Every message was sent once, in order, and none is pending.
  pub record IsFlushed (station : String) (vs : List QueuedMessage) (s : State node r store)
      (t : State node r store × Result (Unit {0})) : Type 0 where
    pub returned : t.1 ≡ ok tt
    pub all_written : t.0.output ≡ s.output ++ map call_written vs
    pub drained : pending_in t.0.messages.memory_queues station now ≡ []

  append-nil : (xs : List Output) → xs ++ [] ≡ xs
  append-nil [] = refl
  append-nil (x ∷ xs) = ap (λ ys. x ∷ ys) (append-nil xs)

  send_each-IsFlushed :
      (station : String) (vs : List QueuedMessage) (s : State node r store)
      → s.messages.connected ≡ false
      → AreUnique (all_ids s.messages.memory_queues)
      → pending_in s.messages.memory_queues station now ≡ vs
      → IsFlushed station vs s (send_each node r store socket now vs s)
  unfolding send_each
  send_each-IsFlushed station [] s e u h = record {
    returned = refl;
    all_written = sym (append-nil s.output);
    drained = h;
  }
  send_each-IsFlushed station (v ∷ vs) s e u h =
      let queues = s.messages.memory_queues in
      let same_ids =
        all_ids-change_message (id_text v.id) (dispatch_at store now) queues (λ m. refl) in
      let rest =
        send_each-IsFlushed station vs (sent v s) e (subst AreUnique (sym same_ids) u) (
          pending_in-change_first (dispatch_at store now) queues station now v vs (λ m. refl) u
            h) in
      let first : send_each node r store socket now (v ∷ vs) s
          ≡ send_each node r store socket now vs (sent v s) =
        ap
          (λ p.
            attempt (λ _. p) (λ _. send_each node r store socket now vs)
              (λ x. messages node r store (mark_as_failed store v.id x)) s)
          (send_queued-offline v s e) in
      subst (IsFlushed station (v ∷ vs) s) (sym first) (record {
        returned = rest.returned;
        all_written =
            rest.all_written ∙ append_assoc s.output (call_written v ∷ []) (map call_written vs);
        drained = rest.drained;
      })

  -- While there is no database, and if no two buffered messages have one identifier, a flush for a station
  -- writes one CALL for each message that is pending for it, in the order of its queue, and nothing else; it
  -- throws nothing, and nothing is pending for the station afterwards.
  pub flush_queued_messages-IsFlushed :
      (station : String) (s : State node r store)
      → (station == "") ≡ false
      → s.messages.connected ≡ false
      → AreUnique (all_ids s.messages.memory_queues)
      → IsFlushed station
          (pending_in s.messages.memory_queues station now)
          s
          (flush_queued_messages node r store (some station) socket now s)
  unfolding flush_queued_messages
  flush_queued_messages-IsFlushed station s named e u =
      let vs = pending_in s.messages.memory_queues station now in
      let listed : flush_queued_messages node r store (some station) socket now s
          ≡ send_each node r store socket now vs s =
        ap
          (λ b.
            (if b
                then pure tt
                else (messages node r store (list_pending_messages store station now)
                    >>= send_each node r store socket now))
              s)
          named
        ∙ >>=-ok (messages node r store (list_pending_messages store station now))
            (send_each node r store socket now)
            (ap (λ p. (record s { messages = p.0 }, p.1))
              (list_pending_messages-offline store station now s.messages e)) in
      subst (IsFlushed station vs s) (sym listed) (send_each-IsFlushed station vs s e u refl)

  -- The CALLs that a flush writes for a station that may be unknown.
  abbrev pub waiting_calls : Option String → List (String × List MemoryMessage) → List Output
  waiting_calls none queues = []
  waiting_calls (some station) queues =
      if station == "" then [] else map call_written (pending_in queues station now)

  pub flush_queued_messages-waiting_calls :
      (o : Option String) (s : State node r store)
      → s.messages.connected ≡ false
      → AreUnique (all_ids s.messages.memory_queues)
      → ((flush_queued_messages node r store o socket now s).1 ≡ ok tt)
        × ((flush_queued_messages node r store o socket now s).0.output
            ≡ s.output ++ waiting_calls o s.messages.memory_queues)
  unfolding flush_queued_messages
  flush_queued_messages-waiting_calls none s e u = (refl, sym (append-nil s.output))
  flush_queued_messages-waiting_calls (some station) s e u = elim (Bool-cases (station == "")) [
    | inl empty ↦ (
      ap
          (λ b.
            ((if b
                then pure tt
                else (messages node r store (list_pending_messages store station now)
                    >>= send_each node r store socket now))
              s).1)
          empty,
      ap
            (λ b.
              ((if b
                  then pure tt
                  else (messages node r store (list_pending_messages store station now)
                      >>= send_each node r store socket now))
                s).0.output)
            empty
          ∙ sym (append-nil s.output)
          ∙ ap
              (λ b.
                s.output
                ++ (if b
                    then []
                    else map call_written (pending_in s.messages.memory_queues station now)))
              (sym empty),
    )
    | inr named ↦
        let v = flush_queued_messages-IsFlushed station s named e u in
        (
          v.returned,
          v.all_written
              ∙ ap
                  (λ b.
                    s.output
                    ++ (if b
                        then []
                        else map call_written (pending_in s.messages.memory_queues station now)))
                  (sym named),
        )
  ]
