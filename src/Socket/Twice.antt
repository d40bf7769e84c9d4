-- ===== src/Socket/Twice.antt =====
-- A message whose reply is sent before the flush throws.
use voltron_ocpp_protocols.Common.{
  ℕ, ◌≡◌, ap, ◌∙◌, true, false, not, String, ◌==◌, string_eq, if◌then◌else◌, Option, none, some,
  List, [], ◌∷◌, ◌++◌, map,
}
use mathlib.Core.List.{append_assoc}
use voltron_ocpp_protocols.Errors.{ok, err, Thrown}
use voltron_ocpp_protocols.Effect.{pure, ◌>>=◌}
use voltron_ocpp_protocols.Effect.Keeps.{>>=-ok}
use voltron_ocpp_protocols.Messages.{
  MessageStore, query, list_pending_messages, view, keep, is_ready, queue_of,
}
use voltron_ocpp_protocols.Station.State.{Runtime}
use voltron_ocpp_protocols.Ocpp.{Services, ProcessedOcppMessage, handle_message}
use voltron_ocpp_protocols.Socket.{Node, Output, written, text_frame, send_text}
use voltron_ocpp_protocols.Socket.Reply.{
  State, ocpp, messages, respond, answer, settle, refuse, refuse_with, build_call_error_payload,
  unique_id_of, call_error_value, on_text, flush_queued_messages, send_each,
}
use voltron_ocpp_protocols.Socket.Responses.{processed, responded, known_station}

module _ (node : Node) (r : Runtime) (store : MessageStore) where
  open node use {json, from_utf8}

  -- The table of messages cannot be read.
  pub record IsLocked (station : String) (now : ℕ) (s : State node r store) (x : Thrown)
      : Type 0 where
    pub named : (station == "") ≡ false
    pub online : s.messages.connected ≡ true
    pub throws : (store.find_pending station now s.messages.db).1 ≡ err x

  -- A flush that cannot read the table throws, and has written nothing.
  flush-throws :
      (station : String) (socket now : ℕ) (s : State node r store) (x : Thrown)
      → IsLocked station now s x
      → ((flush_queued_messages node r store (some station) socket now s).1 ≡ err x)
        × ((flush_queued_messages node r store (some station) socket now s).0.output ≡ s.output)
  unfolding flush_queued_messages list_pending_messages
  flush-throws station socket now s x v =
      let pending = messages node r store (list_pending_messages store station now) in
      let after = record s {
        messages = record s.messages { db = (store.find_pending station now s.messages.db).0 };
      } in
      let stored : pending s ≡ (after, (store.find_pending station now s.messages.db).1) =
        ap
          (λ b.
            let p =
              (if b
                  then pure
                      (map view (keep (is_ready now) (queue_of s.messages.memory_queues station)))
                  else query store (store.find_pending station now))
                s.messages in
            (record s { messages = p.0 }, p.1))
          (ap not v.online) in
      let failed : pending s ≡ (after, err x) = stored ∙ ap (λ y. (after, y)) v.throws in
      let all : flush_queued_messages node r store (some station) socket now s ≡ (after, err x) =
        ap (λ b. (if b then pure tt else (pending >>= send_each node r store socket now)) s) v.named
        ∙ ap (λ p. ◌>>=◌ (λ _. p) (send_each node r store socket now) s) failed in
      (ap (λ p. p.1) all, ap (λ p. p.0.output) all)

  module _ (identity : String) (socket : ℕ) (payload : List ℕ) (endpoint : Option String)
      (now : ℕ) where
    abbrev after_reply :
        Services r.Db → ProcessedOcppMessage → State node r store → State node r store
    after_reply = responded node r store identity socket payload endpoint now

    abbrev call_error_sent : String → Thrown → Output
    call_error_sent u x = written socket (text_frame node (json.stringify (call_error_value u x)))

    abbrev text_with : Thrown → Option String → Option String
    text_with x o = elim o [
      | none ↦ none
      | some unique_id ↦ some (json.stringify (call_error_value unique_id x))
    ]

    -- A CALL is answered twice, with its CALLRESULT and with a CALLERROR, if its handler returns and asks for
    -- a flush, and the table of messages cannot be read then.
    pub on_text_answered_twice :
        (t : Services r.Db) (p : ProcessedOcppMessage) (s : State node r store) (station u : String)
        (x : Thrown)
        → processed node r store identity socket payload endpoint now s ≡ (t, ok p)
        → p.flush_pending_messages ≡ true
        → known_station node r store identity socket payload endpoint now t p s ≡ some station
        → IsLocked station now (after_reply t p s) x
        → unique_id_of (json.parse (from_utf8 payload)) ≡ some u
        → (on_text node r store identity socket payload endpoint now s).0.output
          ≡ s.output
            ++ written socket (text_frame node p.reply)
              ∷ written socket (text_frame node (json.stringify (call_error_value u x)))
              ∷ []
    unfolding on_text answer refuse build_call_error_payload send_text
    on_text_answered_twice t p s station u x e flushes known v id =
        let flushed =
          flush_queued_messages node r store (some station) socket now (after_reply t p s) in
        let (thrown, silent) = flush-throws station socket now (after_reply t p s) x v in
        let replied : respond node r store identity socket now p (record s { services = t })
            ≡ flushed =
          ap
            (λ b.
              (if b
                  then flush_queued_messages node r store
                      (known_station node r store identity socket payload endpoint now t p s) socket
                      now
                  else pure tt)
                (after_reply t p s))
            flushes
          ∙ ap (λ k. flush_queued_messages node r store k socket now (after_reply t p s)) known in
        let answered : answer node r store identity socket payload endpoint now s ≡ flushed =
          >>=-ok
            (ocpp node r store (handle_message json r identity (from_utf8 payload) endpoint now))
            (respond node r store identity socket now)
            (ap (λ y. (record s { services = y.0 }, y.1)) e)
          ∙ replied in
        let refused : (refuse node r store socket payload x flushed.0).0.output
            ≡ flushed.0.output ++ call_error_sent u x ∷ [] =
          ap (λ o. (refuse_with node r store socket (text_with x o) flushed.0).0.output) id in
        ap (λ y. (settle node r store socket payload y.0 y.1).0.output) answered
        ∙ ap (λ y. (settle node r store socket payload flushed.0 y).0.output) thrown
        ∙ refused
        ∙ ap (λ o. o ++ call_error_sent u x ∷ []) silent
        ∙ append_assoc s.output (written socket (text_frame node p.reply) ∷ [])
            (call_error_sent u x ∷ [])
