-- ===== src/Socket/Responses.antt =====
-- What is sent for a message that its handler answered: the reply, and the CALLs that a flush adds.
use voltron_ocpp_protocols.Common.{
  sym, ℕ, ◌≡◌, ap, ◌∙◌, Bool, true, false, String, nat_eq, if◌then◌else◌, Option, List, [], ◌∷◌,
  ◌++◌, inl, inr, Bool-cases,
}
use mathlib.Core.List.{append_assoc}
use voltron_ocpp_protocols.Errors.{Result, ok, err}
use voltron_ocpp_protocols.Effect.{pure}
use voltron_ocpp_protocols.Connection.{update_activity, get_context, station_of}
use voltron_ocpp_protocols.Messages.{MessageStore}
use voltron_ocpp_protocols.Station.State.{Runtime}
use voltron_ocpp_protocols.Ocpp.{Services, ProcessedOcppMessage, handle_message}
use voltron_ocpp_protocols.Socket.{Node, Output, written, text_frame, with_connections, send_text}
use voltron_ocpp_protocols.Socket.Reply.{State, respond, associated, flush_queued_messages}
use voltron_ocpp_protocols.Messages.Draining.{all_ids, AreUnique}
use voltron_ocpp_protocols.Socket.Flush.{waiting_calls, flush_queued_messages-waiting_calls}

module _ (node : Node) (r : Runtime) (store : MessageStore) where
  open node use {json, from_utf8}

  -- If a flush is asked for, there is no database, and no two buffered messages have one identifier.
  abbrev pub IsReady : State node r store → Result ProcessedOcppMessage → Type 0
  IsReady s (ok p) =
      p.flush_pending_messages ≡ true
      → (s.messages.connected ≡ false) × AreUnique (all_ids s.messages.memory_queues)
  IsReady s (err e) = Unit {0}

  module _ (identity : String) (socket : ℕ) (payload : List ℕ) (endpoint : Option String)
      (now : ℕ) where
    abbrev pub processed : State node r store → Services r.Db × Result ProcessedOcppMessage
    processed s = handle_message json r identity (from_utf8 payload) endpoint now s.services

    -- What the `try` leaves without a flush.
    abbrev pub responded :
        Services r.Db → ProcessedOcppMessage → State node r store → State node r store
    responded t p s = associated node r store identity p.station_id (
        send_text node socket p.reply (
          with_connections (update_activity t.connections identity now)
            (record s { services = t })))

    -- What `getContext` finds when the reply is sent, and the CALLs that follow the reply.
    abbrev pub known_station :
        Services r.Db → ProcessedOcppMessage → State node r store → Option String
    known_station t p s = station_of (get_context (responded t p s).services.connections identity)

    abbrev pub follow_up : Services r.Db → ProcessedOcppMessage → State node r store → List Output
    follow_up t p s =
        if p.flush_pending_messages
        then waiting_calls node r store socket now (known_station t p s) s.messages.memory_queues
        else []

    -- Of what the `try` leaves: it returned, and this was sent.
    abbrev pub HasSaid :
        State node r store → State node r store × Result (Unit {0}) → List Output → Type 0
    HasSaid s y said = (y.1 ≡ ok tt) × (y.0.output ≡ s.output ++ said)

    respond_choice :
        (b : Bool) (p : ProcessedOcppMessage) (t : Services r.Db) (s : State node r store)
        → p.flush_pending_messages ≡ b
        → respond node r store identity socket now p (record s { services = t })
          ≡ (if b
                then flush_queued_messages node r store (known_station t p s) socket now
                else pure tt)
              (responded t p s)
    unfolding send_text
    respond_choice b p t s e =
        ap
          (λ b.
            (if b
                then flush_queued_messages node r store (known_station t p s) socket now
                else pure tt)
              (responded t p s))
          e

    pub respond-HasSaid :
        (p : ProcessedOcppMessage) (t : Services r.Db) (s : State node r store)
        → IsReady s (ok p)
        → HasSaid s
            (respond node r store identity socket now p (record s { services = t }))
            (written socket (text_frame node p.reply) ∷ follow_up t p s)
    unfolding send_text
    respond-HasSaid p t s ready = elim (Bool-cases p.flush_pending_messages) [
      | inl b ↦
          let (offline, unique) = ready b in
          let (done, said) =
            flush_queued_messages-waiting_calls node r store socket now (known_station t p s)
              (responded t p s) offline unique in
          let choice = respond_choice true p t s b in
          (
            ap (λ y. y.1) choice ∙ done,
            ap (λ y. y.0.output) choice ∙ said ∙ append_assoc s.output _ _ ∙ follow true b,
          )
      | inr b ↦
          let choice = respond_choice false p t s b in
          (ap (λ y. y.1) choice, ap (λ y. y.0.output) choice ∙ follow false b)
    ]
      where
        follow :
            (b : Bool)
            → p.flush_pending_messages ≡ b
            → s.output
                ++ written socket (text_frame node p.reply)
                  ∷ (if b
                      then waiting_calls node r store socket now
                          (known_station t p s)
                          s.messages.memory_queues
                      else [])
              ≡ s.output ++ written socket (text_frame node p.reply) ∷ follow_up t p s
        follow b e =
            ap
              (λ b.
                s.output
                ++ written socket (text_frame node p.reply)
                  ∷ (if b
                      then waiting_calls node r store socket now (known_station t p s)
                          s.messages.memory_queues
                      else []))
              (sym e)
