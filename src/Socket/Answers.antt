-- ===== src/Socket/Answers.antt =====
-- What a station gets for a message.
use voltron_ocpp_protocols.Common.{
  ℕ, ◌^◌, ◌<◌, ◌≡◌, refl, ap, ◌∙◌, Bool, true, false, String, nat_eq, Option, none, some, List, [],
  ◌∷◌, ◌++◌, length, All, get, inl, inr, arith, Bool-cases,
}
use mathlib.Core.List.{append_assoc}
use voltron_ocpp_protocols.Errors.{Result, ok, err, Thrown}
use voltron_ocpp_protocols.Effect.{◌>>=◌}
use voltron_ocpp_protocols.Effect.Keeps.{>>=-ok}
use voltron_ocpp_protocols.Frame.{extract_frame}
use voltron_ocpp_protocols.Frame.Masked.{IsByte, client_frame, extract_frame-client_frame}
use voltron_ocpp_protocols.Messages.{MessageStore}
use voltron_ocpp_protocols.Station.State.{Runtime}
use voltron_ocpp_protocols.Ocpp.{Services, ProcessedOcppMessage, handle_message}
use voltron_ocpp_protocols.Socket.{
  Node, SocketContext, Output, written, destroyed, text_frame, close_frame, send_text,
  send_close_frame,
}
use voltron_ocpp_protocols.Socket.Reply.{
  State, ocpp, respond, answer, settle, refuse, refuse_with, build_call_error_payload, unique_id_of,
  call_error_value, on_text,
}
use voltron_ocpp_protocols.Socket.Loop.{on_frame, handle_frame}
use voltron_ocpp_protocols.Socket.Loop.Terminates.{Runs, starved, broken, continued}
use voltron_ocpp_protocols.Socket.Loop.Chunks.{handle_frame-stored}
use voltron_ocpp_protocols.Socket.Responses.{IsReady, processed, follow_up, respond-HasSaid}

module _ (node : Node) (r : Runtime) (store : MessageStore) where
  open node use {json, from_utf8}

  module _ (identity : String) (socket : ℕ) (payload : List ℕ) (endpoint : Option String)
      (now : ℕ) where
    -- The answer to a message: its CALLRESULT with the CALLs that follow, or a CALLERROR with its identifier,
    -- or, if it has none, the end of the connection.
    abbrev pub answers :
        State node r store
        → Services r.Db × Result ProcessedOcppMessage
        → Option String
        → List Output
    answers s (t, ok p) u =
        written socket (text_frame node p.reply)
        ∷ follow_up node r store identity socket payload endpoint now t p s
    answers s (t, err e) (some u) =
        written socket (text_frame node (json.stringify (call_error_value u e))) ∷ []
    answers s (t, err e) none =
        written socket (close_frame node 1011 (some "Protocol error")) ∷ destroyed socket ∷ []

    answer-ok :
        (p : ProcessedOcppMessage) (t : Services r.Db) (s : State node r store)
        → processed node r store identity socket payload endpoint now s ≡ (t, ok p)
        → answer node r store identity socket payload endpoint now s
          ≡ respond node r store identity socket now p (record s { services = t })
    unfolding answer
    answer-ok p t s e =
        >>=-ok (ocpp node r store (handle_message json r identity (from_utf8 payload) endpoint now))
          (respond node r store identity socket now)
          (ap (λ x. (record s { services = x.0 }, x.1)) e)

    answer-err :
        (e : Thrown) (t : Services r.Db) (s : State node r store)
        → processed node r store identity socket payload endpoint now s ≡ (t, err e)
        → answer node r store identity socket payload endpoint now s
          ≡ (record s { services = t }, err e)
    unfolding answer
    answer-err e t s h =
        ap
          (λ x.
            ◌>>=◌ (λ _. (record s { services = x.0 }, x.1))
              (respond node r store identity socket now) s)
          h

    goes_on : Result ProcessedOcppMessage → Option String → Bool
    goes_on (ok p) u = true
    goes_on (err e) (some u) = true
    goes_on (err e) none = false

    -- Of the state and the flag that are left: what was sent, and whether the loop goes on.
    abbrev IsAnswered :
        State node r store
        → State node r store × Bool
        → Services r.Db × Result ProcessedOcppMessage
        → Option String
        → Type 0
    IsAnswered s y x u = (y.0.output ≡ s.output ++ answers s x u) × (y.1 ≡ goes_on x.1 u)

    refuse-IsAnswered :
        (e : Thrown) (t : Services r.Db) (s : State node r store)
        → IsAnswered s
            (refuse node r store socket payload e (record s { services = t }))
            (t, err e)
            (unique_id_of (json.parse (from_utf8 payload)))
    unfolding refuse build_call_error_payload send_text send_close_frame goes_on
    refuse-IsAnswered e t s = chosen (unique_id_of (json.parse (from_utf8 payload)))
      where
        chosen :
            (u : Option String)
            → IsAnswered s
                (refuse_with node r store socket
                  (elim u [
                    | none ↦ none
                    | some unique_id ↦ some (json.stringify (call_error_value unique_id e))
                  ])
                  (record s { services = t }))
                (t, err e)
                u
        chosen none = (append_assoc s.output _ _, refl)
        chosen (some u) = (refl, refl)

    on_text-IsAnswered :
        (x : Result ProcessedOcppMessage) (t : Services r.Db) (s : State node r store)
        → processed node r store identity socket payload endpoint now s ≡ (t, x)
        → IsReady node r store s x
        → IsAnswered s
            (on_text node r store identity socket payload endpoint now s)
            (t, x)
            (unique_id_of (json.parse (from_utf8 payload)))
    unfolding on_text goes_on
    on_text-IsAnswered (ok p) t s e ready =
        let (done, said) =
          respond-HasSaid node r store identity socket payload endpoint now p t s ready in
        let w =
          ap (λ y. settle node r store socket payload y.0 y.1) (answer-ok p t s e)
          ∙ ap (settle node r store socket payload _) done in
        (ap (λ y. y.0.output) w ∙ said, ap (λ y. y.1) w)
    on_text-IsAnswered (err x) t s e ready =
        let w = ap (λ y. settle node r store socket payload y.0 y.1) (answer-err x t s e) in
        let (a, b) = refuse-IsAnswered x t s in (ap (λ y. y.0.output) w ∙ a, ap (λ y. y.1) w ∙ b)

  -- For a masked text frame that arrives on an open socket with nothing buffered, followed at most by the
  -- incomplete beginning of another frame, if the handler asks for no flush, or there is no database and no
  -- two buffered messages have one identifier, the output is exactly: the CALLRESULT that the handler returned
  -- and, if it asked for a flush, the CALLs that are pending for the station, in order; or, if the handler threw,
  -- the CALLERROR with the identifier of the message; or, if the message then has none, a close frame and the end
  -- of the connection. The mask and the payload are bytes, and the payload's length fits 64 bits. Nothing is
  -- said of a flush with a database.
  pub handle_frame-answers :
      (socket m₁ m₂ m₃ m₄ : ℕ) (payload rest : List ℕ) (endpoint : Option String) (now : ℕ)
      (s : State node r store) (c : SocketContext)
      → get s.contexts socket ≡ some c
      → c.buffer ≡ []
      → All IsByte (m₁ ∷ m₂ ∷ m₃ ∷ m₄ ∷ [])
      → All IsByte payload
      → length payload < 2 ^ 64
      → extract_frame rest ≡ none
      → IsReady node r store s (processed node r store c.identity socket payload endpoint now s).1
      → (handle_frame node r store socket
          (client_frame 1 m₁ m₂ m₃ m₄ payload ++ rest)
          endpoint
          now
          s).output
        ≡ s.output
          ++ answers c.identity socket payload endpoint now s
              (processed node r store c.identity socket payload endpoint now s)
              (unique_id_of (json.parse (from_utf8 payload)))
  unfolding on_frame
  handle_frame-answers socket m₁ m₂ m₃ m₄ payload rest endpoint now s c known idle mask_ok bytes_ok
        fits incomplete ready =
      let data' = client_frame 1 m₁ m₂ m₃ m₄ payload ++ rest in
      let done = on_text node r store c.identity socket payload endpoint now s in
      let read : extract_frame (c.buffer ++ data')
          ≡ some (record { fin = true; opcode = 1; payload = payload; remaining = rest }) =
        ap (λ b. extract_frame (b ++ data')) idle
        ∙ extract_frame-client_frame 1 m₁ m₂ m₃ m₄ payload rest (omega arith) mask_ok bytes_ok
            fits in
      let runs : Runs node r store socket c endpoint now (c.buffer ++ data') s (done.0, rest) =
        elim (Bool-cases done.1) [
          | inl b ↦ continued read b (starved incomplete)
          | inr b ↦ broken read b
        ] in
      ap (λ t. t.output) (handle_frame-stored node r store socket c endpoint now data' s known runs)
      ∙ (on_text-IsAnswered c.identity socket payload endpoint now _ _ s refl ready).0
