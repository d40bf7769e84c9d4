-- ===== src/Socket/Reply.antt =====
-- What the server does with a message: `flushQueuedMessages`, `resolveError`, `buildCallErrorPayload`, and the
-- `try` and `catch` of `handleFrame`.
use voltron_ocpp_protocols.Common.{
  ℕ, Bool, true, false, String, ◌==◌, string_eq, if◌then◌else◌, Option, none, some, List, [], ◌∷◌,
}
use voltron_ocpp_protocols.Json.{Value, nat, num, str, arr, obj, no_fields, item, no_items, items}
use voltron_ocpp_protocols.Errors.{Result, ok, err, Thrown, call_error, error, unknown}
use voltron_ocpp_protocols.Effect.{Effect, pure, ◌>>=◌, ◌>>◌, modify}
use voltron_ocpp_protocols.Connection.{
  ConnectionManager, associate_station, update_activity, get_context, station_of,
}
use voltron_ocpp_protocols.Messages as Queues
use voltron_ocpp_protocols.Messages.{
  MessageStore, QueuedMessage, list_pending_messages, mark_as_dispatched, mark_as_failed,
}
use voltron_ocpp_protocols.Station.State.{Runtime}
use voltron_ocpp_protocols.Ocpp.{ProcessedOcppMessage, Ocpp, handle_message}
use voltron_ocpp_protocols.Socket.{
  Node, Server, destroyed, emit, with_connections, send_text, send_close_frame,
}

-- `try`, what follows it, and `catch`.
abbrev pub attempt :
    {S A B : Type 0} → Effect S A → (A → Effect S B) → (Thrown → Effect S B) → Effect S B
attempt m k h s = elim (m s).1 [ ok a ↦ k a (m s).0 | err e ↦ h e (m s).0 ]

-- `resolveError`: the code and the description. The details are `{}`.
unfoldable pub resolve_error : Thrown → String × String
resolve_error (call_error code message) = (code, message)
resolve_error (error message) =
    if message == "FormationViolation"
    then ("FormationViolation", "Message is not valid JSON")
    else if message == "ProtocolError"
    then ("ProtocolError", "Message is not a valid CALL")
    else if message == "NotSupported"
    then ("NotSupported", "Only CALL messages are supported")
    else if message == "NotImplemented"
    then ("NotImplemented", "Requested OCPP action is not supported")
    else ("InternalError", message)
resolve_error unknown = ("InternalError", "Unknown error")

-- `parsed[1]`, if it is a text of an array; an empty one is none.
abbrev second_text : List Value → Option String
second_text (first ∷ str t ∷ _) = if t == "" then none else some t
second_text _ = none

abbrev pub unique_id_of : Option Value → Option String
unique_id_of (some (arr vs)) = second_text (items vs)
unique_id_of _ = none

-- The CALLERROR of an error, and the CALL of a message.
abbrev pub call_error_value : String → Thrown → Value
call_error_value unique_id e =
    let (code, description) = resolve_error e in
    arr (
      item (num (nat 4)) (
        item (str unique_id)
          (item (str code) (item (str description) (item (obj no_fields) no_items)))))

abbrev pub call_value : QueuedMessage → Value
call_value m =
    arr
      (item (num (nat 2)) (item (str m.unique_id) (item (str m.action) (item m.payload no_items))))

abbrev pub associate_result : ConnectionManager → String → Option String → ConnectionManager
associate_result m identity none = m
associate_result m identity (some station) =
    if station == "" then m else associate_station m identity station

module _ (node : Node) (r : Runtime) (store : MessageStore) where
  open node use {json, from_utf8}

  abbrev pub State : Type 0
  State = Server r.Db store.Db

  abbrev pub Work : Type 0 → Type 0
  Work A = Effect State A

  -- A call of `StationMessageService`, and one of `OcppService`.
  abbrev pub messages : {A : Type 0} → Queues.M store A → Work A
  messages m s = (record s { messages = (m s.messages).0 }, (m s.messages).1)

  abbrev pub ocpp : {A : Type 0} → Ocpp json r A → Work A
  ocpp m s = (record s { services = (m s.services).0 }, (m s.services).1)

  -- The `try` of the loop over `pending`.
  abbrev pub send_queued : ℕ → ℕ → QueuedMessage → Work (Unit {0})
  send_queued socket now m = do
    modify (send_text node socket (json.stringify (call_value m)))
    messages (mark_as_dispatched store m.id now)

  unfoldable pub send_each : ℕ → ℕ → List QueuedMessage → Work (Unit {0})
  send_each socket now [] = pure tt
  send_each socket now (m ∷ ms) =
      attempt (send_queued socket now m) (λ _. send_each socket now ms)
        (λ e. messages (mark_as_failed store m.id e))

  unfoldable pub flush_queued_messages : Option String → ℕ → ℕ → Work (Unit {0})
  flush_queued_messages none socket now = pure tt
  flush_queued_messages (some station) socket now = if station == "" then pure tt else (do
    pending ← messages (list_pending_messages store station now)
    send_each socket now pending)

  -- `buildCallErrorPayload`
  unfoldable pub build_call_error_payload : String → Thrown → Option String
  build_call_error_payload raw e = elim (unique_id_of (json.parse raw)) [
    | none ↦ none
    | some unique_id ↦ some (json.stringify (call_error_value unique_id e))
  ]

  -- `if (result.stationId) …`
  abbrev pub associated : String → Option String → State → State
  associated identity station s =
      with_connections (associate_result s.services.connections identity station) s

  -- `this.connectionManager.getContext(context.identity)?.stationId`
  abbrev pub refreshed_station : String → Work (Option String)
  refreshed_station identity s = (s, ok (station_of (get_context s.services.connections identity)))

  -- What follows `handleMessage` in the `try`.
  abbrev pub respond : String → ℕ → ℕ → ProcessedOcppMessage → Work (Unit {0})
  respond identity socket now result = do
    modify (λ s. with_connections (update_activity s.services.connections identity now) s)
    modify (send_text node socket result.reply)
    modify (associated identity result.station_id)
    station ← refreshed_station identity
    if result.flush_pending_messages then flush_queued_messages station socket now else pure tt

  -- The `try` of `handleFrame`.
  unfoldable pub answer : String → ℕ → List ℕ → Option String → ℕ → Work (Unit {0})
  answer identity socket payload endpoint now = do
    result ← ocpp (handle_message json r identity (from_utf8 payload) endpoint now)
    respond identity socket now result

  -- The `catch` of `handleFrame`: with a CALLERROR the loop goes on, without one it ends.
  abbrev pub refuse_with : ℕ → Option String → State → State × Bool
  refuse_with socket none s =
      (emit (destroyed socket) (send_close_frame node socket 1011 (some "Protocol error") s), false)
  refuse_with socket (some text) s = (send_text node socket text s, true)

  unfoldable pub refuse : ℕ → List ℕ → Thrown → State → State × Bool
  refuse socket payload e s = refuse_with socket (build_call_error_payload (from_utf8 payload) e) s

  -- The end of the `try`, from what it changed and whether it threw.
  abbrev pub settle : ℕ → List ℕ → State → Result (Unit {0}) → State × Bool
  settle socket payload t (ok _) = (t, true)
  settle socket payload t (err e) = refuse socket payload e t

  unfoldable pub on_text : String → ℕ → List ℕ → Option String → ℕ → State → State × Bool
  on_text identity socket payload endpoint now s =
      let done = answer identity socket payload endpoint now s in
      settle socket payload done.0 done.1
