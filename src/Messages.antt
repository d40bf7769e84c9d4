-- ===== src/Messages.antt =====
-- `StationMessageService` of src/modules/ocpp/services/station-message.service.ts: the queues of outgoing
-- CALLs, in memory while there is no database. A moment is the number of its milliseconds.
pub mod Queue
pub mod Pending
pub mod Draining
pub mod Refinement
pub mod Sample
mod Tests
use voltron_ocpp_protocols.Common.{
  ℕ, suc, Bool, true, false, not, String, ◌==◌, leb, if◌then◌else◌, Option, none, some, or_else,
  List, [], ◌∷◌, ◌++◌, map, get, set, string_eq,
}
use voltron_ocpp_protocols.Json.{Number, Value, number_text}
use voltron_ocpp_protocols.Errors.{Result, ok, err, Thrown, call_error, error, unknown}
pub use voltron_ocpp_protocols.Effect.{pure, throw, ◌>>=◌, ◌>>◌, read, modify, lift}
use voltron_ocpp_protocols.Effect.{Effect}

pub data MessageStatus : Type 0 where
  pending dispatched failed : MessageStatus

-- `bigint | string`
pub data MessageId : Type 0 where
  big : Number → MessageId
  text : String → MessageId

pub record QueueMessageInput : Type 0 where
  pub station_id : String
  pub action : String
  pub payload : Value
  pub transaction_id : Option Number
  pub available_at : Option ℕ
  pub unique_id : Option String

-- `errorDetails` is the text of its only field, `error`.
pub record MemoryMessage : Type 0 where
  pub id : String
  pub station_id : String
  pub action : String
  pub payload : Value
  pub unique_id : String
  pub status : MessageStatus
  pub available_at : Option ℕ
  pub sent_at : Option ℕ
  pub error_details : Option String

-- What the caller reads of a message, buffered or stored.
pub record QueuedMessage : Type 0 where
  pub id : MessageId
  pub unique_id : String
  pub action : String
  pub payload : Value

abbrev pub Query : Type 0 → Type 0 → Type 0
Query Db A = Db → Db × Result A

-- What the service calls: the table of messages, `uuid()`, `BigInt(text)`, and `String(error)` of a
-- thrown value that is no `Error`.
pub record MessageStore : Type 1 where
  pub Db : Type 0
  pub create_message : QueueMessageInput → String → Query Db QueuedMessage
  pub find_pending : String → ℕ → Query Db (List QueuedMessage)
  pub set_dispatched : Number → ℕ → Query Db (Unit {0})
  pub set_failed : Number → String → Query Db (Unit {0})
  pub uuid : ℕ → String
  pub big_int : String → Result Number
  pub unknown_text : String

pub record MessageService (Db : Type 0) : Type 0 where
  pub memory_queues : List (String × List MemoryMessage)
  pub connected : Bool
  pub uuids : ℕ
  pub db : Db

abbrev pub view : MemoryMessage → QueuedMessage
view m = record { id = text m.id; unique_id = m.unique_id; action = m.action; payload = m.payload }

-- The test of `queue.filter`.
abbrev pub is_ready : ℕ → MemoryMessage → Bool
is_ready now m = elim m.status [
  | pending ↦ elim m.available_at [ none ↦ true | some at ↦ leb at now ]
  | dispatched ↦ false
  | failed ↦ false
]

abbrev pub keep : (MemoryMessage → Bool) → List MemoryMessage → List MemoryMessage
keep p [] = []
keep p (m ∷ ms) = if p m then m ∷ keep p ms else keep p ms

-- `this.memoryQueues.get(stationId) ?? []`
abbrev pub queue_of : List (String × List MemoryMessage) → String → List MemoryMessage
queue_of queues station_id = or_else (get queues station_id) []

-- `queue.find(item => item.id === id)`, with the change of the message that it finds; `none` where it
-- finds none.
unfoldable pub change_in :
    String → (MemoryMessage → MemoryMessage) → List MemoryMessage → Option (List MemoryMessage)
change_in id f [] = none
change_in id f (m ∷ ms) =
    let rest = change_in id f ms in
    if m.id == id then some (f m ∷ ms) else elim rest [ none ↦ none | some ms' ↦ some (m ∷ ms') ]

-- The loop over `memoryQueues.values()`, which ends at the first queue that holds the message.
unfoldable pub change_message :
    String
    → (MemoryMessage → MemoryMessage)
    → List (String × List MemoryMessage)
    → List (String × List MemoryMessage)
change_message id f [] = []
change_message id f ((station, queue) ∷ rest) =
    let rest' = change_message id f rest in
    elim (change_in id f queue) [
      | none ↦ (station, queue) ∷ rest'
      | some queue' ↦ (station, queue') ∷ rest
    ]

-- `typeof messageId === 'string' ? messageId : messageId.toString()`
abbrev pub id_text : MessageId → String
id_text (big n) = number_text n
id_text (text t) = t

module _ (store : MessageStore) where
  open store use {
    Db, create_message, find_pending, set_dispatched, set_failed, uuid, big_int, unknown_text,
  }

  abbrev pub M : Type 0 → Type 0
  M A = Effect (MessageService Db) A

  abbrev pub query : {A : Type 0} → Query Db A → M A
  query q s = (record s { db = (q s.db).0 }, (q s.db).1)

  abbrev pub use_fallback : MessageService Db → Bool
  use_fallback s = not s.connected

  -- `uuid()`
  abbrev pub fresh : M String
  fresh s = (record s { uuids = suc s.uuids }, ok (uuid s.uuids))

  -- `input.uniqueId ?? uuid()`
  abbrev pub unique_id_of : Option String → M String
  unique_id_of none = fresh
  unique_id_of (some u) = pure u

  abbrev pub new_message : String → String → QueueMessageInput → MemoryMessage
  new_message id unique_id input = record {
    id = id;
    station_id = input.station_id;
    action = input.action;
    payload = input.payload;
    unique_id = unique_id;
    status = pending;
    available_at = input.available_at;
    sent_at = none;
    error_details = none;
  }

  -- `queue.push(message)` and `memoryQueues.set`
  abbrev pub push : MemoryMessage → MessageService Db → MessageService Db
  push m s = record s {
    memory_queues =
        set s.memory_queues m.station_id (queue_of s.memory_queues m.station_id ++ (m ∷ []));
  }

  -- `enqueueMessage` without a database
  abbrev pub enqueue_in_memory : QueueMessageInput → String → M QueuedMessage
  enqueue_in_memory input unique_id s =
      let message = new_message (uuid s.uuids) unique_id input in
      (push message (record s { uuids = suc s.uuids }), ok (view message))

  unfoldable pub enqueue_message : QueueMessageInput → M QueuedMessage
  enqueue_message input = do
    unique_id ← unique_id_of input.unique_id
    s ← read
    if use_fallback s
        then enqueue_in_memory input unique_id
        else query (create_message input unique_id)

  unfoldable pub list_pending_messages : String → ℕ → M (List QueuedMessage)
  list_pending_messages station_id now = do
    s ← read
    if use_fallback s
        then pure (map view (keep (is_ready now) (queue_of s.memory_queues station_id)))
        else query (find_pending station_id now)

  -- `typeof messageId === 'string' ? BigInt(messageId) : messageId`
  abbrev pub stored_id : MessageId → Result Number
  stored_id (big n) = ok n
  stored_id (text t) = big_int t

  abbrev pub error_text : Thrown → String
  error_text (call_error code message) = message
  error_text (error message) = message
  error_text unknown = unknown_text

  abbrev pub change_in_memory : MessageId → (MemoryMessage → MemoryMessage) → M (Unit {0})
  change_in_memory id f s =
      (record s { memory_queues = change_message (id_text id) f s.memory_queues }, ok tt)

  abbrev pub dispatch_at : ℕ → MemoryMessage → MemoryMessage
  dispatch_at now m = record m { status = dispatched; sent_at = some now }

  abbrev pub fail_with : Thrown → MemoryMessage → MemoryMessage
  fail_with e m = record m { status = failed; error_details = some (error_text e) }

  unfoldable pub mark_as_dispatched : MessageId → ℕ → M (Unit {0})
  mark_as_dispatched id now = do
    s ← read
    if use_fallback s
        then change_in_memory id (dispatch_at now)
        else (do n ← lift (stored_id id); query (set_dispatched n now))

  unfoldable pub mark_as_failed : MessageId → Thrown → M (Unit {0})
  mark_as_failed id e = do
    s ← read
    if use_fallback s
        then change_in_memory id (fail_with e)
        else (do n ← lift (stored_id id); query (set_failed n (error_text e)))
