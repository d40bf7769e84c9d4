-- ===== src/Messages/Refinement.antt =====
-- An abstract view of `StationMessageService` without a database: for each station the messages that wait,
-- in order. What is kept of a message, the queues of other moments and the order of the map are forgotten.
pub mod Removal
pub mod Pushes
pub mod Simulation
use voltron_ocpp_protocols.Common.{
  ℕ, suc, Bool, true, false, String, ◌==◌, string_eq, leb, if◌then◌else◌, Option, none, some, List,
  [], ◌∷◌, ◌++◌,
}
use voltron_ocpp_protocols.Errors.{Thrown}
use voltron_ocpp_protocols.Messages.{
  QueuedMessage, QueueMessageInput, MessageId, text, id_text, MessageStore, MessageService,
  enqueue_message, mark_as_dispatched, mark_as_failed,
}

-- The calls that change the queues.
pub data Command : Type 0 where
  enqueue : QueueMessageInput → Command
  dispatch : MessageId → ℕ → Command
  fail : MessageId → Thrown → Command

-- What waits for each station, and how many identifiers were drawn.
pub record Waiting : Type 0 where
  pub waiting : String → List QueuedMessage
  pub drawn : ℕ

-- Without the messages of an identifier.
abbrev pub without : String → List QueuedMessage → List QueuedMessage
without id [] = []
without id (v ∷ vs) = if id_text v.id == id then without id vs else v ∷ without id vs

-- A message is available at a moment.
abbrev pub is_available : ℕ → Option ℕ → Bool
is_available now available_at = elim available_at [ none ↦ true | some at ↦ leb at now ]

-- The number of the identifier that a new message gets: the first of the supply is its unique one, if it
-- brings none.
abbrev pub place : Option String → ℕ → ℕ
place none n = suc n
place (some u) n = n

module _ (store : MessageStore) where
  abbrev pub unique_for : Option String → ℕ → String
  unique_for none n = store.uuid n
  unique_for (some u) n = u

  -- The message that a queueing makes.
  abbrev pub entry : QueueMessageInput → ℕ → QueuedMessage
  entry input n = record {
    id = text (store.uuid (place input.unique_id n));
    unique_id = unique_for input.unique_id n;
    action = input.action;
    payload = input.payload;
  }

module _ (store : MessageStore) (now : ℕ) where
  -- What a command does to what waits at the moment: a new message is behind the others of its station, if it
  -- is available, and one that is dispatched or has failed is gone.
  abbrev pub after : Command → Waiting → Waiting
  after (enqueue input) w = record {
    waiting = λ station.
        w.waiting station
        ++ (if input.station_id == station
            then (if is_available now input.available_at
                then entry store input w.drawn ∷ []
                else [])
            else []);
    drawn = suc (place input.unique_id w.drawn);
  }
  after (dispatch id moment) w = record w {
    waiting = λ station. without (id_text id) (w.waiting station);
  }
  after (fail id e) w = record w { waiting = λ station. without (id_text id) (w.waiting station) }

  unfoldable pub after_all : List Command → Waiting → Waiting
  after_all [] w = w
  after_all (c ∷ cs) w = after_all cs (after c w)

  -- The commands on the service.
  abbrev pub perform : Command → MessageService store.Db → MessageService store.Db
  perform (enqueue input) s = (enqueue_message store input s).0
  perform (dispatch id moment) s = (mark_as_dispatched store id moment s).0
  perform (fail id e) s = (mark_as_failed store id e s).0

  unfoldable pub perform_all : List Command → MessageService store.Db → MessageService store.Db
  perform_all [] s = s
  perform_all (c ∷ cs) s = perform_all cs (perform c s)
