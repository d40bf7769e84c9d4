-- ===== src/Messages/Tests.antt =====
-- The queues of station-message.service.ts on small services.
use voltron_ocpp_protocols.Common.{
  zero, suc, ap, List, ℕ, String, ◌≡◌, refl, none, some, [], ◌∷◌, ◌++◌, ◌==◌, leb, if◌then◌else◌,
  string_eq,
}
use voltron_ocpp_protocols.Json.{null}
use voltron_ocpp_protocols.Errors.{ok, error}
use voltron_ocpp_protocols.Messages.{
  MessageStore, MessageService, text, QueueMessageInput, view, enqueue_message,
  list_pending_messages, mark_as_dispatched, mark_as_failed,
}
use Prim.Native.String.{◌∷◌}
use voltron_ocpp_protocols.Messages.Refinement.{
  entry, Command, enqueue, dispatch, after_all, perform_all,
}
use voltron_ocpp_protocols.Messages.Refinement.Simulation.{list_pending_messages-after_all}
use voltron_ocpp_protocols.Messages.Sample.{message, store, service}
use voltron_ocpp_protocols.Messages.Queue.{pending_in}
use voltron_ocpp_protocols.Messages.Pending.{
  list_pending_messages-mark_as_dispatched, list_pending_messages-mark_as_failed,
  list_pending_messages-enqueue_message,
}

abbrev input : QueueMessageInput
input = record {
  station_id = "CP-1";
  action = "Reset";
  payload = null;
  transaction_id = none;
  available_at = some 50;
  unique_id = none;
}

list_pending_messages-mark_as_dispatched_example :
    ((mark_as_dispatched store (text "a") 8 service).1 ≡ ok tt)
    × ((list_pending_messages store "CP-1" 9 (mark_as_dispatched store (text "a") 8 service).0).1
        ≡ ok (view (message "b") ∷ []))
list_pending_messages-mark_as_dispatched_example =
    list_pending_messages-mark_as_dispatched store (text "a") 8 9 "CP-1" service refl

list_pending_messages-mark_as_failed_example :
    ((mark_as_failed store (text "b") (error "closed") service).1 ≡ ok tt)
    × ((list_pending_messages store "CP-1" 9
          (mark_as_failed store (text "b") (error "closed") service).0).1
        ≡ ok (view (message "a") ∷ []))
list_pending_messages-mark_as_failed_example =
    list_pending_messages-mark_as_failed store (text "b") (error "closed") 9 "CP-1" service refl

list_pending_messages-enqueue_message_example :
    ((enqueue_message store input service).1 ≡ ok (entry store input service.uuids))
    × ((station : String) (now : ℕ)
        → (list_pending_messages store station now (enqueue_message store input service).0).1
          ≡ ok (
              pending_in service.memory_queues station now
              ++ (if "CP-1" == station
                  then (if leb 50 now then entry store input service.uuids ∷ [] else [])
                  else [])))
list_pending_messages-enqueue_message_example =
    list_pending_messages-enqueue_message store input service refl

-- A supply of identifiers that never repeats.
abbrev unary : ℕ → String
unary zero = ""
unary (suc n) = "x" ∷ unary n

unary_inj : (a b : ℕ) → unary a ≡ unary b → a ≡ b
unary_inj zero zero e = refl
unary_inj zero (suc b) e = cc
unary_inj (suc a) zero e = cc
unary_inj (suc a) (suc b) e = ap suc (unary_inj a b (cc))

abbrev supplied : MessageStore
supplied = record store { uuid = unary }

abbrev empty : MessageService ℕ
empty = record service { memory_queues = [] }

-- Two messages are queued, and the first is dispatched.
abbrev commands : List Command
commands = enqueue input ∷ enqueue input ∷ dispatch (text "x") 60 ∷ []

commands_leave_one :
    (after_all supplied 70 commands (record { waiting = λ station. []; drawn = 0 })).waiting "CP-1"
    ≡ record { id = text "xxx"; unique_id = "xx"; action = "Reset"; payload = null } ∷ []
unfolding after_all
commands_leave_one = refl

list_pending_messages-after_all_example :
    (list_pending_messages supplied "CP-1" 70 (perform_all supplied 70 commands empty)).1
    ≡ ok (
        (after_all supplied 70 commands (record { waiting = λ station. []; drawn = 0 })).waiting
          "CP-1")
list_pending_messages-after_all_example =
    list_pending_messages-after_all supplied 70 unary_inj commands empty "CP-1" refl refl
