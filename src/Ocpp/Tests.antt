-- ===== src/Ocpp/Tests.antt =====
-- The messages of ocpp.service.ts, with a `JSON.parse` that reads one fixed text.
use voltron_ocpp_protocols.Common.{
  ℕ, string_eq, false, String, ◌≡◌, refl, ◌==◌, if◌then◌else◌, none, some,
}
use voltron_ocpp_protocols.Json.{
  Value, num, nat, str, arr, obj, no_fields, item, no_items, items, number_eq,
}
use voltron_ocpp_protocols.Errors.{err, error}
use voltron_ocpp_protocols.Connection.{empty}
use voltron_ocpp_protocols.Station.Sample.{runtime, service}
use voltron_ocpp_protocols.Station.Handlers.{handle_heartbeat, touch_in_memory, heartbeat_in_memory}
use voltron_ocpp_protocols.Station.Promote.{get_or_create_memory_station}
use voltron_ocpp_protocols.Ocpp.{
  JsonText, Services, Message, ProcessedOcppMessage, handle_message, handle_call, dispatch,
}
use voltron_ocpp_protocols.Ocpp.Refusals.{check_payload, handle_message-refused}
use voltron_ocpp_protocols.Ocpp.Replies.{request_of, Request, handle_message-Request}

-- The value of "call", a CALL of the action.
abbrev call : String → Value
call action =
    arr (
      item (num (nat 2))
        (item (str "19223201") (item (str action) (item (obj no_fields) no_items))))

-- A text that tells the replies to two requests apart.
abbrev echo : Value → String
echo (arr (item _ (item (str u) _))) = u
echo _ = ""

abbrev json : String → JsonText
json action = record {
  parse = λ t. if t == "call" then some (call action) else none;
  stringify = echo;
}

abbrev services : Services ℕ
services = record { stations = service false; connections = empty }

handle_message-refused_example :
    handle_message (json "Reset") runtime "CP-1" "call" none 9 services
    ≡ (services, err (error "NotImplemented"))
unfolding check_payload items
handle_message-refused_example =
    handle_message-refused (json "Reset") runtime "CP-1" "call" none 9 services
      (error "NotImplemented") refl

-- The answer to a heartbeat.
abbrev answer : ProcessedOcppMessage
answer = record { reply = "19223201"; station_id = none; flush_pending_messages = false }

handle_message-Request_example :
    (m : Message) × (request_of (json "Heartbeat") runtime (some (call "Heartbeat")) ≡ some m)
    × Request (json "Heartbeat") runtime m answer
unfolding handle_message handle_call dispatch items handle_heartbeat touch_in_memory
    heartbeat_in_memory get_or_create_memory_station
handle_message-Request_example =
    handle_message-Request (json "Heartbeat") runtime "CP-1" "call" none 9 services answer refl
