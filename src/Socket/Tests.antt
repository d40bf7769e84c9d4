-- ===== src/Socket/Tests.antt =====
-- The server of ocpp.websocket.ts on small input.
use voltron_ocpp_protocols.Common.{
  ℕ, ◌≡◌, refl, ◌↔◌, true, false, none, some, List, [], ◌∷◌, ◌++◌, set, nat_eq, arith, string_eq,
}
use voltron_ocpp_protocols.Errors.{err, unknown}
use voltron_ocpp_protocols.Json.{items, member, entry}
use voltron_ocpp_protocols.Messages.{view, MessageStore}
use voltron_ocpp_protocols.Messages.Sample.{message, store}
use voltron_ocpp_protocols.Messages.Queue.{pending_in}
use voltron_ocpp_protocols.Station.Sample.{runtime}
use voltron_ocpp_protocols.Station.Handlers.{boot_in_memory, handle_boot_notification}
use voltron_ocpp_protocols.Station.Events.{record_station_event}
use voltron_ocpp_protocols.Schemas.Parse.{parse_boot_notification}
use voltron_ocpp_protocols.Schemas.Guards.{ensure_object, ensure_string, ensure_optional_string}
use voltron_ocpp_protocols.Schemas.Timestamp.{is_blank}
use voltron_ocpp_protocols.Station.Promote.{get_or_create_memory_station}
use voltron_ocpp_protocols.Ocpp.{ProcessedOcppMessage, handle_message, handle_call, dispatch}
use voltron_ocpp_protocols.Socket.Reader as Reader
use voltron_ocpp_protocols.Socket.Reader.{
  Reader, new_reader, arrive, take_frame, IsInOrder, Reach-IsInOrder,
}
use voltron_ocpp_protocols.Frame.{
  Frame, extract_frame, payload_length, read_mask, split_at, unmask, build_frame, length_bytes,
}
use voltron_ocpp_protocols.Frame.Masked.{client_frame}
use voltron_ocpp_protocols.Socket.{text_frame, written, send_pong, send_text}
use voltron_ocpp_protocols.Connection.{get_context, associate_station, update_activity}
use voltron_ocpp_protocols.Socket.Upgrade.{
  accept, decide, segments_of, split, non_empty, identity_of, index_of, last_of,
  negotiate_sub_protocol, first_supported, trim, trim_end,
}
use voltron_ocpp_protocols.Socket.Upgrade.Acceptance.{IsAcceptable, decide_iff}
use voltron_ocpp_protocols.Socket.Reply.{
  State, on_text, call_error_value, call_value, flush_queued_messages,
}
use voltron_ocpp_protocols.Socket.Loop.{on_frame, handle_frame}
use voltron_ocpp_protocols.Socket.Loop.Terminates.{Runs, handle_frame-Runs}
use voltron_ocpp_protocols.Socket.Loop.Chunks.{Flows, waits, goes_on, handle_frame-append}
use voltron_ocpp_protocols.Socket.Events.{upgraded, received, closed, handle}
use voltron_ocpp_protocols.Socket.Events.Invariant.{fresh, next, IsWiredServer, Reach-IsWired}
use voltron_ocpp_protocols.Socket.Responses.{processed}
use voltron_ocpp_protocols.Socket.Answers.{answers, handle_frame-answers}
use voltron_ocpp_protocols.Socket.Twice.{on_text_answered_twice}
use voltron_ocpp_protocols.Socket.Flush.{IsFlushed, flush_queued_messages-IsFlushed}
use voltron_ocpp_protocols.Socket.Sample.{json, node, request, context, server, new_server}

decide_test : decide node request ≡ accept "CP-1" "dGhlIHNhbXBsZSBub25jZQ==" (some "ocpp1.6")
unfolding decide segments_of split non_empty identity_of index_of last_of negotiate_sub_protocol
    first_supported trim trim_end
decide_test = refl

decide_iff_example :
    (decide node request ≡ accept "CP-1" "dGhlIHNhbXBsZSBub25jZQ==" (some "ocpp1.6"))
    ↔ IsAcceptable
        (segments_of node request.url)
        request
        "CP-1"
        "dGhlIHNhbXBsZSBub25jZQ=="
        (some "ocpp1.6")
decide_iff_example = decide_iff node request "CP-1" "dGhlIHNhbXBsZSBub25jZQ==" (some "ocpp1.6")

-- A heartbeat.
abbrev beat : List ℕ
beat = client_frame 1 1 2 3 4 (b'x' ∷ [])

handle_frame-Runs_example :
    (t : State node runtime store × List ℕ) × Runs node runtime store 3 context none 9
      ([] ++ beat)
      (server false)
      t
    × ((t' : State node runtime store × List ℕ)
        → Runs node runtime store 3 context none 9 ([] ++ beat) (server false) t'
        → t' ≡ t)
    × (handle_frame node runtime store 3 beat none 9 (server false)
        ≡ record t.0 { contexts = set t.0.contexts 3 (record context { buffer = t.1 }) })
handle_frame-Runs_example =
    handle_frame-Runs node runtime store 3 beat none 9 (server false) context refl

-- A ping and the first byte of a heartbeat, and what is left when the ping is answered.
abbrev ping : List ℕ
ping = 0x89 ∷ 0x01 ∷ b'x' ∷ 0x81 ∷ []

abbrev ponged : State node runtime store × List ℕ
ponged = (record (server false) { output = written 3 (0x8a ∷ 0x01 ∷ b'x' ∷ []) ∷ [] }, 0x81 ∷ [])

abbrev ping_frame : Frame
ping_frame = record { fin = true; opcode = 9; payload = b'x' ∷ []; remaining = 0x81 ∷ [] }

ping-Flows : Flows node runtime store 3 context none 9 ([] ++ ping) (server false) ponged
unfolding extract_frame payload_length read_mask split_at unmask on_frame send_pong build_frame
    length_bytes
ping-Flows = goes_on {f = ping_frame} refl refl (waits refl)

handle_frame-append_example :
    handle_frame node runtime store 3 beat none 9
      (handle_frame node runtime store 3 ping none 9 (server false))
    ≡ handle_frame node runtime store 3 (ping ++ beat) none 9 (server false)
handle_frame-append_example =
    handle_frame-append node runtime store 3 ping beat none 9 (server false) context ponged refl
      ping-Flows

-- CP-1 connects, and its socket closes.
abbrev life : State node runtime store
life = handle node runtime store (closed 3 12) (
    handle node runtime store (received 3 ping 11)
      (handle node runtime store (upgraded 3 request 10) new_server))

Reach-IsWired_example : IsWiredServer node runtime store life
Reach-IsWired_example = Reach-IsWired node runtime store (
    next (closed 3 12)
      (next (received 3 ping 11)
        (next (upgraded 3 request 10) (fresh {s = new_server} refl refl) refl) tt)
      tt)

-- A BootNotification, while a message waits for the station and there is no database.
abbrev booting : State node runtime store
booting = record (server false) {
  messages = record (server false).messages { memory_queues = ("station", message "a" ∷ []) ∷ [] };
}

boot_answered :
    answers node runtime store "CP-1" 3
      (b'x' ∷ b'y' ∷ [])
      none
      9
      booting
      (processed node runtime store "CP-1" 3 (b'x' ∷ b'y' ∷ []) none 9 booting)
      (some "7")
    ≡ written 3 (text_frame node "reply")
      ∷ written 3 (text_frame node (json.stringify (call_value (view (message "a")))))
      ∷ []
unfolding handle_message handle_call dispatch items parse_boot_notification ensure_object
    ensure_string member entry is_blank ensure_optional_string handle_boot_notification
    record_station_event get_context associate_station send_text update_activity boot_in_memory
    get_or_create_memory_station
boot_answered = refl

handle_frame-answers_example :
    (handle_frame node runtime store 3
      (client_frame 1 1 2 3 4 (b'x' ∷ b'y' ∷ []) ++ 0x81 ∷ [])
      none
      9
      booting).output
    ≡ []
      ++ answers node runtime store "CP-1" 3
          (b'x' ∷ b'y' ∷ [])
          none
          9
          booting
          (processed node runtime store "CP-1" 3 (b'x' ∷ b'y' ∷ []) none 9 booting)
          (some "7")
unfolding handle_message handle_call dispatch items parse_boot_notification ensure_object
    ensure_string member entry is_blank ensure_optional_string handle_boot_notification
    record_station_event extract_frame boot_in_memory get_or_create_memory_station
handle_frame-answers_example =
    handle_frame-answers node runtime store 3 1 2 3 4 (b'x' ∷ b'y' ∷ []) (0x81 ∷ []) none 9 booting
      context refl refl (omega arith) (omega arith) (omega arith) refl
      (λ flush. (refl, ((refl, tt), (λ id e. cc), tt)))

flush_queued_messages-IsFlushed_example :
    IsFlushed node runtime store 3 9 "CP-1"
      (pending_in (server false).messages.memory_queues "CP-1" 9)
      (server false)
      (flush_queued_messages node runtime store (some "CP-1") 3 9 (server false))
flush_queued_messages-IsFlushed_example =
    flush_queued_messages-IsFlushed node runtime store 3 9 "CP-1" (server false) refl refl
      (tt, (λ id e. refl), ((refl, (refl, tt)), (λ id e. cc), tt))

-- The table of messages cannot be read.
abbrev locked : MessageStore
locked = record store { find_pending = λ station now n. (n, err unknown) }

abbrev boot_result : ProcessedOcppMessage
boot_result = record { reply = "reply"; station_id = some "new"; flush_pending_messages = true }

on_text_answered_twice_example :
    (on_text node runtime locked "CP-1" 3 (1 ∷ 2 ∷ []) none 9 (server true)).0.output
    ≡ []
      ++ written 3 (text_frame node "reply")
        ∷ written 3 (text_frame node (json.stringify (call_error_value "7" unknown)))
        ∷ []
unfolding handle_message handle_call dispatch items parse_boot_notification ensure_object
    ensure_string member entry is_blank ensure_optional_string handle_boot_notification
    record_station_event get_context associate_station send_text update_activity
on_text_answered_twice_example =
    on_text_answered_twice node runtime locked "CP-1" 3 (1 ∷ 2 ∷ []) none 9
      (processed node runtime locked "CP-1" 3 (1 ∷ 2 ∷ []) none 9 (server true)).0 boot_result
      (server true) "new" "7" unknown refl refl refl
      (record { named = refl; online = refl; throws = refl }) refl

-- A heartbeat arrives in two chunks behind a ping, which is taken in between.
abbrev read_twice : Reader
read_twice = arrive beat (take_frame ping_frame (arrive ping new_reader))

read_twice-Reach : Reader.Reach read_twice
unfolding extract_frame payload_length read_mask split_at unmask
read_twice-Reach =
    Reader.next
      (Reader.next (Reader.next Reader.here (Reader.arrived ping)) (Reader.took ping_frame refl))
      (Reader.arrived beat)

Reach-IsInOrder_example : IsInOrder read_twice
Reach-IsInOrder_example = Reach-IsInOrder read_twice-Reach
