-- ===== src/Socket/Events.antt =====
-- What happens to the server: `onModuleInit`, the handlers of a socket, and the end. A handler runs to its end
-- before another event; where a flush that nothing waits for throws, its promise is rejected.
pub mod Derived
pub mod Handled
pub mod Frames
pub mod Wiring
pub mod Invariant
use voltron_ocpp_protocols.Common.{
  ℕ, Bool, true, false, String, Option, none, some, or_else, List, [], ◌∷◌, get, set, nat_eq,
  if◌then◌else◌,
}
use voltron_ocpp_protocols.Connection.{
  register_connection, mark_disconnected, on_application_shutdown,
}
use voltron_ocpp_protocols.Messages.{MessageStore}
use voltron_ocpp_protocols.Station.State.{Runtime}
use voltron_ocpp_protocols.Effect.{pure}
use voltron_ocpp_protocols.Socket.{
  Node, Server, SocketContext, text_written, destroyed, emit, with_connections, close_all,
}
use voltron_ocpp_protocols.Socket.Upgrade.{
  Request, Decision, not_found, bad_request, accept, decide, response,
}
use voltron_ocpp_protocols.Socket.Reply.{State, Work, flush_queued_messages}
use voltron_ocpp_protocols.Socket.Loop.{handle_frame}

module _ (node : Node) (r : Runtime) (store : MessageStore) where
  -- `registerSocket` before the flush: the context of the socket, and `registerConnection`, with the close of
  -- the connection that it replaces.
  unfoldable pub open_connection :
      String → ℕ → Option String → ℕ → State node r store → State node r store
  open_connection identity socket endpoint now s =
      let (m, closes, _) = register_connection s.services.connections identity socket now in
      close_all node closes (
        with_connections m (record s {
          contexts = set s.contexts socket (record {
            identity = identity;
            buffer = [];
            connection = socket;
            endpoint = endpoint;
          });
        }))

  -- `registerSocket`
  unfoldable pub register_socket : String → ℕ → Option String → ℕ → Work node r store (Unit {0})
  unfolding open_connection
  register_socket identity socket endpoint now s =
      let (_, _, context) = register_connection s.services.connections identity socket now in
      flush_queued_messages node r store context.station_id socket now
        (open_connection identity socket endpoint now s)

  -- A status line, and `destroy()`.
  abbrev refuse_upgrade : ℕ → String → State node r store → State node r store
  refuse_upgrade socket line s = emit (destroyed socket) (emit (text_written socket line) s)

  abbrev pub decided : Decision → ℕ → Request → ℕ → Work node r store (Unit {0})
  decided not_found socket request now s =
      pure tt (refuse_upgrade socket "HTTP/1.1 404 Not Found\r\n\r\n" s)
  decided bad_request socket request now s =
      pure tt (refuse_upgrade socket "HTTP/1.1 400 Bad Request\r\n\r\n" s)
  decided (accept identity key protocol) socket request now s =
      register_socket identity socket request.url now
        (emit (text_written socket (response node key protocol)) s)

  unfoldable pub handle_upgrade : ℕ → Request → ℕ → Work node r store (Unit {0})
  handle_upgrade socket request now = decided (decide node request) socket request now

  -- The listeners for `close` and `error`.
  unfoldable pub on_close : ℕ → ℕ → State node r store → State node r store
  on_close socket now s = with_connections (mark_disconnected s.services.connections socket now) s

  unfoldable pub on_error : ℕ → ℕ → State node r store → State node r store
  on_error socket now s = emit (destroyed socket) (on_close socket now s)

  unfoldable pub on_module_init : State node r store → State node r store
  on_module_init s = record s { listening = true }

  unfoldable pub on_shutdown : State node r store → State node r store
  on_shutdown s = record s { listening = false }

  -- `onApplicationShutdown` of the `ConnectionManager`.
  unfoldable pub on_manager_shutdown : State node r store → State node r store
  on_manager_shutdown s =
      let (m, closes) = on_application_shutdown s.services.connections in
      close_all node closes (with_connections m s)

pub data Event : Type 0 where
  started stopped manager_stopped : Event
  upgraded : ℕ → Request → ℕ → Event
  received : ℕ → List ℕ → ℕ → Event
  closed failed : ℕ → ℕ → Event

-- What the listener for `data` holds.
abbrev endpoint_of : Option SocketContext → Option String
endpoint_of none = none
endpoint_of (some c) = c.endpoint

module _ (node : Node) (r : Runtime) (store : MessageStore) where
  unfoldable pub handle : Event → State node r store → State node r store
  handle started s = on_module_init node r store s
  handle stopped s = on_shutdown node r store s
  handle manager_stopped s = on_manager_shutdown node r store s
  handle (upgraded socket request now) s =
      if s.listening then (handle_upgrade node r store socket request now s).0 else s
  handle (received socket data' now) s =
      handle_frame node r store socket data' (endpoint_of (get s.contexts socket)) now s
  handle (closed socket now) s = on_close node r store socket now s
  handle (failed socket now) s = on_error node r store socket now s
