-- ===== src/Socket/Loop.antt =====
-- `handleFrame`: the loop over the frames in a socket's buffer.
pub mod Terminates
pub mod Chunks
use voltron_ocpp_protocols.Common.{
  ℕ, zero, suc, Bool, true, false, not, String, ◌==◌, nat_eq, if◌then◌else◌, Option, none, some,
  List, [], ◌∷◌, ◌++◌, length, get, set,
}
use voltron_ocpp_protocols.Connection.{mark_disconnected}
use voltron_ocpp_protocols.Frame.{Frame, extract_frame}
use voltron_ocpp_protocols.Messages.{MessageStore}
use voltron_ocpp_protocols.Station.State.{Runtime}
use voltron_ocpp_protocols.Socket.{
  Node, Server, SocketContext, destroyed, ended, emit, with_connections, send_pong,
  send_close_frame,
}
use voltron_ocpp_protocols.Socket.Reply.{State, on_text}

module _ (node : Node) (r : Runtime) (store : MessageStore) where
  -- A close frame with code 1003, and `destroy()`.
  abbrev break_off : ℕ → String → State node r store → State node r store
  break_off socket reason s =
      emit (destroyed socket) (send_close_frame node socket 1003 (some reason) s)

  abbrev close_received : ℕ → SocketContext → ℕ → State node r store → State node r store
  close_received socket c now s =
      emit (ended socket)
        (with_connections (mark_disconnected s.services.connections c.connection now) s)

  -- The body of the loop behind `context.buffer = frame.remaining`, with whether the loop goes on.
  unfoldable pub on_frame :
      ℕ → SocketContext → Option String → ℕ → Frame → State node r store → State node r store × Bool
  on_frame socket c endpoint now f s =
      if not f.fin
      then (break_off socket "Fragmentation not supported" s, false)
      else if f.opcode == 8
      then (close_received socket c now s, false)
      else if f.opcode == 9
      then (send_pong node socket f.payload s, true)
      else if not (f.opcode == 1)
      then (break_off socket "Unsupported frame" s, false)
      else on_text node r store c.identity socket f.payload endpoint now s

  -- The loop, on the bytes of `context.buffer`; what is left of them.
  unfoldable pub serve :
      ℕ
      → ℕ
      → SocketContext
      → Option String
      → ℕ
      → List ℕ
      → State node r store
      → State node r store × List ℕ
  serve zero socket c endpoint now buffer s = (s, buffer)
  serve (suc fuel) socket c endpoint now buffer s = elim (extract_frame buffer) [
    | none ↦ (s, buffer)
    | some f ↦
        let done = on_frame socket c endpoint now f s in
        elim done.1 [
          | true ↦ serve fuel socket c endpoint now f.remaining done.0
          | false ↦ (done.0, f.remaining)
        ]
  ]

  -- The fuel is the length of the buffer: a frame takes two bytes at least.
  unfoldable pub handle_frame :
      ℕ → List ℕ → Option String → ℕ → State node r store → State node r store
  unfolding serve
  handle_frame socket data' endpoint now s = elim (get s.contexts socket) [
    | none ↦ s
    | some c ↦
        let buffer = c.buffer ++ data' in
        let done = serve (length buffer) socket c endpoint now buffer s in
        record done.0 { contexts = set done.0.contexts socket (record c { buffer = done.1 }) }
  ]
