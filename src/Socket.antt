-- ===== src/Socket.antt =====
-- `OcppWebSocketServer` of src/modules/ocpp/ocpp.websocket.ts: what it keeps, and what it sends. What the
-- server does to sockets is a list of effects, in order. A socket and the object with a `close` that is
-- made for it are one number: there is one such object for each socket. The logger is left out.
pub mod Upgrade
pub mod Reply
pub mod Loop
pub mod Contexts
pub mod Events
pub mod Responses
pub mod Answers
pub mod Reader
pub mod Sample
mod Tests
pub mod Flush
pub mod Twice
use voltron_ocpp_protocols.Common.{
  ℕ, Bool, String, ◌==◌, string_eq, if◌then◌else◌, Option, none, some, or_else, List, [], ◌∷◌, ◌++◌,
}
use voltron_ocpp_protocols.Connection.{ConnectionManager, Close}
use voltron_ocpp_protocols.Messages.{MessageService}
use voltron_ocpp_protocols.Ocpp.{JsonText, Services}
use voltron_ocpp_protocols.Frame.{build_frame, write_be}

-- What is done to a socket: `write(text)`, `write(bytes)`, `end()` and `destroy()`.
pub data Output : Type 0 where
  text_written : ℕ → String → Output
  written : ℕ → List ℕ → Output
  ended : ℕ → Output
  destroyed : ℕ → Output

-- What the server calls of Node: `JSON`, the two ways of UTF-8, the `pathname` of `parse(url, true)`, and
-- `createHash('sha1').update(text).digest('base64')`. A URL that `parse` throws at is left out.
pub record Node : Type 0 where
  pub json : JsonText
  pub to_utf8 : String → List ℕ
  pub from_utf8 : List ℕ → String
  pub path_name : String → Option String
  pub sha1_base64 : String → String

-- With `endpoint`, which the listener for `data` holds.
pub record SocketContext : Type 0 where
  pub identity : String
  pub buffer : List ℕ
  pub connection : ℕ
  pub endpoint : Option String

-- `listening` says whether `upgradeHandler` is attached to the HTTP server.
pub record Server (D E : Type 0) : Type 0 where
  pub services : Services D
  pub messages : MessageService E
  pub contexts : List (ℕ × SocketContext)
  pub listening : Bool
  pub output : List Output

module _ {D E : Type 0} where
  abbrev pub emit : Output → Server D E → Server D E
  emit o s = record s { output = s.output ++ o ∷ [] }

  abbrev pub with_connections : ConnectionManager → Server D E → Server D E
  with_connections m s = record s { services = record s.services { connections = m } }

module _ (node : Node) where
  open node use {to_utf8}

  unfoldable pub text_frame : String → List ℕ
  text_frame message = build_frame 1 (to_utf8 message)

  -- The payload of a close frame; an empty reason is none.
  unfoldable pub close_frame : ℕ → Option String → List ℕ
  close_frame code none = build_frame 8 (write_be 2 code)
  close_frame code (some reason) =
      build_frame 8 (if reason == "" then write_be 2 code else write_be 2 code ++ to_utf8 reason)

  module _ {D E : Type 0} where
    unfoldable pub send_text : ℕ → String → Server D E → Server D E
    send_text socket message s = emit (written socket (text_frame message)) s

    unfoldable pub send_pong : ℕ → List ℕ → Server D E → Server D E
    send_pong socket payload s = emit (written socket (build_frame 10 payload)) s

    unfoldable pub send_close_frame : ℕ → ℕ → Option String → Server D E → Server D E
    send_close_frame socket code reason s = emit (written socket (close_frame code reason)) s

    -- The calls of `close` of a `ConnectionManager`, each of which is a `sendCloseFrame`.
    unfoldable pub close_all : List Close → Server D E → Server D E
    close_all [] s = s
    close_all (c ∷ cs) s = close_all cs (send_close_frame c.socket c.code (some c.reason) s)
