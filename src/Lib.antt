-- ===== src/Lib.antt =====
-- Voltron, a server for charging stations that speak OCPP 1.6 over JSON on WebSockets.
--
-- A station opens a WebSocket. Its bytes are cut into frames, each text frame is a message, a message is
-- parsed, checked against the schema of its action and handed to the charging-station service, whose
-- response is framed and sent. The connection manager knows which socket belongs to which station. The
-- services write to a database, and buffer stations, transactions and outgoing messages in memory while
-- there is none; a station's buffered data is promoted to the database once there is one.
--
-- The files, with the code they are about (under src/modules/ocpp, where nothing else is said):
--   Common, Json, Errors, Effect: shared names, values of JSON, what is thrown (ocpp.errors.ts), and
--     methods that change a state and return or throw.
--   Frame: `extractFrame` and `buildFrame` of ocpp.websocket.ts, on lists of bytes. Frame/Bytes and
--     Frame/Parts hold the lemmas, Frame/Stream, Frame/RoundTrip and Frame/Masked the properties.
--   Schemas: messages/schemas.ts. Payloads are the types, Timestamp the two regular expressions, Guards
--     the `ensure…` functions, Parse the parsers.
--   Connection: connection/connection-manager.ts and connection.types.ts, one function per method. A
--     socket is a number, the calls of `close` are a list, and a moment is an argument.
--   Station: services/charging-station.service.ts. Status derives statuses; State is what the service
--     keeps, with the record `Runtime` of what it calls; Conversions and Ledger are the functions on what is
--     kept; Promote moves buffered stations to the database; Events, Handlers, Transactions and Meter are
--     the handlers; Transactions/Session is about a start and the stop that follows it. Offline relates the states before and after a handler while there is no database. Sample
--     is a small runtime for the tests.
--   Messages: services/station-message.service.ts. Queue is about the maps of queues, Pending about
--     what is listed, Draining about what is left when a message is dispatched; Refinement is an
--     abstract view of the service, and Simulation shows that the service follows it.
--   Ocpp: ocpp.service.ts, over Station, Schemas and Connection. Refusals and Replies are its properties.
--   Socket: the rest of ocpp.websocket.ts, over Frame, Ocpp, Messages and Connection: the state of the
--     server, and what it does to sockets as a list. Upgrade decides on a request; Reply is what is done
--     with a message, with the flush; Loop is `handleFrame`; Events holds the listeners and one function for
--     all that may happen to a server. Contexts and the modules below Events are about what a frame leaves
--     alone, Responses about what is sent for a message; Reader is the buffer of a socket under interleaved
--     calls; Answers, Flush, Reader, Twice, Loop/Terminates, Loop/Chunks, Events/Invariant and
--     Upgrade/Acceptance hold the properties.
--   Prisma: src/modules/prisma/prisma.service.ts. Lifecycle is its life as a step relation, with a list of
--     the calls of `$connect()` that have not returned; Soundness,
--     Notices and Recovery are about it.
--   The files called Tests run the code on concrete input.
--
-- Each method is one function `state → state × result`: the changes made before a throw stay, as in
-- JavaScript. A `Map` is an association list in insertion order. `Number` tells apart what the code can
-- observe of a number. The database, `prisma.$transaction`, decimals, the text of a date, identifiers, JSON
-- text, UTF-8, the pathname of a URL and SHA-1 are given as records of functions (`Runtime`, `MessageStore`,
-- `JsonText`, `Node`). Of these a theorem assumes only what its statement names, such as a database of which
-- no operation throws.
--
-- Loops are structural, except the reading of a stream, `Frame.Stream.drain` and `Socket.Loop.serve`, and
-- the decimal text of a number, `Json.decimal`. Their fuel is the length of the buffer and the number plus
-- one: a frame takes two bytes at least, and a number has no more digits than that.
--
-- Not modelled: two handlers that interleave at an `await`, outside Prisma and Socket.Reader (elsewhere a
-- handler runs to its end before another one starts, apart from what Connection.Revival says of the
-- manager); a URL that Node cannot parse; logging; the HTTP helpers of src/common, the configuration and the
-- module wiring, which have no logic of the protocol.
pub mod Common
pub mod Frame
pub mod Json
pub mod Errors
pub mod Effect
pub mod Schemas
pub mod Connection
pub mod Station
pub mod Messages
pub mod Ocpp
pub mod Prisma
pub mod Socket
