-- ===== src/Connection.antt =====
-- `ConnectionManager` of src/modules/ocpp/connection/connection-manager.ts, with `ConnectionContext` of
-- connection.types.ts. A socket is an object that is compared by reference: a number that names it.
-- The moment of each `new Date()` is an argument. A `close` that throws is caught and logged, so what
-- a method does to sockets is the list of its calls of `close`; the logger is left out.
pub mod Invariant
pub mod Behaviour
pub mod Revival
mod Tests
use voltron_ocpp_protocols.Common.{
  ℕ, String, Bool, not, ◌==◌, nat_eq, string_eq, if◌then◌else◌, Option, none, some, ◌>>=◌, List, [],
  ◌∷◌, map, get, set, delete,
}

pub data ConnectionStatus : Type 0 where
  connected disconnected : ConnectionStatus

pub record ConnectionContext : Type 0 where
  pub identity : String
  pub socket : ℕ
  pub connected_at : ℕ
  pub last_message_at : ℕ
  pub status : ConnectionStatus
  pub station_id : Option String

pub record ConnectionManager : Type 0 where
  pub connections : List (String × ConnectionContext)
  pub socket_to_identity : List (ℕ × String)

-- `socket.close(code, reason)`
pub record Close : Type 0 where
  pub socket : ℕ
  pub code : ℕ
  pub reason : String

abbrev pub empty : ConnectionManager
empty = record { connections = []; socket_to_identity = [] }

-- `existing?.stationId`
abbrev pub station_of : Option ConnectionContext → Option String
station_of none = none
station_of (some c) = c.station_id

-- The close of the connection that a new one replaces.
abbrev pub replaced : Option ConnectionContext → List Close
replaced none = []
replaced (some c) =
    record { socket = c.socket; code = 1012; reason = "Replaced by a new connection" } ∷ []

-- The context that `registerConnection` makes and returns.
unfoldable pub new_context : ConnectionManager → String → ℕ → ℕ → ConnectionContext
new_context m identity socket now = record {
  identity = identity;
  socket = socket;
  connected_at = now;
  last_message_at = now;
  status = connected;
  station_id = station_of (get m.connections identity);
}

-- `registerConnection`: the manager, the calls of `close`, and the new context.
unfoldable pub register_connection :
    ConnectionManager → String → ℕ → ℕ → ConnectionManager × List Close × ConnectionContext
unfolding new_context
register_connection m identity socket now =
    let context = new_context m identity socket now in
    (
      record {
        connections = set m.connections identity context;
        socket_to_identity = set m.socket_to_identity socket identity;
      },
      replaced (get m.connections identity),
      context,
    )

-- A method that changes the context of an identity in place, if there is one.
abbrev pub update_context :
    ConnectionManager → String → (ConnectionContext → ConnectionContext) → ConnectionManager
update_context m identity f = elim (get m.connections identity) [
  | none ↦ m
  | some c ↦ record m { connections = set m.connections identity (f c) }
]

unfoldable pub associate_station : ConnectionManager → String → String → ConnectionManager
associate_station m identity station =
    update_context m identity (λ c. record c { station_id = some station })

unfoldable pub update_activity : ConnectionManager → String → ℕ → ConnectionManager
update_activity m identity now =
    update_context m identity (λ c. record c { last_message_at = now; status = connected })

unfoldable pub get_context : ConnectionManager → String → Option ConnectionContext
get_context m identity = get m.connections identity

unfoldable pub get_identity_by_socket : ConnectionManager → ℕ → Option String
get_identity_by_socket m socket = get m.socket_to_identity socket

-- The part of `markDisconnected` behind the look-up of the socket.
unfoldable pub disconnect : ConnectionManager → ℕ → ℕ → String → ConnectionManager
disconnect m socket now identity =
    let forgotten = delete m.socket_to_identity socket in
    elim (get m.connections identity) [
      | none ↦ record m { socket_to_identity = forgotten }
      | some c ↦
          if not (c.socket == socket) then record m { socket_to_identity = forgotten } else record {
            connections =
                set m.connections identity
                  (record c { status = disconnected; last_message_at = now });
            socket_to_identity = forgotten;
          }
    ]

-- `markDisconnected`; its `reason` is only logged.
unfoldable pub mark_disconnected : ConnectionManager → ℕ → ℕ → ConnectionManager
unfolding disconnect
mark_disconnected m socket now = elim (get m.socket_to_identity socket) [
  | none ↦ m
  | some identity ↦ if identity == "" then m else disconnect m socket now identity
]

unfoldable pub list_connections : ConnectionManager → List ConnectionContext
list_connections m = map (λ e. e.1) m.connections

-- `onApplicationShutdown`
unfoldable pub on_application_shutdown : ConnectionManager → ConnectionManager × List Close
unfolding list_connections
on_application_shutdown m = (
  record m { connections = [] },
  map (λ c. record { socket = c.socket; code = 1001; reason = "Server shutdown" })
      (list_connections m),
)

-- The calls that change a manager.
pub data Call : Type 0 where
  register : String → ℕ → ℕ → Call
  associate : String → String → Call
  update : String → ℕ → Call
  mark : ℕ → ℕ → Call
  shutdown : Call

unfoldable pub step : ConnectionManager → Call → ConnectionManager
step m (register identity socket now) = (register_connection m identity socket now).0
step m (associate identity station) = associate_station m identity station
step m (update identity now) = update_activity m identity now
step m (mark socket now) = mark_disconnected m socket now
step m shutdown = (on_application_shutdown m).0

unfoldable pub run : ConnectionManager → List Call → ConnectionManager
unfolding step
run m [] = m
run m (c ∷ cs) = run (step m c) cs
