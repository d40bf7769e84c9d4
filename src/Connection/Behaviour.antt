-- ===== src/Connection/Behaviour.antt =====
-- What each method does to the connection of every identity.
use mathlib.Core.Option
use voltron_ocpp_protocols.Common.{
  ℕ, String, Bool, false, not, ◌≡◌, refl, ◌==◌, nat_eq, string_eq, eq_iff, if◌then◌else◌, Option,
  List, [], ◌∷◌, none, some, get, get-set, get-delete, ◌&&◌, Option-cases, Bool-cases, inl, inr,
  arith,
}
use voltron_ocpp_protocols.Connection.{
  ConnectionManager, ConnectionContext, Close, connected, disconnected, register_connection,
  new_context, mark_disconnected, disconnect, replaced, station_of,
}

-- What is closed, and the station that is kept, for the connection that a call found.
abbrev IsReplacing : Option ConnectionContext → List Close → Option String → Type 0
IsReplacing none closes station = (closes ≡ []) × (station ≡ none)
IsReplacing (some old) closes station =
    (closes
      ≡ record { socket = old.socket; code = 1012; reason = "Replaced by a new connection" } ∷ [])
    × (station ≡ old.station_id)

-- What a call of `registerConnection` leaves and asks for.
pub record IsRegistered (m m' : ConnectionManager) (closes : List Close)
    (context : ConnectionContext) (identity : String) (socket now : ℕ) : Type 0 where
  pub contexts :
      (other : String)
      → get m'.connections other
        ≡ (if identity == other then some context else get m.connections other)
  pub sockets :
      (other : ℕ)
      → get m'.socket_to_identity other
        ≡ (if socket == other then some identity else get m.socket_to_identity other)
  pub made : context ≡ record {
    identity = identity;
    socket = socket;
    connected_at = now;
    last_message_at = now;
    status = connected;
    station_id = context.station_id;
  }
  pub replacing : IsReplacing (get m.connections identity) closes context.station_id

-- Registering puts a new connected context, with this socket and moment, at its identity, and maps the
-- socket to the identity; every other identity keeps its context and every other socket its identity. If
-- the identity had a context, its socket, and no other, is closed with code 1012 and its station is kept;
-- if not, nothing is closed and there is no station.
pub register_connection-IsRegistered :
    (m : ConnectionManager) (identity : String) (socket now : ℕ)
    → let (m', closes, context) = register_connection m identity socket now in
      IsRegistered m m' closes context identity socket now
unfolding register_connection new_context
register_connection-IsRegistered m identity socket now = record {
  contexts = λ other. get-set m.connections identity other _;
  sockets = λ other. get-set m.socket_to_identity socket other identity;
  made = refl;
  replacing = from (get m.connections identity);
}
  where
    from : (o : Option ConnectionContext) → IsReplacing o (replaced o) (station_of o)
    from none = (refl, refl)
    from (some old) = (refl, refl)

abbrev marked : Option String → ℕ → ℕ → String → ConnectionContext → ConnectionContext
marked none socket now identity c = c
marked (some owner) socket now identity c =
    if not (owner == "") && owner == identity && c.socket == socket
    then record c { status = disconnected; last_message_at = now }
    else c

get-disconnect :
    (m : ConnectionManager) (socket now : ℕ) (owner identity : String)
    → (owner == "") ≡ false
    → get (disconnect m socket now owner).connections identity
      ≡ Option.map (marked (some owner) socket now identity) (get m.connections identity)
unfolding disconnect
get-disconnect m socket now owner identity named = elim (Option-cases (get m.connections owner)) [
  | inl e ↦ rw (e, disconnect) (ground (arith, eq_iff owner identity))
  | inr (c, e) ↦
      rw (e, disconnect)
        (ground (
          arith,
          eq_iff owner identity,
          get-set m.connections owner identity
              (record c { status = disconnected; last_message_at = now }),
        ))
]

marked_contexts :
    (m : ConnectionManager) (socket now : ℕ) (identity : String)
    → get (mark_disconnected m socket now).connections identity
      ≡ Option.map
          (marked (get m.socket_to_identity socket) socket now identity)
          (get m.connections identity)
unfolding mark_disconnected
marked_contexts m socket now identity = elim (Option-cases (get m.socket_to_identity socket)) [
  | inl e ↦ rw (e, mark_disconnected) (ground arith)
  | inr (owner, e) ↦
      rw (e, mark_disconnected)
        (elim (Bool-cases (owner == "")) [
          | inl b ↦ rw b (ground arith)
          | inr b ↦ rw b (get-disconnect m socket now owner identity b)
        ])
]

forgotten_socket :
    (m : ConnectionManager) (socket now other : ℕ) (owner : String)
    → get (disconnect m socket now owner).socket_to_identity other
      ≡ (if socket == other then none else get m.socket_to_identity other)
unfolding disconnect
forgotten_socket m socket now other owner = elim (Option-cases (get m.connections owner)) [
  | inl e ↦ rw (e, disconnect) (get-delete m.socket_to_identity socket other)
  | inr (c, e) ↦ rw (e, disconnect) (ground (arith, get-delete m.socket_to_identity socket other))
]

-- Whether a socket is registered for an identity that is not the empty text.
abbrev is_named : Option String → Bool
is_named none = false
is_named (some owner) = not (owner == "")

forgotten_sockets :
    (m : ConnectionManager) (socket now other : ℕ)
    → get (mark_disconnected m socket now).socket_to_identity other ≡ (
        if is_named (get m.socket_to_identity socket) && socket == other
        then none
        else get m.socket_to_identity other)
unfolding mark_disconnected
forgotten_sockets m socket now other = elim (Option-cases (get m.socket_to_identity socket)) [
  | inl e ↦ rw (e, mark_disconnected) (ground arith)
  | inr (owner, e) ↦
      rw (e, mark_disconnected)
        (elim (Bool-cases (owner == "")) [
          | inl b ↦ rw b (ground arith)
          | inr b ↦ rw b (forgotten_socket m socket now other owner)
        ])
]

-- Of all contexts, marking a socket as disconnected changes at most the one at the identity that the
-- socket was registered for, and that only if it still has this socket: a socket that was replaced
-- cannot disconnect the connection that replaced it. The socket is forgotten, if it was registered for an
-- identity that is not empty, and every other socket keeps its identity.
pub get-mark_disconnected :
    (m : ConnectionManager) (socket now : ℕ) (identity : String) (other : ℕ)
    → (get (mark_disconnected m socket now).connections identity
        ≡ Option.map
            (marked (get m.socket_to_identity socket) socket now identity)
            (get m.connections identity))
      × (get (mark_disconnected m socket now).socket_to_identity other ≡ (
          if is_named (get m.socket_to_identity socket) && socket == other
          then none
          else get m.socket_to_identity other))
get-mark_disconnected m socket now identity other =
    (marked_contexts m socket now identity, forgotten_sockets m socket now other)
