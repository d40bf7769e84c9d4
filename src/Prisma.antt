-- ===== src/Prisma.antt =====
-- `PrismaService` of src/modules/prisma/prisma.service.ts: the connection to the database and its retry.
-- `tryConnect` waits for `$connect()`, so it is two functions, one for each side of that `await`, and
-- other calls may come between. A listener is an object that is compared by reference: a number. It is
-- called at once, and an error that it throws is caught and logged, so what matters here of a
-- notification is the list of the calls. The logger is left out.
pub mod Lifecycle
pub mod Soundness
pub mod Notices
pub mod Recovery
mod Tests
use voltron_ocpp_protocols.Common.{
  ℕ, Bool, true, false, not, ◌||◌, ◌==◌, nat_eq, if◌then◌else◌, List, [], ◌∷◌, ◌++◌, map, Option,
  none, some,
}

-- A call of a listener, `listener(connected)`.
pub record Notice : Type 0 where
  pub listener : ℕ
  pub connected : Bool

-- `timer` says whether `reconnectTimer` is set; `notices` holds the calls of listeners so far.
pub record Prisma : Type 0 where
  pub connected : Bool
  pub timer : Bool
  pub connecting : Bool
  pub listeners : List ℕ
  pub notices : List Notice

unfoldable pub new_prisma : Prisma
new_prisma = record {
  connected = false;
  timer = false;
  connecting = false;
  listeners = [];
  notices = [];
}

unfoldable pub is_connected : Prisma → Bool
is_connected p = p.connected

abbrev pub contains : List ℕ → ℕ → Bool
contains [] l = false
contains (x ∷ xs) l = x == l || contains xs l

abbrev pub without : List ℕ → ℕ → List ℕ
without [] l = []
without (x ∷ xs) l = if x == l then without xs l else x ∷ without xs l

-- `onConnectionStatusChange`: a `Set` keeps one copy, in order of insertion.
unfoldable pub on_connection_status_change : ℕ → Prisma → Prisma
on_connection_status_change l p =
    if contains p.listeners l then p else record p { listeners = p.listeners ++ l ∷ [] }

-- The function that `onConnectionStatusChange` returns.
unfoldable pub unsubscribe : ℕ → Prisma → Prisma
unsubscribe l p = record p { listeners = without p.listeners l }

abbrev pub told : Bool → List ℕ → List Notice
told connected listeners = map (λ l. record { listener = l; connected = connected }) listeners

unfoldable pub notify_connection_status : Bool → Prisma → Prisma
notify_connection_status connected p = record p {
  notices = p.notices ++ told connected p.listeners;
}

unfoldable pub schedule_reconnect : Prisma → Prisma
schedule_reconnect p = if p.timer then p else record p { timer = true }

-- `tryConnect` up to `await this.$connect()`: if it waits there, with the `wasConnected` that it read.
unfoldable pub try_connect : Prisma → Prisma × Option Bool
try_connect p =
    if p.connected || p.connecting
    then (p, none)
    else (record p { connecting = true }, some p.connected)

-- The rest of the `try` block.
unfoldable pub connect_succeeded : Bool → Prisma → Prisma
connect_succeeded was_connected p =
    let p' = record p { connected = true; timer = false } in
    if not was_connected then notify_connection_status true p' else p'

-- The `catch` block.
unfoldable pub connect_failed : Prisma → Prisma
connect_failed p =
    notify_connection_status false (schedule_reconnect (record p { connected = false }))

-- `tryConnect` behind `$connect()`, which has succeeded or not, with the `finally` block.
unfoldable pub connect_returned : Bool → Bool → Prisma → Prisma
unfolding connect_succeeded connect_failed notify_connection_status schedule_reconnect
connect_returned succeeded was_connected p =
    let p' = if succeeded then connect_succeeded was_connected p else connect_failed p in
    record p' { connecting = false }

-- `onModuleInit` behind `await this.tryConnect()`.
unfoldable pub init_returned : Prisma → Prisma
unfolding schedule_reconnect
init_returned p = if p.connected then p else schedule_reconnect p

-- `onModuleDestroy`, with whether it calls `$disconnect()`.
unfoldable pub on_module_destroy : Prisma → Prisma × Bool
on_module_destroy p = (record p { timer = false }, p.connected)
