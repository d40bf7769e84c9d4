-- ===== src/Prisma/Lifecycle.antt =====
-- The life of a `PrismaService` as a step relation: who calls what, and when.
use voltron_ocpp_protocols.Common.{
  ℕ, Bool, true, false, ◌||◌, ◌≡◌, Option, none, some, List, [], ◌∷◌, ◌++◌,
}
use voltron_ocpp_protocols.Prisma.{
  Prisma, new_prisma, on_connection_status_change, unsubscribe, try_connect, connect_returned,
  init_returned, on_module_destroy,
}

-- A call of `tryConnect` that waits for `$connect()`: whether `onModuleInit` waits for it, and the
-- `wasConnected` that it read.
pub record Attempt : Type 0 where
  pub of_init : Bool
  pub was_connected : Bool

-- Where `onModuleInit` stands.
pub data Init : Type 0 where
  before waiting done : Init

-- The service and what is under way: every attempt that waits, however many there are, the last one first.
pub record System : Type 0 where
  pub prisma : Prisma
  pub in_flight : List Attempt
  pub init : Init
  pub destroyed : Bool

unfoldable pub new_system : System
unfolding new_prisma
new_system = record { prisma = new_prisma; in_flight = []; init = before; destroyed = false }

abbrev pub waits_for : Bool → Option Bool → List Attempt
waits_for of_init none = []
waits_for of_init (some was_connected) =
    record { of_init = of_init; was_connected = was_connected } ∷ []

-- A call of `tryConnect` by `onModuleInit` or by the timer. An attempt that waits is added to the others.
abbrev pub attempted : Bool → Init → System → System
attempted of_init init s = record s {
  prisma = (try_connect s.prisma).0;
  in_flight = waits_for of_init (try_connect s.prisma).1 ++ s.in_flight;
  init = init;
}

-- Whether the attempt of `onModuleInit` is among those that wait.
abbrev pub init_waits : List Attempt → Bool
init_waits [] = false
init_waits (a ∷ l) = a.of_init || init_waits l

-- `onModuleInit` runs once and ends when its attempt has returned; the timer fires while it is set; any of
-- the attempts that wait may return or throw next; listeners come and go at any time; the module is
-- destroyed once at most.
pub data Step : System → System → Type 0 where
  init_called :
      {s : System} → s.init ≡ before → s.destroyed ≡ false → Step s (attempted true waiting s)
  timer_fired : {s : System} → s.prisma.timer ≡ true → Step s (attempted false s.init s)
  returned :
      {s : System} (succeeded : Bool) (earlier : List Attempt) (a : Attempt) (later : List Attempt)
      → s.in_flight ≡ earlier ++ a ∷ later
      → Step s (record s {
        prisma = connect_returned succeeded a.was_connected s.prisma;
        in_flight = earlier ++ later;
      })
  init_ended :
      {s : System}
      → s.init ≡ waiting
      → init_waits s.in_flight ≡ false
      → Step s (record s { prisma = init_returned s.prisma; init = done })
  subscribed :
      {s : System} (l : ℕ) → Step s (record s { prisma = on_connection_status_change l s.prisma })
  unsubscribed : {s : System} (l : ℕ) → Step s (record s { prisma = unsubscribe l s.prisma })
  destroyed :
      {s : System}
      → s.destroyed ≡ false
      → Step s (record s { prisma = (on_module_destroy s.prisma).0; destroyed = true })

pub data Reach (s : System) : System → Type 0 where
  here : Reach s s
  next : {t u : System} → Reach s t → Step t u → Reach s u
