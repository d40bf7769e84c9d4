-- ===== src/Prisma/Soundness.antt =====
-- What holds of a `PrismaService` at every moment of its life.
use voltron_ocpp_protocols.Common.{
  Bool, true, false, ◌||◌, ◌≡◌, ◌≢◌, nat_eq, List, [], ◌∷◌, ◌++◌, arith,
}
use voltron_ocpp_protocols.Prisma.{
  on_connection_status_change, unsubscribe, try_connect, connect_returned, init_returned,
  on_module_destroy,
}
use voltron_ocpp_protocols.Prisma.Lifecycle.{
  Attempt, before, System, new_system, Step, init_called, timer_fired, returned, init_ended,
  subscribed, unsubscribed, destroyed, Reach, here, next,
}

-- The attempts that wait are as `connecting` says: none, or one, which read `wasConnected` as false.
abbrev pub IsFlight : Bool → List Attempt → Type 0
IsFlight connecting [] = connecting ≡ false
IsFlight connecting (a ∷ []) = (connecting ≡ true) × (a.was_connected ≡ false)
IsFlight connecting (a ∷ b ∷ l) = ⊥

-- At most one attempt is under way, and the flag tells. With a connection there is neither an attempt nor
-- a timer. From its initialisation to its destruction the service is connected, connecting, or will try
-- again.
pub record IsSound (s : System) : Type 0 where
  pub flight : IsFlight s.prisma.connecting s.in_flight
  pub quiet_timer : s.prisma.connected ≡ true → s.prisma.timer ≡ false
  pub quiet : s.prisma.connected ≡ true → s.prisma.connecting ≡ false
  pub alive :
      s.destroyed ≡ false
      → s.init ≢ before
      → (s.prisma.connected || (s.prisma.timer || s.prisma.connecting)) ≡ true
  pub unborn_timer : s.init ≡ before → s.prisma.timer ≡ false
  pub unborn_flight : s.init ≡ before → s.in_flight ≡ []

-- If an attempt returns, it was the only one.
pub sole :
    {connecting : Bool} (l earlier : List Attempt) (a : Attempt) (later : List Attempt)
    → IsFlight connecting l
    → l ≡ earlier ++ a ∷ later
    → (earlier ++ later ≡ []) × (a.was_connected ≡ false) × (connecting ≡ true)
sole [] [] a later f e = ground arith
sole [] (x ∷ xs) a later f e = ground arith
sole (b ∷ []) [] a later f e = ground arith
sole (b ∷ []) (x ∷ []) a later f e = ground arith
sole (b ∷ []) (x ∷ y ∷ ys) a later f e = ground arith
sole (b ∷ c ∷ l) earlier a later f e = ground arith

-- Every step of a service's life keeps it sound.
pub Step-IsSound : {s t : System} → Step s t → IsSound s → IsSound t
unfolding try_connect connect_returned init_returned on_connection_status_change unsubscribe
    on_module_destroy
Step-IsSound (init_called e d) v = ground arith
Step-IsSound (timer_fired e) v = ground arith
Step-IsSound {s} (returned true earlier a later e) v =
    ground (arith, sole s.in_flight earlier a later v.flight e)
Step-IsSound {s} (returned false earlier a later e) v =
    ground (arith, sole s.in_flight earlier a later v.flight e)
Step-IsSound (init_ended e d) v = ground arith
Step-IsSound (subscribed l) v = ground arith
Step-IsSound (unsubscribed l) v = ground arith
Step-IsSound (destroyed d) v = ground arith

new_system-IsSound : IsSound new_system
unfolding new_system
new_system-IsSound = ground arith

-- At every moment that a service can come to, whatever attempts were started and in whatever order they
-- returned, one attempt at most is under way, which read `wasConnected` as false, and `connecting` says so;
-- beside a connection there is neither an attempt nor a timer; before the initialisation there is neither;
-- and from the initialisation to the destruction the service is connected, connecting or about to retry.
pub Reach-IsSound : {s : System} → Reach new_system s → IsSound s
Reach-IsSound here = new_system-IsSound
Reach-IsSound (next r st) = Step-IsSound st (Reach-IsSound r)
