-- ===== src/Prisma/Recovery.antt =====
-- How a `PrismaService` comes to a connection, and what its destruction leaves.
use voltron_ocpp_protocols.Common.{
  zero, suc, ℕ, ◌≢◌, Bool, true, false, ◌≡◌, refl, ◌∙◌, nat_eq, List, [], ◌∷◌, ◌++◌, arith,
}
use mathlib.Core.List.{append_assoc}
use voltron_ocpp_protocols.Prisma.{
  Notice, Prisma, told, try_connect, connect_returned, on_module_destroy,
}
use voltron_ocpp_protocols.Prisma.Lifecycle.{
  Attempt, done, System, new_system, attempted, timer_fired, returned, destroyed, Reach, here, next,
}
use voltron_ocpp_protocols.Prisma.Soundness.{IsSound, Reach-IsSound}

-- The timer fires, and its attempt succeeds or not.
unfoldable pub round : Bool → System → System
round succeeded s = record (attempted false s.init s) {
  prisma = connect_returned succeeded s.prisma.connected (attempted false s.init s).prisma;
  in_flight = [];
}

-- So many attempts that fail, and one that succeeds.
unfoldable pub recovered : ℕ → System → System
unfolding round
recovered zero s = round true s
recovered (suc n) s = recovered n (round false s)

-- What `n` failed attempts tell.
abbrev pub refusals : ℕ → List ℕ → List Notice
refusals zero listeners = []
refusals (suc n) listeners = told false listeners ++ refusals n listeners

-- A service that waits for its timer.
pub record Waits (s : System) : Type 0 where
  pub ready : s.prisma.timer ≡ true
  pub apart : s.prisma.connected ≡ false
  pub free : s.prisma.connecting ≡ false
  pub landed : s.in_flight ≡ []

waiting_of_reach :
    {s : System}
    → IsSound s
    → s.init ≡ done
    → s.destroyed ≡ false
    → s.prisma.connected ≡ false
    → s.in_flight ≡ []
    → Waits s
waiting_of_reach v i d c f = ground arith

round_steps : (b : Bool) {s : System} → Waits s → Reach s (round b s)
unfolding round try_connect
round_steps b {s} w = next (next here (timer_fired w.ready)) (
    returned b [] (record { of_init = false; was_connected = s.prisma.connected }) []
      (ground arith))

round-Waits : {s : System} → Waits s → Waits (round false s)
unfolding round try_connect connect_returned
round-Waits w = ground arith

Reach-trans : {s t u : System} → Reach s t → Reach t u → Reach s u
Reach-trans r here = r
Reach-trans r (next k st) = next (Reach-trans r k) st

recovered-Reach : (n : ℕ) {s : System} → Waits s → Reach s (recovered n s)
unfolding recovered
recovered-Reach zero w = round_steps true w
recovered-Reach (suc n) w = Reach-trans (round_steps false w) (recovered-Reach n (round-Waits w))

round-notices :
    (b : Bool) (s : System)
    → Waits s
    → (round b s).prisma.notices ≡ s.prisma.notices ++ told b s.prisma.listeners
unfolding round try_connect connect_returned
round-notices true s w = ground arith
round-notices false s w = ground arith

round-listeners : (b : Bool) (s : System) → (round b s).prisma.listeners ≡ s.prisma.listeners
unfolding round try_connect connect_returned
round-listeners true s = ground arith
round-listeners false s = ground arith

-- Each refused attempt tells every listener that there is no connection, the last one that there is.
recovered-notices :
    (n : ℕ) (s : System)
    → Waits s
    → (recovered n s).prisma.notices
      ≡ s.prisma.notices ++ (refusals n s.prisma.listeners ++ told true s.prisma.listeners)
unfolding recovered
recovered-notices zero s w = round-notices true s w
recovered-notices (suc n) s w =
    recovered-notices n (round false s) (round-Waits w)
    ∙ rw (round-notices false s w, round-listeners false s) (simp append_assoc)

recovered-joined :
    (n : ℕ) (s : System)
    → Waits s
    → ((recovered n s).prisma.connected ≡ true) × ((recovered n s).prisma.timer ≡ false)
unfolding recovered round try_connect connect_returned
recovered-joined zero s w = (ground arith, ground arith)
recovered-joined (suc n) s w = recovered-joined n (round false s) (round-Waits w)

-- The service is connected and no timer is left.
pub record IsRecovered (s t : System) (n : ℕ) : Type 0 where
  pub path : Reach s t
  pub joined : t.prisma.connected ≡ true
  pub unarmed : t.prisma.timer ≡ false
  pub heard :
      t.prisma.notices
      ≡ s.prisma.notices ++ (refusals n s.prisma.listeners ++ told true s.prisma.listeners)

-- However many attempts the database refuses, a service that was initialised and not destroyed reaches a
-- connection with the attempt that succeeds: the timer fires for each of them, stops with the last, and
-- the listeners are told of each attempt in turn.
pub recovers :
    (n : ℕ) {s : System}
    → Reach new_system s
    → s.init ≡ done
    → s.destroyed ≡ false
    → s.prisma.connected ≡ false
    → s.in_flight ≡ []
    → IsRecovered s (recovered n s) n
recovers n {s} r i d c f =
    let w = waiting_of_reach (Reach-IsSound r) i d c f in
    record {
      path = recovered-Reach n w;
      joined = (recovered-joined n s w).0;
      unarmed = (recovered-joined n s w).1;
      heard = recovered-notices n s w;
    }

nonempty : (l : List Attempt) → l ≢ [] → (a : Attempt) × (later : List Attempt) × (l ≡ a ∷ later)
nonempty [] ne = absurd (ne refl)
nonempty (a ∷ later) ne = (a, later, refl)

timer_of_failure :
    (was_connected : Bool) (p : Prisma) → (connect_returned false was_connected p).timer ≡ true
unfolding connect_returned
timer_of_failure was_connected p = ground arith

-- From every moment of a service's life at which it is not destroyed and an attempt is under way, it can
-- come to a destroyed service whose timer is set: the attempt fails after the destruction.
pub timer_after_destroy :
    {s : System}
    → Reach new_system s
    → s.destroyed ≡ false
    → s.in_flight ≢ []
    → (t : System) × Reach s t × (t.destroyed ≡ true) × (t.prisma.timer ≡ true)
timer_after_destroy {s} r d f =
    let (a, later, e) = nonempty s.in_flight f in
    (
      _,
      next (next here (destroyed d)) (returned false [] a later e),
      refl,
      timer_of_failure a.was_connected (on_module_destroy s.prisma).0,
    )
