-- ===== src/Prisma/Notices.antt =====
-- What a `PrismaService` tells its listeners.
use voltron_ocpp_protocols.Common.{
  ℕ, ◌+◌, ◌≤◌, Bool, true, false, ◌≡◌, refl, ◌==◌, nat_eq, if◌then◌else◌, List, [], ◌∷◌, ◌++◌,
  arith,
}
use voltron_ocpp_protocols.Prisma.{
  Notice, Prisma, contains, without, told, on_connection_status_change, unsubscribe, try_connect,
  connect_returned, init_returned, on_module_destroy,
}
use voltron_ocpp_protocols.Prisma.Lifecycle.{
  System, new_system, Step, init_called, timer_fired, returned, init_ended, subscribed,
  unsubscribed, destroyed, Reach, here, next,
}
use voltron_ocpp_protocols.Prisma.Soundness.{IsSound, Reach-IsSound, sole}

-- How often a listener is in a list, and how often it was told that there is a connection.
abbrev pub occurrences : ℕ → List ℕ → ℕ
occurrences l [] = 0
occurrences l (x ∷ xs) = (if x == l then 1 else 0) + occurrences l xs

abbrev pub told_connected : ℕ → List Notice → ℕ
told_connected l [] = 0
told_connected l (n ∷ ns) =
    (if n.connected then (if n.listener == l then 1 else 0) else 0) + told_connected l ns

occurrences-append :
    (l : ℕ) (xs ys : List ℕ) → occurrences l (xs ++ ys) ≡ occurrences l xs + occurrences l ys
occurrences-append l [] ys = omega arith
occurrences-append l (x ∷ xs) ys = omega (arith, occurrences-append l xs ys)

told_connected-append :
    (l : ℕ) (xs ys : List Notice)
    → told_connected l (xs ++ ys) ≡ told_connected l xs + told_connected l ys
told_connected-append l [] ys = omega arith
told_connected-append l (x ∷ xs) ys = omega (arith, told_connected-append l xs ys)

told_connected_of_true : (l : ℕ) (xs : List ℕ) → told_connected l (told true xs) ≡ occurrences l xs
told_connected_of_true l [] = refl
told_connected_of_true l (x ∷ xs) = omega (arith, told_connected_of_true l xs)

told_connected_of_false : (l : ℕ) (xs : List ℕ) → told_connected l (told false xs) ≡ 0
told_connected_of_false l [] = refl
told_connected_of_false l (x ∷ xs) = omega (arith, told_connected_of_false l xs)

occurrences_of_new : (l m : ℕ) (xs : List ℕ) → contains xs m ≡ false → occurrences m xs ≡ 0
occurrences_of_new l m [] h = refl
occurrences_of_new l m (x ∷ xs) h = ground (arith, occurrences_of_new l m xs)

occurrences-without : (l m : ℕ) (xs : List ℕ) → occurrences l (without xs m) ≤ occurrences l xs
occurrences-without l m [] = omega arith
occurrences-without l m (x ∷ xs) = ground (arith, occurrences-without l m xs)

-- Of one listener: it is subscribed once at most, and was told of a connection only if there is one, and
-- then once at most.
pub record IsToldOnce (l : ℕ) (p : Prisma) : Type 0 where
  pub once : occurrences l p.listeners ≤ 1
  pub not_yet : p.connected ≡ false → told_connected l p.notices ≡ 0
  pub told_once : told_connected l p.notices ≤ 1

module _ (l : ℕ) where
  on_connection_status_change-IsToldOnce :
      (m : ℕ) (p : Prisma) → IsToldOnce l p → IsToldOnce l (on_connection_status_change m p)
  unfolding on_connection_status_change
  on_connection_status_change-IsToldOnce m p v =
      ground (arith, occurrences-append l p.listeners (m ∷ []), occurrences_of_new l m p.listeners)

  connect_returned-IsToldOnce :
      (succeeded was_connected : Bool) (p : Prisma)
      → p.connected ≡ false
      → IsToldOnce l p
      → IsToldOnce l (connect_returned succeeded was_connected p)
  unfolding connect_returned
  connect_returned-IsToldOnce true was_connected p d v = ground (
    arith,
    told_connected-append l p.notices (told true p.listeners),
    told_connected_of_true l p.listeners,
  )
  connect_returned-IsToldOnce false was_connected p d v = ground (
    arith,
    told_connected-append l p.notices (told false p.listeners),
    told_connected_of_false l p.listeners,
  )

  Step-IsToldOnce :
      {s t : System} → Step s t → IsSound s → IsToldOnce l s.prisma → IsToldOnce l t.prisma
  unfolding try_connect init_returned unsubscribe on_module_destroy
  Step-IsToldOnce (init_called e d) v k = ground arith
  Step-IsToldOnce (timer_fired e) v k = ground arith
  Step-IsToldOnce {s} (returned b earlier a later e) v k =
      connect_returned-IsToldOnce b a.was_connected s.prisma
        (ground (arith, sole s.in_flight earlier a later v.flight e)) k
  Step-IsToldOnce (init_ended e d) v k = ground arith
  Step-IsToldOnce {s} (subscribed m) v k = on_connection_status_change-IsToldOnce m s.prisma k
  Step-IsToldOnce {s} (unsubscribed m) v k =
      ground (arith, occurrences-without l m s.prisma.listeners)
  Step-IsToldOnce (destroyed d) v k = ground arith

  new_system-IsToldOnce : IsToldOnce l new_system.prisma
  unfolding new_system
  new_system-IsToldOnce = ground arith

  -- Whatever happens in a service's life, a listener is subscribed once at most and is told of a
  -- connection once at most, and not while there is none.
  pub Reach-IsToldOnce : {s : System} → Reach new_system s → IsToldOnce l s.prisma
  Reach-IsToldOnce here = new_system-IsToldOnce
  Reach-IsToldOnce (next r st) = Step-IsToldOnce st (Reach-IsSound r) (Reach-IsToldOnce r)
