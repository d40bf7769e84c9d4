-- ===== src/Prisma/Tests.antt =====
-- A service that starts while the database is away.
use voltron_ocpp_protocols.Common.{true, false, arith, ◌≡◌, refl, [], ◌∷◌}
use voltron_ocpp_protocols.Prisma.{
  new_prisma, try_connect, connect_returned, init_returned, on_connection_status_change,
}
use voltron_ocpp_protocols.Prisma.Lifecycle.{
  System, new_system, waiting, done, attempted, Reach, here, next, init_called, returned,
  init_ended, subscribed,
}
use voltron_ocpp_protocols.Prisma.Soundness.{IsSound, Reach-IsSound}
use voltron_ocpp_protocols.Prisma.Notices.{IsToldOnce, Reach-IsToldOnce}
use voltron_ocpp_protocols.Prisma.Recovery.{recovered, recovers, IsRecovered, timer_after_destroy}

-- Listener 7 subscribes, and `onModuleInit` begins.
abbrev started : System
started =
    attempted true waiting (record new_system { prisma = on_connection_status_change 7 new_prisma })

started-Reach : Reach new_system started
unfolding new_system
started-Reach = next (next here (subscribed 7)) (init_called refl refl)

-- Its attempt fails, and it ends.
abbrev refused : System
refused = record started { prisma = connect_returned false false started.prisma; in_flight = [] }

abbrev offline : System
offline = record refused { prisma = init_returned refused.prisma; init = done }

refused-Reach : Reach new_system refused
unfolding new_system try_connect on_connection_status_change new_prisma
refused-Reach = next started-Reach (returned false [] _ [] refl)

offline-Reach : Reach new_system offline
unfolding new_system
offline-Reach = next refused-Reach (init_ended refl refl)

-- It waits for its timer, which is set, and its listener was told.
offline_waits : offline.prisma ≡ record {
  connected = false;
  timer = true;
  connecting = false;
  listeners = 7 ∷ [];
  notices = record { listener = 7; connected = false } ∷ [];
}
unfolding new_system try_connect on_connection_status_change new_prisma connect_returned
    init_returned
offline_waits = refl

Reach-IsSound_example : IsSound offline
Reach-IsSound_example = Reach-IsSound offline-Reach

Reach-IsToldOnce_example : IsToldOnce 7 offline.prisma
Reach-IsToldOnce_example = Reach-IsToldOnce 7 offline-Reach

recovers_example : IsRecovered offline (recovered 2 offline) 2
unfolding new_system try_connect on_connection_status_change new_prisma connect_returned
    init_returned
recovers_example = recovers 2 offline-Reach refl refl refl refl

timer_after_destroy_example :
    (t : System) × Reach started t × (t.destroyed ≡ true) × (t.prisma.timer ≡ true)
unfolding new_system try_connect on_connection_status_change new_prisma
timer_after_destroy_example = timer_after_destroy started-Reach refl (ground arith)
