-- ===== src/Examples/SystemPools/Fire.antt =====
-- Items fired over the system's pools, on which the theorems of SystemPools.Fire hold.
use sweater.Prelude.{ℕ, ◌≡◌, Bool, true, false, List, [], ◌∷◌, some, get_elem?, refl, arith}
use sweater.SystemPools.Fire.{
  apple, libuv, in_flight_inc, run, in_flight_dec, deallocate, allocate, Granted, fire_and_forget,
  apple_fire_and_forget, fire_with_after, wait_until_idle,
}
use sweater.SystemPools.Fire.Items.{Firing, System, Reach, new, step, event, fired, AreTracked}
use sweater.SystemPools.Fire.Idle.{wait_until_idle-unfinished, polls, unfinished, AreReached}
use sweater.Threads.{weigh}

abbrev no_memory : Granted
no_memory = record { allocated = false; queued = true }

abbrev no_place : Granted
no_place = record { allocated = true; queued = false }

-- An item over GCD, and one over libuv that is refused.
abbrev two : List Firing
two =
    record { pool = apple; fits = true; granted = no_place }
    ∷ record { pool = libuv; fits = false; granted = no_place }
    ∷ []

-- The first poll finds the first item running, the second finds both done.
abbrev one_running : System
one_running = record {
  g_in_flight = 1;
  items =
      record { counted = true; rest = in_flight_dec ∷ [] }
      ∷ record {
        counted = false;
        rest = allocate ∷ in_flight_inc ∷ in_flight_dec ∷ deallocate ∷ [];
      }
      ∷ [];
}

abbrev both_counted : System
both_counted = record {
  g_in_flight = 0;
  items =
      record { counted = false; rest = [] }
      ∷ record { counted = false; rest = deallocate ∷ [] }
      ∷ [];
}

one_running-Reach : Reach two one_running
unfolding fired fire_and_forget apple_fire_and_forget fire_with_after
one_running-Reach = step (step new (event 0 in_flight_inc refl)) (event 0 run refl)

both_counted-Reach : Reach two both_counted
both_counted-Reach =
    step
      (step (step (step one_running-Reach (event 1 allocate refl)) (event 1 in_flight_inc refl))
        (event 0 in_flight_dec refl))
      (event 1 in_flight_dec refl)

abbrev seen : List (System × Bool)
seen = (one_running, false) ∷ (both_counted, false) ∷ []

seen-AreReached : AreReached two seen
unfolding AreReached
seen-AreReached = (one_running-Reach, (both_counted-Reach, tt))

two-AreTracked : AreTracked two
unfolding AreTracked
two-AreTracked = (refl, (refl, tt))

seen-idle : wait_until_idle (polls seen) ≡ some true
unfolding wait_until_idle polls
seen-idle = refl

wait_until_idle-unfinished_example :
    (j : ℕ) × (s : System) × (expired : Bool) × (get_elem? seen j ≡ some (s, expired))
    × (weigh unfinished s.items ≡ 0)
wait_until_idle-unfinished_example =
    wait_until_idle-unfinished two seen (omega arith) two-AreTracked seen-AreReached seen-idle
