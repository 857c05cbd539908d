-- ===== src/Examples/Shop/Pool.antt =====
-- A pool of two workers that is stopped while one of them sleeps and the other runs an item, on
-- which the theorem of Shop.Pool holds.
use sweater.Shop.Wake.{propagate_spread_wake}
use sweater.Prelude.{◌≤◌, ◌⊎◌, refl, true, [], ◌∷◌, arith}
use sweater.Threads.{weigh}
use sweater.Shop.Pool.{
  running, waiting, notifying, Pool, WorkerStep, run, steal, run_out, sleep, wake_busy, enqueue,
  work_added, stop, wake_worker, create, Reach, new, by_worker, by_owner, none_yet, after,
}
use sweater.Shop.Pool.Stopping.{steps_left, AllReturned, stop_and_destroy_pool-ends}

abbrev stopped : Pool
stopped = record {
  brexit_ = true;
  work_items_ = 1;
  queued = 0;
  pool_ =
      record { pc = waiting; tokens = 1; woken = true }
      ∷ record { pc = running true; tokens = 1; woken = true }
      ∷ [];
}

stopped-Reach : Reach 256 stopped
stopped-Reach =
    by_owner
      (by_owner
        (by_owner
          (by_worker
            (by_worker
              (by_worker
                (by_worker
                  (by_owner (by_owner (by_owner new (create 2 refl)) enqueue) (work_added 1))
                  (run 1 refl refl))
                (steal 0 refl))
              (run_out 0 refl))
            (sleep 0 refl refl))
          stop)
        (wake_worker 0 refl refl))
      (wake_worker 1 refl refl)

abbrev woken_up : Pool
woken_up = record stopped {
  pool_ =
      record { pc = notifying (1 ∷ []); tokens = 0; woken = true }
      ∷ record { pc = running true; tokens = 1; woken = true }
      ∷ [];
}

stop_and_destroy_pool-ends_example :
    (1 ≤ steps_left stopped)
    × (AllReturned woken_up.pool_ ⊎ ((u : Pool) × WorkerStep 256 woken_up u))
unfolding weigh propagate_spread_wake
stop_and_destroy_pool-ends_example =
    stop_and_destroy_pool-ends 256 1 stopped woken_up stopped-Reach refl refl
      (after none_yet (wake_busy 0 refl (omega arith)))
