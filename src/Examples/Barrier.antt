-- ===== src/Examples/Barrier.antt =====
-- Runs of the barriers, on which their theorems hold.
mod Generic
use sweater.Prelude.{
  ℕ, ◌+◌, ◌<◌, ◌≡◌, refl, arith, true, false, List, [], ◌∷◌, ◌++◌, replicate, some, ◌||◌, leb, ltb,
  ◌/◌,
}
use sweater.Threads.{weigh}
use sweater.Barrier.Spin.{spin_wait}
use sweater.Barrier.Futex.{
  idle, working, parked, joined, Barrier, Reach, new, step, no_choice, add_expected_arrival,
  hand_out, wait, wait_load, park, arrive_last, wake_one, wait_done,
}
use sweater.Barrier.Futex.Safety.{has_part, is_waking, parked_only_for_workers}

-- One part is with the first of two threads, and the owner parked.
abbrev one_part : Barrier
one_part = record {
  counter_ = 1;
  spin_wait_ = false;
  owner = parked;
  workers = working ∷ idle ∷ [];
}

one_part-Reach : Reach 256 8 2 one_part
one_part-Reach =
    step
      (step
        (step
          (step (step (step new (no_choice refl)) (add_expected_arrival refl (omega arith)))
            (hand_out 0 refl refl))
          (wait refl refl))
        (wait_load refl))
      (park refl (λ h. omega arith) refl)

parked_only_for_workers_example :
    0 < weigh has_part one_part.workers + weigh is_waking one_part.workers
parked_only_for_workers_example =
    parked_only_for_workers {hc = 256} {limit = 8} {n = 2} {s = one_part} (omega arith)
      (omega arith) one_part-Reach refl

-- It arrived, and the owner is back.
abbrev all_arrived : Barrier
all_arrived = record {
  counter_ = 0;
  spin_wait_ = false;
  owner = joined false;
  workers = idle ∷ idle ∷ [];
}

all_arrived-Reach : Reach 256 8 2 all_arrived
all_arrived-Reach =
    step
      (step (step (step one_part-Reach (arrive_last 0 refl refl refl)) (wake_one 0 refl refl))
        (wait_load refl))
      (wait_done refl)
