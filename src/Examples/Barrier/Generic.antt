-- ===== src/Examples/Barrier/Generic.antt =====
-- Runs of threading/generic_barrier.cpp, on which its theorems hold.
use sweater.Prelude.{◌+◌, ◌<◌, ◌≡◌, refl, arith, false, [], ◌∷◌}
use sweater.Threads.{weigh}
use sweater.Barrier.Generic.{
  idle, working, parked, joined, Barrier, Reach, new, step, no_choice, add_expected_arrival,
  hand_out, wait, wait_lock, test_again, test_done, park, arrive_lock, arrive_last, notify_one,
  arrive_unlock, wait_unlock,
}
use sweater.Barrier.Generic.Safety.{
  has_part, is_notifying, is_busy, joined_after_everyone_left, parked_only_for_arrivals,
}

-- One part is with the first of two threads, and the owner parked.
abbrev one_part : Barrier
one_part = record {
  counter_ = 1;
  spin_wait_ = false;
  mutex_ = false;
  owner = parked;
  workers = working ∷ idle ∷ [];
}

one_part-Reach : Reach 256 2 one_part
one_part-Reach =
    step
      (step
        (step
          (step
            (step (step (step new (no_choice refl)) (add_expected_arrival refl (omega arith)))
              (hand_out 0 refl refl))
            (wait refl refl))
          (wait_lock refl refl))
        (test_again refl (λ h. omega arith)))
      (park refl)

parked_only_for_arrivals_example :
    0 < weigh has_part one_part.workers + weigh is_notifying one_part.workers
parked_only_for_arrivals_example =
    parked_only_for_arrivals {hc = 256} {n = 2} {s = one_part} (omega arith) one_part-Reach refl

-- It arrived, and the owner is back.
abbrev all_arrived : Barrier
all_arrived = record {
  counter_ = 0;
  spin_wait_ = false;
  mutex_ = false;
  owner = joined false;
  workers = idle ∷ idle ∷ [];
}

all_arrived-Reach : Reach 256 2 all_arrived
all_arrived-Reach =
    step
      (step
        (step
          (step
            (step
              (step (step one_part-Reach (arrive_lock 0 refl refl refl)) (arrive_last 0 refl refl))
              (notify_one 0 refl refl))
            (arrive_unlock 0 refl))
          (wait_lock refl refl))
        (test_done refl refl))
      (wait_unlock refl)

joined_after_everyone_left_example : weigh is_busy all_arrived.workers ≡ 0
joined_after_everyone_left_example =
    joined_after_everyone_left {hc = 256} {n = 2} {s = all_arrived} {stalled = false} (omega arith)
      all_arrived-Reach refl
