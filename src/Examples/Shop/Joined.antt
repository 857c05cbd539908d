-- ===== src/Examples/Shop/Joined.antt =====
-- A spread of two iterations over one worker, whose caller runs the first one and spins.
use sweater.Prelude.{◌≡◌, refl, subst, sym, true, false, arith, inl, List, [], ◌∷◌}
use sweater.Barrier.Futex.{idle, joined, arrive_spinning, spin_done}
use sweater.Barrier.Futex.Safety.{has_part}
use sweater.Chunks.Tiles.{Range, RunsOnce}
use sweater.Shop.Config.{Config, Shop, Surroundings}
use sweater.Shop.Dispatch.{
  dispatch_workers, dispatch_parts, slice_division, part_slices, slices, announce,
  perform_caller_work,
}
use sweater.Shop.Effects.{
  Effect, use_spin_wait, add_expected_arrival, work_added_untracked, enqueue, run, work_completed,
  spin_wait,
}
use sweater.Shop.Joined.{
  Joint, JointStep, choose, expect, skip, start_spin_wait, other, JointReach, new, step,
}
use sweater.Shop.Joined.Safety.{spread_work-joined}
use sweater.Shop.Sharing.{IsReady}
use sweater.Shop.Spread.{
  spread_work, caller_only, spread_parts, share, divide, number_of_work_parts, free_workers,
  hand_out, choose_wait, join,
}
use sweater.Threads.{weigh}

abbrev laptop : Config
laptop = record {
  hc_values = 256;
  use_caller_thread = true;
  exact_worker_selection = true;
  use_parallelization_cost = false;
  slow_thread_signals = false;
  single_core_fallback = true;
}

abbrev one_worker : Shop
one_worker = record { worker_threads = 1; work_items = 0; spread_work_stealing_division = 4 }

abbrev outside : Surroundings
outside = record {
  called_by_worker = false;
  bulk_enqueued = true;
  worker_enqueued = λ w. true;
  queue_empty = true;
  everyone_arrived = false;
  stalled = false;
  division_unchanged = true;
}

one_worker-IsReady : IsReady laptop one_worker 1
one_worker-IsReady = record {
  countable = omega arith;
  sliceable = inl refl;
  someone = inl (omega arith);
  division_pos = omega arith;
  division_le = omega arith;
  cost_pos = omega arith;
}

abbrev first : Range
first = record { start_iteration = 0; end_iteration = 1 }

abbrev second : Range
second = record { start_iteration = 1; end_iteration = 2 }

abbrev calls : List Effect
calls =
    use_spin_wait true
    ∷ add_expected_arrival
    ∷ work_added_untracked 1
    ∷ enqueue 0 (second ∷ []) true true
    ∷ add_expected_arrival
    ∷ work_added_untracked 1
    ∷ run first
    ∷ work_completed
    ∷ spin_wait
    ∷ []

two_parts : (spread_work laptop one_worker outside 2 1).effects ≡ calls
unfolding spread_work caller_only spread_parts share divide number_of_work_parts free_workers
    hand_out choose_wait join dispatch_workers dispatch_parts slice_division part_slices slices
    announce perform_caller_work
two_parts = refl

abbrev finished : Joint
finished = record {
  barrier = record {
    counter_ = 0;
    spin_wait_ = true;
    owner = joined false;
    workers = idle ∷ idle ∷ [];
  };
  rest = [];
  handed = second ∷ first ∷ [];
}

-- The worker takes its range, then the caller runs its own, and both arrive before the first poll.
calls-JointReach : JointReach 256 2 calls finished
calls-JointReach =
    step
      (step
        (step
          (step
            (step
              (step
                (step
                  (step
                    (step
                      (step
                        (step (step (step new (choose refl refl)) (expect refl refl))
                          (skip refl refl refl))
                        (JointStep.enqueue 0 refl refl refl))
                      (skip refl refl refl))
                    (expect refl refl))
                  (skip refl refl refl))
                (JointStep.run 1 refl refl refl))
              (skip refl refl refl))
            (other {limit = 0} (arrive_spinning 0 refl refl) refl))
          (other {limit = 0} (arrive_spinning 1 refl refl) refl))
        (start_spin_wait 8 refl refl))
      (other {limit = 0} (spin_done refl refl) refl)

spread_work-joined_example :
    RunsOnce 2 finished.handed × (weigh has_part finished.barrier.workers ≡ 0)
spread_work-joined_example =
    spread_work-joined laptop one_worker outside 2 1 2 one_worker-IsReady (omega arith)
      (omega arith) (unfold caller_only in refl) refl (λ w. refl) (omega arith) (omega arith)
      (subst (λ es. JointReach 256 2 es finished) (sym two_parts) calls-JointReach) refl
