-- ===== src/Shop/Spread.antt =====
-- generic.cpp: shop::spread_work, without the HMP branch, which no configuration of the repository
-- turns on.
use sweater.Prelude.{
  ℕ, ◌+◌, ◌-◌, ◌*◌, ◌/◌, ◌%◌, min, max, Bool, true, false, not, ◌&&◌, ◌||◌, List, [], ◌∷◌, ◌++◌,
  u32, ltb, ◌==◌, if◌then◌else◌, to_int,
}
use sweater.Shop.Config.{
  Config, Shop, Surroundings, number_of_workers, spread_work_stealing_division_max,
}
use sweater.Shop.Effects.{
  Effect, use_spin_wait, initialize, work_added_untracked, enqueue_bulk, signal_work,
  wake_all_workers, steal_work, spin_wait, wait,
}
use sweater.Shop.Dispatch.{perform_caller_work, slice_division, Parts, dispatch_workers, bulk_parts}

-- The sharing of the iterations between the caller and the workers.
pub record Shares : Type 0 where
  pub queue_and_wait : Bool
  pub number_of_dispatched_work_parts : ℕ
  pub caller_thread_end_iteration : ℕ
  pub parts : Parts

unfoldable pub free_workers : Config → Shop → ℕ
free_workers cfg shop = (number_of_workers cfg shop - shop.work_items) % cfg.hc_values

unfoldable pub number_of_work_parts : Config → Shop → ℕ → ℕ → ℕ
unfolding free_workers
number_of_work_parts cfg shop iterations cost =
    min (max 1 (iterations / parallelizable_iterations_count)) max_work_parts % cfg.hc_values
  where
    max_work_parts : ℕ
    max_work_parts =
        if free_workers cfg shop == 0 then shop.worker_threads else free_workers cfg shop

    parallelizable_iterations_count : ℕ
    parallelizable_iterations_count = if cfg.use_parallelization_cost then cost else 1

-- `work_parts` parts of the iterations, the first of them the caller's if it takes part.
unfoldable pub divide : Config → (queue_and_wait : Bool) → ℕ → ℕ → Shares
divide cfg queue_and_wait work_parts iterations = record {
  queue_and_wait = queue_and_wait;
  number_of_dispatched_work_parts = (work_parts - to_int caller) % cfg.hc_values;
  caller_thread_end_iteration = if caller then u32 (iterations_per_part + extra_iteration) else 0;
  parts = record {
    iterations_per_part = iterations_per_part;
    parts_with_extra_iteration =
        if caller then parts_with_extra_iteration - extra_iteration else parts_with_extra_iteration;
    iterations = iterations;
  };
}
  where
    caller : Bool
    caller = cfg.use_caller_thread && not queue_and_wait

    iterations_per_part : ℕ
    iterations_per_part = iterations / work_parts

    parts_with_extra_iteration : ℕ
    parts_with_extra_iteration = iterations % work_parts

    extra_iteration : ℕ
    extra_iteration = to_int (not (parts_with_extra_iteration == 0))

unfoldable pub share : Config → Shop → ℕ → ℕ → Shares
share cfg shop iterations cost =
    divide cfg (free_workers cfg shop == 0) (number_of_work_parts cfg shop iterations cost)
      iterations

-- What is put on the shared queue: the parts, cut by the stealing division if the shop was empty.
pub record Bulk : Type 0 where
  pub number_of_parts : ℕ
  pub parts : Parts

unfoldable pub bulk : Config → Shop → Shares → Bulk
bulk cfg shop s =
    if shop.work_items == 0
    then record {
      number_of_parts = s.number_of_dispatched_work_parts * slice_div % cfg.hc_values;
      parts = record s.parts {
        iterations_per_part = s.parts.iterations_per_part / slice_div;
        parts_with_extra_iteration = u32 (
            s.parts.parts_with_extra_iteration
            + s.parts.iterations_per_part % slice_div * s.number_of_dispatched_work_parts);
      };
    }
    else record { number_of_parts = s.number_of_dispatched_work_parts; parts = s.parts }
  where
    slice_div : ℕ
    slice_div = slice_division shop s.parts.iterations_per_part

-- The calls that hand out the parts, whether they were enqueued, and where the caller's part ends.
pub record Handed : Type 0 where
  pub effects : List Effect
  pub enqueue_succeeded : Bool
  pub caller_end : ℕ

unfoldable pub enqueue_parts : Config → Surroundings → Shares → Bulk → Handed
enqueue_parts cfg env s b = record {
  effects =
      work_added_untracked b.number_of_parts
      ∷ initialize b.number_of_parts
      ∷ enqueue_bulk (bulk_parts b.parts b.number_of_parts 0 s.caller_thread_end_iteration)
          env.bulk_enqueued
      ∷ (if env.bulk_enqueued
          then (if cfg.slow_thread_signals then signal_work b.number_of_parts else wake_all_workers)
          else initialize 0)
      ∷ [];
  enqueue_succeeded = env.bulk_enqueued;
  caller_end = if env.bulk_enqueued then s.caller_thread_end_iteration else s.parts.iterations;
}

unfoldable pub hand_out : Config → Shop → Surroundings → Shares → Handed
hand_out cfg shop env s =
    if cfg.exact_worker_selection && not cfg.slow_thread_signals && shop.work_items == 0
    then record {
      effects =
          (dispatch_workers cfg shop env 0 s.caller_thread_end_iteration
            s.number_of_dispatched_work_parts s.parts).effects;
      enqueue_succeeded = true;
      caller_end = s.caller_thread_end_iteration;
    }
    else if s.number_of_dispatched_work_parts == 0
    then record {
      effects = initialize 0 ∷ [];
      enqueue_succeeded = true;
      caller_end = s.caller_thread_end_iteration;
    }
    else enqueue_parts cfg env s (bulk cfg shop s)

-- From the caller's own part to the end of the spread.
unfoldable pub join : Config → Surroundings → Bool → List Effect
join cfg env queue_and_wait =
    (if not queue_and_wait && not env.queue_empty then steal_work ∷ [] else [])
    ++ (if cfg.use_caller_thread && not queue_and_wait
        then (if env.everyone_arrived then [] else spin_wait ∷ [])
        else wait ∷ [])

-- The adaptive division after the spread: the compare-exchange fails if another spread moved it.
unfoldable pub next_division : Config → Shop → Surroundings → Bool → ℕ
next_division cfg shop env queue_and_wait =
    if cfg.use_caller_thread
      && not queue_and_wait
      && not env.everyone_arrived
      && env.stalled
      && ltb shop.spread_work_stealing_division spread_work_stealing_division_max
      && env.division_unchanged
    then (shop.spread_work_stealing_division + 1) % 256
    else shop.spread_work_stealing_division

-- The whole spread: its calls in order, its result and the division that it leaves.
pub record Outcome : Type 0 where
  pub effects : List Effect
  pub succeeded : Bool
  pub division : ℕ

-- completion_barrier.use_spin_wait, which only a caller that takes part can call
unfoldable pub choose_wait : Bool → Bool → List Effect
choose_wait true queue_and_wait = use_spin_wait (not queue_and_wait) ∷ []
choose_wait false queue_and_wait = []

unfoldable pub spread_parts : Config → Shop → Surroundings → Shares → Outcome
spread_parts cfg shop env s = record {
  effects =
      choose_wait cfg.use_caller_thread s.queue_and_wait
      ++ (handed.effects
          ++ ((if handed.caller_end == 0 then [] else perform_caller_work handed.caller_end)
              ++ join cfg env s.queue_and_wait));
  succeeded = handed.enqueue_succeeded;
  division = next_division cfg shop env s.queue_and_wait;
}
  where
    handed : Handed
    handed = hand_out cfg shop env s

-- The whole spread falls to the caller: on a machine with one core, or in a recursive call.
unfoldable pub caller_only : Config → Shop → Surroundings → Bool
caller_only cfg shop env =
    not (shop.work_items == 0)
    && ((cfg.use_caller_thread && cfg.single_core_fallback && shop.worker_threads == 0)
        || env.called_by_worker)

unfoldable pub spread_work : Config → Shop → Surroundings → ℕ → ℕ → Outcome
spread_work cfg shop env iterations cost =
    if iterations == 0
    then record { effects = []; succeeded = true; division = shop.spread_work_stealing_division }
    else if caller_only cfg shop env
    then record {
      effects = perform_caller_work iterations;
      succeeded = true;
      division = shop.spread_work_stealing_division;
    }
    else spread_parts cfg shop env (share cfg shop iterations cost)
