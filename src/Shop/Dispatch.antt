-- ===== src/Shop/Dispatch.antt =====
-- generic.cpp: how a spread is cut into parts and slices, and handed to the workers.
use sweater.Prelude.{
  ℕ, zero, suc, ◌+◌, ◌/◌, ◌%◌, min, max, List, [], ◌∷◌, ◌++◌, u32, ltb, ◌==◌, if◌then◌else◌, to_int,
}
use sweater.Chunks.Tiles.{Range}
use sweater.Shop.Config.{Config, Shop, Surroundings}
use sweater.Shop.Effects.{
  Effect, add_expected_arrival, work_added_untracked, enqueue, run, work_completed,
}

-- shop::perform_caller_work
unfoldable pub perform_caller_work : ℕ → List Effect
perform_caller_work iterations =
    add_expected_arrival
    ∷ work_added_untracked 1
    ∷ run (record { start_iteration = 0; end_iteration = iterations })
    ∷ work_completed
    ∷ []

-- The slices of one part: `for ( iter = start; iter < end; )`, with fuel for `fuel` rounds. The first
-- has `first_slice_extra_iter` iterations more.
unfoldable pub slices : ℕ → ℕ → ℕ → ℕ → ℕ → List Range
slices zero iter end_iteration first_slice_extra_iter slice_iter = []
slices (suc fuel) iter end_iteration first_slice_extra_iter slice_iter =
    let stop = u32 (u32 (iter + first_slice_extra_iter) + slice_iter) in
    let rest = slices fuel stop end_iteration 0 slice_iter in
    if ltb iter end_iteration
    then record { start_iteration = iter; end_iteration = stop } ∷ rest
    else []

-- Each slice is counted at the barrier and in the shop before its part is enqueued.
unfoldable pub announce : List Range → List Effect
announce [] = []
announce (r ∷ rs) = add_expected_arrival ∷ work_added_untracked 1 ∷ announce rs

pub record Dispatched : Type 0 where
  pub effects : List Effect
  pub worker_index : ℕ
  pub iteration : ℕ

-- What one spread's parts share.
pub record Parts : Type 0 where
  pub iterations_per_part : ℕ
  pub parts_with_extra_iteration : ℕ
  pub iterations : ℕ

-- The length of part `work_part`, and where it ends.
abbrev pub part_length : Parts → ℕ → ℕ
part_length p work_part =
    p.iterations_per_part + to_int (ltb work_part p.parts_with_extra_iteration)

abbrev pub part_end : Parts → ℕ → ℕ → ℕ
part_end p work_part start_iteration = u32 (start_iteration + part_length p work_part)

unfoldable pub slice_division : Shop → ℕ → ℕ
slice_division shop iterations_per_part =
    min shop.spread_work_stealing_division (max iterations_per_part 1) % 256

-- A round makes a slice of an iteration or more, so the part's length is fuel enough.
unfoldable pub part_slices : Parts → ℕ → ℕ → ℕ → List Range
part_slices p slice_div work_part start_iteration =
    slices (part_length p work_part) start_iteration (part_end p work_part start_iteration)
      (part_length p work_part % slice_div) (part_length p work_part / slice_div)

-- The loop of shop::dispatch_workers, with `left` parts to go.
unfoldable pub dispatch_parts : Config → Surroundings → Parts → ℕ → ℕ → ℕ → ℕ → ℕ → Dispatched
dispatch_parts cfg env p slice_div zero work_part worker_index iteration = record {
  effects = [];
  worker_index = worker_index;
  iteration = iteration;
}
dispatch_parts cfg env p slice_div (suc left) work_part worker_index iteration =
    let rs = part_slices p slice_div work_part iteration in
    let rest =
      dispatch_parts cfg env p slice_div left (work_part + 1) ((worker_index + 1) % cfg.hc_values)
        (part_end p work_part iteration) in
    if iteration == p.iterations
    then record { effects = []; worker_index = worker_index; iteration = iteration }
    else record rest {
      effects =
          announce rs
          ++ enqueue worker_index rs (work_part == 0) (env.worker_enqueued worker_index)
            ∷ rest.effects;
    }

unfoldable pub dispatch_workers : Config → Shop → Surroundings → ℕ → ℕ → ℕ → Parts → Dispatched
dispatch_workers cfg shop env worker_index iteration max_parts p =
    dispatch_parts cfg env p (slice_division shop p.iterations_per_part) max_parts 0 worker_index
      iteration

-- The parts for the shared queue: `for ( work_part = 0; work_part < number; ++work_part )`.
unfoldable pub bulk_parts : Parts → ℕ → ℕ → ℕ → List Range
bulk_parts p zero work_part iteration = []
bulk_parts p (suc left) work_part iteration =
    record { start_iteration = iteration; end_iteration = part_end p work_part iteration }
    ∷ bulk_parts p left (work_part + 1) (part_end p work_part iteration)
