-- ===== src/Shop/Config.antt =====
-- The build's configuration (impls/generic_config.hpp, threading/hardware_concurrency.hpp) and the
-- shop's state that a spread reads.
use sweater.Prelude.{ℕ, ◌+◌, ◌-◌, ◌%◌, Bool, to_int, min, ◌==◌, if◌then◌else◌}

pub record Config : Type 0 where
  -- the number of values of hardware_concurrency_t: 256 or 65536
  pub hc_values : ℕ
  -- PSI_SWEATER_USE_CALLER_THREAD
  pub use_caller_thread : Bool
  -- PSI_SWEATER_EXACT_WORKER_SELECTION
  pub exact_worker_selection : Bool
  -- PSI_SWEATER_USE_PARALLELIZATION_COST
  pub use_parallelization_cost : Bool
  -- thrd_lite::slow_thread_signals, which only Android sets
  pub slow_thread_signals : Bool
  -- defined( __linux__ ) and not defined( __ANDROID__ )
  pub single_core_fallback : Bool

abbrev pub spread_work_stealing_division_min : ℕ
spread_work_stealing_division_min = 4

abbrev pub spread_work_stealing_division_max : ℕ
spread_work_stealing_division_max = 16

pub record Shop : Type 0 where
  -- pool_.size()
  pub worker_threads : ℕ
  -- work_items_, a hardware_concurrency_t
  pub work_items : ℕ
  pub spread_work_stealing_division : ℕ

-- What a spread finds out from the threads around it: whether one of the pool's workers makes the
-- call, whether the shared queue took the parts, whether the queue took the slices for each worker's
-- token, and what the caller sees once its own part is done.
pub record Surroundings : Type 0 where
  pub called_by_worker : Bool
  pub bulk_enqueued : Bool
  pub worker_enqueued : ℕ → Bool
  pub queue_empty : Bool
  pub everyone_arrived : Bool
  pub stalled : Bool
  pub division_unchanged : Bool

-- shop::number_of_workers
abbrev pub number_of_workers : Config → Shop → ℕ
number_of_workers cfg shop = (shop.worker_threads + to_int cfg.use_caller_thread) % cfg.hc_values

-- The shop's constructor. max_hardware_concurrency is PSI_SWEATER_MAX_HARDWARE_CONCURRENCY, which
-- bounds nothing where it is 0.
unfoldable pub local_hardware_concurrency : ℕ → ℕ → ℕ
local_hardware_concurrency max_hardware_concurrency hardware_concurrency_max =
    if max_hardware_concurrency == 0
    then hardware_concurrency_max
    else min hardware_concurrency_max max_hardware_concurrency

abbrev pub new_shop : Config → ℕ → ℕ → Shop
new_shop cfg max_hardware_concurrency hardware_concurrency_max = record {
  worker_threads =
      local_hardware_concurrency max_hardware_concurrency hardware_concurrency_max
      - to_int cfg.use_caller_thread;
  work_items = 0;
  spread_work_stealing_division = spread_work_stealing_division_min;
}
