-- ===== src/Libuv.antt =====
-- impls/libuv.cpp: the shop over libuv's thread pool. Here is how a spread is cut; Spread has what
-- its threads do. `hc_values` is the number of values of hardware_concurrency_t.
pub mod Spread
pub mod Invariant
pub mod Safety
pub mod Cover
pub mod Pending
use sweater.Prelude.{
  ℕ, ◌+◌, ◌-◌, ◌*◌, min, leb, if◌then◌else◌, Option, none, some, ℤ, pos, negsuc, is_positive,
  min_int,
}
use sweater.HardwareConcurrency.Text.{Text, atoi}

-- shop::number_of_workers, by what getenv gives for UV_THREADPOOL_SIZE.
unfoldable pub pool_size : ℕ → Option Text → ℕ
pool_size hc_values env = min (min size 1024) (hc_values - 1)
  where
    size : ℕ
    size = elim env [
      | none ↦ 4
      | some text ↦ elim (atoi text) [
        | pos parsed ↦ if leb 1 parsed then parsed else 4
        | negsuc n ↦ 4
      ]
    ]

-- How many chunks spread_impl makes.
unfoldable pub num_chunks : (hc_values iterations num_workers : ℕ) → ℕ
num_chunks hc_values iterations num_workers = min (min iterations (4 * num_workers)) (hc_values - 1)
