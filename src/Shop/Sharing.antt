-- ===== src/Shop/Sharing.antt =====
-- The parts that a spread makes add up to its iterations.
use sweater.Prelude.{
  ℕ, zero, suc, ◌+◌, ◌-◌, ◌*◌, ◌/◌, ◌%◌, ◌^◌, ◌≤◌, ◌<◌, ◌≡◌, ◌⊎◌, Bool, true, not, ◌&&◌, to_int,
  max, min, if◌then◌else◌, ◌==◌, refl, arith,
}
use native.Mathlib.Nat.{div-add-mod, mod-lt, mod-eq_of_lt, div-le_self}
use sweater.Shop.Config.{Config, Shop}
use sweater.Shop.Ranges.{Left, div-pos}
use sweater.Shop.Spread.{Shares, free_workers, number_of_work_parts, divide, share}

-- What a spread relies on: hardware_concurrency_t can count the threads, and 16 slices for each
-- where parts are sliced for the shared queue; there is a thread to do the work; the division
-- is in its bounds, and the cost is not 0.
pub record IsReady (cfg : Config) (shop : Shop) (cost : ℕ) : Type 0 where
  pub countable : shop.worker_threads + 1 < cfg.hc_values
  pub sliceable :
      (cfg.exact_worker_selection && not cfg.slow_thread_signals ≡ true)
      ⊎ (16 * shop.worker_threads < cfg.hc_values)
  pub someone :
      (0 < shop.worker_threads)
      ⊎ ((cfg.use_caller_thread ≡ true)
          × ((shop.work_items ≡ 0) ⊎ (cfg.single_core_fallback ≡ true)))
  pub division_pos : 4 ≤ shop.spread_work_stealing_division
  pub division_le : shop.spread_work_stealing_division ≤ 16
  pub cost_pos : 0 < cost

-- The parts of a spread: as many as it says, each with iterations, and for no more than the workers.
pub record IsShared (shop : Shop) (iterations : ℕ) (s : Shares) : Type 0 where
  pub left : Left s.parts s.number_of_dispatched_work_parts 0 s.caller_thread_end_iteration
  pub each : 0 < s.parts.iterations_per_part
  pub few : s.number_of_dispatched_work_parts ≤ shop.worker_threads
  pub all : s.parts.iterations ≡ iterations

min_parts :
    (iterations c most hc : ℕ)
    → 0 < iterations
    → 0 < most
    → most < hc
    → (0 < min (max 1 (iterations / c)) most % hc)
      × (min (max 1 (iterations / c)) most % hc ≤ iterations)
      × (min (max 1 (iterations / c)) most % hc ≤ most)
min_parts iterations c most hc h k l =
    let small : min (max 1 (iterations / c)) most < hc = omega arith in
    rw (mod-eq_of_lt small) (omega (arith, div-le_self iterations c))

module _ (cfg : Config) (shop : Shop) (iterations cost : ℕ) (ready : IsReady cfg shop cost)
    (someone : (0 < shop.worker_threads) ⊎ ((cfg.use_caller_thread ≡ true) × (shop.work_items ≡ 0)))
    (some_work : 0 < iterations) where
  free_workers_lem :
      free_workers cfg shop ≡ shop.worker_threads + to_int cfg.use_caller_thread - shop.work_items
  unfolding free_workers
  free_workers_lem =
      let small : shop.worker_threads + to_int cfg.use_caller_thread < cfg.hc_values =
        ground (arith, ready.countable) in
      rw (mod-eq_of_lt small) (mod-eq_of_lt (omega arith))

  number_of_work_parts_bounds :
      (0 < number_of_work_parts cfg shop iterations cost)
      × (number_of_work_parts cfg shop iterations cost ≤ iterations)
      × (number_of_work_parts cfg shop iterations cost < cfg.hc_values)
      × (number_of_work_parts cfg shop iterations cost
          ≤ shop.worker_threads
            + to_int (cfg.use_caller_thread && not (free_workers cfg shop == 0)))
  unfolding number_of_work_parts
  number_of_work_parts_bounds =
      let free = free_workers cfg shop in
      let most = if free == 0 then shop.worker_threads else free in
      let bounds =
        min_parts iterations (if cfg.use_parallelization_cost then cost else 1) most cfg.hc_values
          some_work (ground (arith, ready.countable, free_workers_lem))
          (ground (arith, ready.countable, free_workers_lem)) in
      (
        bounds.0,
        bounds.1,
        ground (arith, bounds.2, ready.countable, free_workers_lem),
        ground (arith, bounds.2, free_workers_lem),
      )

predecessor_product : (n q : ℕ) → 0 < n → (n - 1) * q + q ≡ n * q
predecessor_product zero q h = absurd (omega arith)
predecessor_product (suc n) q h = let e : suc n - 1 ≡ n = omega arith in rw e (omega arith)

divide-IsShared :
    (cfg : Config) (shop : Shop) (wait : Bool) (n iterations : ℕ)
    → 0 < n
    → n ≤ iterations
    → n < cfg.hc_values
    → n ≤ shop.worker_threads + to_int (cfg.use_caller_thread && not wait)
    → iterations < 2 ^ 32
    → IsShared shop iterations (divide cfg wait n iterations)
unfolding divide
divide-IsShared cfg shop wait n iterations h k l f small = record {
  left = record {
    rest =
        ground
          (arith, whole, fewer, share_of_one, dispatched, predecessor_product n (iterations / n) h);
    few = ground (arith, fewer, dispatched);
    fits = small;
  };
  each = div-pos iterations n h k;
  few = ground (arith, dispatched);
  all = refl;
}
  where
    whole : n * (iterations / n) + iterations % n ≡ iterations
    whole = div-add-mod iterations n

    fewer : iterations % n < n
    fewer = mod-lt iterations h

    dispatched :
        (n - to_int (cfg.use_caller_thread && not wait)) % cfg.hc_values
        ≡ n - to_int (cfg.use_caller_thread && not wait)
    dispatched = mod-eq_of_lt (omega arith)

    share_of_one : iterations / n ≤ n * (iterations / n)
    share_of_one = grind arith

pub share-IsShared :
    (cfg : Config) (shop : Shop) (iterations cost : ℕ)
    → IsReady cfg shop cost
    → (0 < shop.worker_threads) ⊎ ((cfg.use_caller_thread ≡ true) × (shop.work_items ≡ 0))
    → 0 < iterations
    → iterations < 2 ^ 32
    → IsShared shop iterations (share cfg shop iterations cost)
unfolding share
share-IsShared cfg shop iterations cost ready someone h small =
    let b = number_of_work_parts_bounds cfg shop iterations cost ready someone h in
    divide-IsShared cfg shop (free_workers cfg shop == 0)
      (number_of_work_parts cfg shop iterations cost) iterations b.0 b.1 b.2 b.3 small
