-- ===== src/Examples/Shop.antt =====
-- Spreads by generic.cpp and spread_chunked.cpp, on which their theorems hold.
mod Wake
mod Fire
mod Pool
mod Lifetime
mod Joined
mod Control
use sweater.Prelude.{◌+◌, ◌*◌, ◌/◌, ◌<◌, ◌≤◌, min, refl, arith, inl, true, false}
use sweater.Chunks.{chunked_spread, chunk_range, spread_chunked}
use sweater.Chunks.Tiles.{RunsOnce}
use sweater.Shop.Chunked.{spread_chunked-spread_work}
use sweater.Shop.Config.{Config, Shop, Surroundings}
use sweater.Shop.Effects.{executed, Counted}
use sweater.Shop.Spread.{spread_work}
use sweater.Shop.Sharing.{IsReady}
use sweater.Shop.Cover.{spread_work-RunsOnce}
use sweater.Shop.Arrivals.{spread_work-peak, peak}
use sweater.Shop.Items.{spread_work-Counted}

abbrev desktop : Config
desktop = record {
  hc_values = 256;
  use_caller_thread = true;
  exact_worker_selection = true;
  use_parallelization_cost = false;
  slow_thread_signals = false;
  single_core_fallback = true;
}

abbrev three_workers : Shop
three_workers = record { worker_threads = 3; work_items = 0; spread_work_stealing_division = 4 }

-- Two items are being worked on.
abbrev loaded : Shop
loaded = record three_workers { work_items = 2 }

-- A caller from outside the pool, which stalls; the shared queue takes no batch.
abbrev full_queue : Surroundings
full_queue = record {
  called_by_worker = false;
  bulk_enqueued = false;
  worker_enqueued = λ w. true;
  queue_empty = true;
  everyone_arrived = false;
  stalled = true;
  division_unchanged = true;
}

three_workers-IsReady : IsReady desktop three_workers 1
three_workers-IsReady = record {
  countable = omega arith;
  sliceable = inl refl;
  someone = inl (omega arith);
  division_pos = omega arith;
  division_le = omega arith;
  cost_pos = omega arith;
}

spread_work-RunsOnce_example :
    RunsOnce 10 (executed (spread_work desktop three_workers full_queue 10 1).effects)
spread_work-RunsOnce_example =
    spread_work-RunsOnce desktop three_workers full_queue 10 1 three_workers-IsReady (omega arith)
      (λ w. refl)

spread_chunked-spread_work_example : RunsOnce 100 (
    spread_chunked 256 7
      (λ chunks. executed (spread_work desktop three_workers full_queue chunks 1).effects)
      100)
spread_chunked-spread_work_example =
    spread_chunked-spread_work desktop three_workers full_queue 7 100 1 three_workers-IsReady
      (omega arith) (omega arith) (omega arith) (omega arith) (λ w. refl)

-- The refused parts are the ranges that stay counted.
spread_work-Counted_example : Counted (spread_work desktop loaded full_queue 10 1).effects
spread_work-Counted_example = spread_work-Counted desktop loaded full_queue 10 1

spread_work-peak_example :
    peak 0 (spread_work desktop three_workers full_queue 10 1).effects ≤ 3 * 4 + 1
spread_work-peak_example =
    spread_work-peak desktop three_workers full_queue 10 1 three_workers-IsReady (omega arith)
