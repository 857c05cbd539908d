-- ===== src/Shop/Chunked.antt =====
-- include/psi/sweater/spread_chunked.hpp over the shop of generic.cpp.
use sweater.Prelude.{ℕ, ◌^◌, ◌<◌, ◌≤◌, ◌≡◌, true, arith}
use sweater.Chunks.Tiles.{RunsOnce}
use sweater.Chunks.{spread_chunked}
use sweater.Chunks.Once.{spread_chunked-RunsOnce}
use sweater.Shop.Config.{Config, Shop, Surroundings}
use sweater.Shop.Effects.{executed}
use sweater.Shop.Spread.{spread_work}
use sweater.Shop.Sharing.{IsReady}
use sweater.Shop.Cover.{spread_work-RunsOnce}

-- A chunked spread over the shop calls its work once on each iteration, never on an empty range,
-- and at most `iterations` times. The shop is ready for the spread (`IsReady`), the queue takes the
-- slices that are enqueued for a single worker, the number of chunks is positive and below the number
-- of values of hardware_concurrency_t, which are 2 ^ 32 at most, and `iterations` is a std::uint32_t.
pub spread_chunked-spread_work :
    (cfg : Config) (shop : Shop) (env : Surroundings) (number_of_chunks iterations cost : ℕ)
    → IsReady cfg shop cost
    → 0 < number_of_chunks
    → number_of_chunks < cfg.hc_values
    → cfg.hc_values ≤ 2 ^ 32
    → iterations < 2 ^ 32
    → ((w : ℕ) → env.worker_enqueued w ≡ true)
    → RunsOnce iterations (
        spread_chunked cfg.hc_values number_of_chunks
          (λ chunks. executed (spread_work cfg shop env chunks cost).effects)
          iterations)
spread_chunked-spread_work cfg shop env n iterations cost ready some_chunk few small fits taken =
    spread_chunked-RunsOnce cfg.hc_values n iterations _ some_chunk few fits
      (λ k h. spread_work-RunsOnce cfg shop env k cost ready (omega arith) taken)
