-- ===== src/Chunks.antt =====
-- include/psi/sweater/spread_chunked.{hpp,cpp}: a spread cut into at most `number_of_chunks` ranges.
-- `m` is the number of values of hardware_concurrency_t (256 or 65536).
pub mod Tiles
pub mod Cover
pub mod Once
use sweater.Prelude.{
  ℕ, ◌+◌, ◌-◌, ◌*◌, ◌/◌, ◌%◌, min, u32, ltb, ◌==◌, if◌then◌else◌, to_int, Bool, List, map,
}
use Tiles.{Range}

pub record ChunkedSpread : Type 0 where
  pub iterations_per_chunk : ℕ
  pub extra_iterations : ℕ

unfoldable pub chunked_spread : ℕ → ℕ → ℕ → ChunkedSpread
chunked_spread m iterations number_of_chunks = record {
  iterations_per_chunk = iterations / number_of_chunks;
  extra_iterations = iterations % number_of_chunks % m;
}

unfoldable pub chunk_range : ChunkedSpread → ℕ → Range
chunk_range c chunk_index = record {
  start_iteration = start_iteration;
  end_iteration = u32 (u32 (start_iteration + c.iterations_per_chunk) + to_int this_has_extra_iter);
}
  where
    extra_iters : ℕ
    extra_iters = min chunk_index c.extra_iterations

    plain_iters : ℕ
    plain_iters = chunk_index - extra_iters

    this_has_extra_iter : Bool
    this_has_extra_iter = ltb chunk_index c.extra_iterations

    start_iteration : ℕ
    start_iteration = u32 (
        u32 (extra_iters * u32 (c.iterations_per_chunk + 1))
        + u32 (plain_iters * c.iterations_per_chunk))

-- The lambda that `spread_chunked` gives to the shop: the arguments of its call of `work`, from the
-- chunk indices of the shop's call.
unfoldable pub chunk_worker : ℕ → ChunkedSpread → Range → Range
chunk_worker m setup r = if r.end_iteration == r.start_iteration + 1 then range else record range {
  end_iteration = (chunk_range setup ((r.end_iteration - 1) % m)).end_iteration;
}
  where
    range : Range
    range = chunk_range setup (r.start_iteration % m)

-- The calls of `work`, where the shop calls the lambda on the ranges `shop (min …)`.
unfoldable pub spread_chunked : ℕ → ℕ → (ℕ → List Range) → ℕ → List Range
unfolding chunked_spread chunk_worker
spread_chunked m number_of_chunks spread_the_sweat iterations =
    map (chunk_worker m (chunked_spread m iterations number_of_chunks))
      (spread_the_sweat (min number_of_chunks iterations))
