-- ===== src/SystemPools.antt =====
-- The shops that hand a spread to a pool of the system: impls/apple.hpp (GCD), impls/windows.hpp
-- and impls/openmp.hpp, and impls/single_threaded.hpp, which has none. What the system does is a
-- parameter: in which order dispatch_apply_f and `omp for` make their calls, and which chunks
-- TrySubmitThreadpoolCallback takes.
pub mod Cover
pub mod Fire
use sweater.Prelude.{
  ℕ, zero, suc, ◌+◌, ◌*◌, ◌-◌, ◌/◌, ◌%◌, ◌≤◌, ◌≡◌, min, Bool, true, false, List, [], ◌∷◌, ◌++◌, map,
  ltb, ◌==◌, if◌then◌else◌, to_int, length, u32, not,
}
use sweater.Chunks.Tiles.{Range}
use sweater.Chunks.{ChunkedSpread, chunked_spread, chunk_range}

pub data SystemPool : Type 0 where
  -- the indices that dispatch_apply_f calls, for a number of calls
  apple : (dispatch_apply : ℕ → List ℕ) → SystemPool
  -- whether the system takes a chunk
  windows : (submits : ℕ → Bool) → SystemPool
  -- omp_get_num_threads, and the loop's iterations in the order of their calls
  openmp : (number_of_workers : ℕ) (omp_for : ℕ → List ℕ) → SystemPool
  single_threaded : SystemPool

-- The chunks below `n` that a test holds of.
unfoldable pub chosen : (ℕ → Bool) → ℕ → List ℕ
chosen p zero = []
chosen p (suc n) = chosen p n ++ (if p n then n ∷ [] else [])

-- windows.hpp: the chunks that the system's threads run, and those that the caller runs inline.
abbrev pub submitted_or_inline : (ℕ → Bool) → ℕ → List ℕ
submitted_or_inline submits n = chosen submits n ++ chosen (λ i. not (submits i)) n

abbrev pub run_chunk : ℕ → ChunkedSpread → ℕ → Range
run_chunk hc_values setup chunk = chunk_range setup (chunk % hc_values)

-- openmp.hpp: what a worker runs, and how many rounds the loop has.
abbrev pub iterations_per_worker : ℕ → ℕ → ℕ
iterations_per_worker iterations number_of_workers = iterations / number_of_workers + 1

abbrev pub omp_range : ℕ → ℕ → ℕ → Range
omp_range iterations per_worker round = record {
  start_iteration = round * per_worker;
  end_iteration = min iterations (round * per_worker + per_worker);
}

abbrev pub omp_rounds : ℕ → ℕ → ℕ
omp_rounds iterations per_worker = (iterations + (per_worker - 1)) / per_worker

-- The calls of the work, whoever makes them.
unfoldable pub spread_the_sweat :
    (hc_values hardware_concurrency_max : ℕ) → SystemPool → ℕ → List Range
spread_the_sweat hc_values hardware_concurrency_max (apple dispatch_apply) iterations =
    let number_of_chunks = 4 * hardware_concurrency_max in
    map (run_chunk hc_values (chunked_spread hc_values iterations number_of_chunks))
      (dispatch_apply (min number_of_chunks iterations))
spread_the_sweat hc_values hardware_concurrency_max (windows submits) iterations =
    if iterations == 0
    then []
    else let num_chunks = min iterations (4 * hardware_concurrency_max) in
      map (run_chunk hc_values (chunked_spread hc_values iterations num_chunks))
        (submitted_or_inline submits num_chunks)
spread_the_sweat hc_values hardware_concurrency_max (openmp number_of_workers omp_for) iterations =
    let per_worker = iterations_per_worker iterations number_of_workers in
    map (omp_range iterations per_worker) (omp_for (omp_rounds iterations per_worker))
spread_the_sweat hc_values hardware_concurrency_max single_threaded iterations =
    if iterations == 0 then [] else record { start_iteration = 0; end_iteration = iterations } ∷ []
