-- ===== src/Libuv/Cover.antt =====
-- That the chunks of a spread over libuv run every iteration once.
use sweater.Prelude.{
  ℕ, zero, suc, ◌+◌, ◌-◌, ◌%◌, ◌^◌, ◌≤◌, ◌<◌, ◌≡◌, refl, true, List, [], ◌∷◌, ◌++◌, map, some,
  get_elem?, replicate, length, arith, ap, ◌∙◌, min, subst, ◌==◌,
}
use sweater.Chunks.Tiles.{Range, Tiles, NonEmpty, RunsOnce, times-Tiles, length-le-Tiles}
use sweater.Chunks.{ChunkedSpread, chunked_spread, chunk_range, chunk_worker, spread_chunked}
use sweater.Chunks.Once.{spread_chunked-RunsOnce}
use sweater.Libuv.{num_chunks}
use sweater.Libuv.Spread.{Chunk, System, Reach}
use sweater.Libuv.Invariant.{is_over}
use sweater.Libuv.Safety.{runs_lem, tail_runs_lem}

-- How often each chunk was invoked, the caller's own at the end.
abbrev pub invocations : System → List ℕ
invocations s = map (λ c. c.runs) s.chunks ++ s.tail_runs ∷ []

-- The arguments of the invocations, from chunk `k` on.
abbrev pub executed : ℕ → ChunkedSpread → ℕ → List ℕ → List Range
executed hc_values setup k [] = []
executed hc_values setup k (runs ∷ rest) =
    replicate runs (chunk_range setup (k % hc_values)) ++ executed hc_values setup (k + 1) rest

-- The chunks one by one.
abbrev singles : ℕ → ℕ → List Range
singles k zero = []
singles k (suc n) = record { start_iteration = k; end_iteration = k + 1 } ∷ singles (k + 1) n

singles-Tiles : (k n : ℕ) → Tiles k (k + n) (singles k n)
singles-Tiles k zero = omega arith
singles-Tiles k (suc n) =
    let e : k + 1 + n ≡ k + suc n = omega arith in
    (
      refl,
      omega arith,
      subst (λ j. Tiles (k + 1) j (singles (k + 1) n)) e (singles-Tiles (k + 1) n),
    )

singles-NonEmpty : (k n : ℕ) → NonEmpty (singles k n)
singles-NonEmpty k zero = tt
singles-NonEmpty k (suc n) = (omega arith, singles-NonEmpty (k + 1) n)

singles-RunsOnce : (n : ℕ) → RunsOnce n (singles 0 n)
singles-RunsOnce n = record {
  once = λ i. times-Tiles 0 (0 + n) i (singles 0 n) (singles-Tiles 0 n) ∙ ground arith;
  some_work = singles-NonEmpty 0 n;
  few = omega (arith, length-le-Tiles 0 (0 + n) (singles 0 n) (singles-Tiles 0 n));
}

same_self : (n : ℕ) → (n == n) ≡ true
same_self n = ground arith

executed-singles :
    (hc_values : ℕ) (setup : ChunkedSpread) (k n : ℕ)
    → executed hc_values setup k (replicate n 1) ≡ map (chunk_worker hc_values setup) (singles k n)
unfolding chunk_worker
executed-singles hc_values setup k zero = refl
executed-singles hc_values setup k (suc n) =
    rw (same_self (k + 1), executed-singles hc_values setup (k + 1) n) refl

ones :
    (cs : List Chunk)
    → ((k : ℕ) (c : Chunk) → get_elem? cs k ≡ some c → c.runs ≡ 1)
    → map (λ c. c.runs) cs ++ 1 ∷ [] ≡ replicate (suc (length cs)) 1
ones [] h = refl
ones (c ∷ cs) h = rw (h 0 c refl) (ap (λ xs. 1 ∷ xs) (ones cs (λ k. h (suc k))))

num_chunks-le :
    (hc_values iterations num_workers : ℕ)
    → 1 < num_chunks hc_values iterations num_workers
    → (num_chunks hc_values iterations num_workers < hc_values)
      × (num_chunks hc_values iterations num_workers ≤ iterations)
unfolding num_chunks
num_chunks-le hc_values iterations num_workers h = (omega (arith, h), omega arith)

whole :
    (hc_values iterations n : ℕ)
    → 0 < n
    → n < hc_values
    → n ≤ iterations
    → iterations < 2 ^ 32
    → RunsOnce iterations
        (map (chunk_worker hc_values (chunked_spread hc_values iterations n)) (singles 0 n))
unfolding spread_chunked
whole hc_values iterations n some_chunk small le fits =
    let e : min n iterations ≡ n = omega (arith, le) in
    subst
      (λ k.
        RunsOnce iterations
          (map (chunk_worker hc_values (chunked_spread hc_values iterations n)) (singles 0 k)))
      e
      (spread_chunked-RunsOnce hc_values n iterations (λ k. singles 0 k) some_chunk small fits
        (λ k h. singles-RunsOnce k))

-- Once the caller of spread_impl is back, every iteration was run once and no other, by no empty
-- range and at most `iterations` invocations, whatever the workers, the loop and the steal-back pass
-- did in between. There is more than one chunk (one is run at once), at most as many as
-- hardware_concurrency_t can index, with fewer than 2 ^ 31 values of it; `iterations` is a
-- std::uint32_t.
pub spread_impl-RunsOnce :
    (hc_values iterations num_workers : ℕ) (s : System)
    → let n = num_chunks hc_values iterations num_workers in
      1 < n
      → hc_values < 2 ^ 31
      → iterations < 2 ^ 32
      → Reach (n - 1) s
      → is_over s.caller ≡ true
      → RunsOnce iterations
          (executed hc_values (chunked_spread hc_values iterations n) 0 (invocations s))
spread_impl-RunsOnce hc_values iterations num_workers s some_parts small fits r over =
    let n = num_chunks hc_values iterations num_workers in
    let (lt, le) = num_chunks-le hc_values iterations num_workers some_parts in
    let (tail_once, count) = tail_runs_lem (n - 1) s (omega (arith, lt, small)) r over in
    let m : suc (length s.chunks) ≡ n = omega (arith, count, some_parts) in
    let each = ones s.chunks (λ k c. runs_lem (n - 1) k s c (omega (arith, lt, small)) r over) in
    let all : invocations s ≡ replicate n 1 =
      ap (λ t. map (λ c. c.runs) s.chunks ++ t ∷ []) tail_once ∙ each ∙ ap (λ j. replicate j 1) m in
    rw (all, executed-singles hc_values (chunked_spread hc_values iterations n) 0 n)
      (whole hc_values iterations n (omega (arith, some_parts)) lt le fits)
