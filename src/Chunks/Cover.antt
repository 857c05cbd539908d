-- ===== src/Chunks/Cover.antt =====
-- The chunks of a spread cover its iterations, each once.
use sweater.Prelude.{
  ℕ, zero, ap, suc, ◌+◌, ◌-◌, ◌*◌, ◌/◌, ◌%◌, ◌^◌, ◌<◌, ◌≤◌, ◌≡◌, refl, min, u32, ltb, to_int, arith,
}
use native.Mathlib.Nat.{div-add-mod, mod-lt, mod-eq_of_lt}
use sweater.Chunks.Tiles.{Range}
use sweater.Chunks.{ChunkedSpread, chunked_spread, chunk_range, chunk_worker}

mul_split : (x k q : ℕ) → x ≤ k → x * q + (k - x) * q ≡ k * q
mul_split x k q h = let e : k ≡ x + (k - x) = omega arith in omega (arith, ap (λ (t : ℕ). t * q) e)

mul_mono : (k n q : ℕ) → k ≤ n → k * q ≤ n * q
mul_mono k n q h = grind arith

-- Where chunk `k` starts: after `k` chunks, of which `r` at most have one iteration more.
unfoldable pub chunk_start : ℕ → ℕ → ℕ → ℕ
chunk_start q r k = k * q + min k r

-- The arithmetic of the source wraps nowhere.
u32-start :
    (x p q : ℕ)
    → x * q + x + p * q < 2 ^ 32
    → u32 (u32 (x * u32 (q + 1)) + u32 (p * q)) ≡ x * q + x + p * q
u32-start zero p q h = omega arith
u32-start (suc x) p q h = let e : u32 (q + 1) ≡ q + 1 = omega arith in rw e (omega arith)

end_of_start :
    (c : ChunkedSpread) (k : ℕ)
    → (chunk_range c k).end_iteration
      ≡ u32 (
          u32 ((chunk_range c k).start_iteration + c.iterations_per_chunk)
          + to_int (ltb k c.extra_iterations))
unfolding chunk_range
end_of_start c k = refl

module _ (q r : ℕ) (c : ChunkedSpread) (plain : c.iterations_per_chunk ≡ q)
    (extra : c.extra_iterations ≡ r) where
  chunk_range-start :
      (k : ℕ) → chunk_start q r k < 2 ^ 32 → (chunk_range c k).start_iteration ≡ chunk_start q r k
  unfolding chunk_range chunk_start
  chunk_range-start k fits =
      rw (plain, extra)
        (omega (
          arith,
          mul_split (min k r) k q (omega arith),
          u32-start (min k r) (k - min k r) q
              (omega (arith, mul_split (min k r) k q (omega arith))),
        ))

  chunk_range-end :
      (k : ℕ)
      → chunk_start q r (k + 1) < 2 ^ 32
      → (chunk_range c k).end_iteration ≡ chunk_start q r (k + 1)
  unfolding chunk_start
  chunk_range-end k fits =
      ground (arith, plain, extra, end_of_start c k, chunk_range-start k (omega arith))

-- `n` chunks share `iterations`, `q` each and `r` of them one more.
pub record Shares (n iterations q r : ℕ) : Type 0 where
  pub total : n * q + r ≡ iterations
  pub extra : r < n

pub chunk_start_mono :
    (n iterations q r a b : ℕ)
    → Shares n iterations q r
    → a < b
    → b ≤ min n iterations
    → chunk_start q r a < chunk_start q r b
unfolding chunk_start
chunk_start_mono n iterations zero r a b s h k = omega arith
chunk_start_mono n iterations (suc q) r a b s h k =
    omega (arith, mul_mono (a + 1) b (suc q) (omega arith))

pub chunk_start-le :
    (n iterations q r a : ℕ)
    → Shares n iterations q r
    → a ≤ min n iterations
    → chunk_start q r a ≤ iterations
unfolding chunk_start
chunk_start-le n iterations q r a s h = omega (arith, mul_mono a n q (omega arith))

pub chunk_start_last :
    (n iterations q r : ℕ)
    → Shares n iterations q r
    → chunk_start q r (min n iterations) ≡ iterations
unfolding chunk_start
chunk_start_last n iterations zero r s = omega arith
chunk_start_last n iterations (suc q) r s =
    let e : min n iterations ≡ n = omega (arith, mul_mono 1 (suc q) n (omega arith)) in
    rw e (omega arith)

pub div-Shares : (n iterations : ℕ) → 0 < n → Shares n iterations (iterations / n) (iterations % n)
div-Shares n iterations h = record { total = div-add-mod iterations n; extra = mod-lt iterations h }

module _ (m n iterations : ℕ) (some_chunk : 0 < n) (few : n < m) (fits : iterations < 2 ^ 32) where
  abbrev start : ℕ → ℕ
  start = chunk_start (iterations / n) (iterations % n)

  abbrev setup : ChunkedSpread
  setup = chunked_spread m iterations n

  extra_iterations_lem : setup.extra_iterations ≡ iterations % n
  unfolding chunked_spread
  extra_iterations_lem = mod-eq_of_lt (omega (arith, mod-lt iterations some_chunk))

  start-lt : (a : ℕ) → a ≤ min n iterations → start a < 2 ^ 32
  start-lt a h =
      omega (arith, chunk_start-le n iterations _ _ a (div-Shares n iterations some_chunk) h)

  setup-start : (k : ℕ) → k ≤ min n iterations → (chunk_range setup k).start_iteration ≡ start k
  unfolding chunked_spread
  setup-start k h = chunk_range-start _ _ setup refl extra_iterations_lem k (start-lt k h)

  setup-end : (k : ℕ) → k < min n iterations → (chunk_range setup k).end_iteration ≡ start (k + 1)
  unfolding chunked_spread
  setup-end k h =
      chunk_range-end _ _ setup refl extra_iterations_lem k (start-lt (k + 1) (omega arith))

  pub chunk_worker_lem :
      (r : Range)
      → r.start_iteration < r.end_iteration
      → r.end_iteration ≤ min n iterations
      → (chunk_worker m setup r) ≡ record {
        start_iteration = start r.start_iteration;
        end_iteration = start r.end_iteration;
      }
  unfolding chunk_worker
  chunk_worker_lem r h k =
      let first : r.start_iteration % m ≡ r.start_iteration = mod-eq_of_lt (omega arith) in
      let last : (r.end_iteration - 1) % m ≡ r.end_iteration - 1 = mod-eq_of_lt (omega arith) in
      let next : r.end_iteration - 1 + 1 ≡ r.end_iteration = omega arith in
      rw (first, last)
        (ground (
          arith,
          setup-start r.start_iteration (omega arith),
          setup-end r.start_iteration (omega arith),
          setup-end (r.end_iteration - 1) (omega arith),
          ap start next,
        ))

-- Each chunk lies within the iterations, is not empty (what the source asserts), and has
-- iterations / n of them or one more.
chunk_range_size :
    (m n iterations k : ℕ)
    → n < m
    → iterations < 2 ^ 32
    → k < min n iterations
    → (c : ChunkedSpread) → c ≡ chunked_spread m iterations n
    → ((chunk_range c k).start_iteration < (chunk_range c k).end_iteration)
      × ((chunk_range c k).end_iteration ≤ iterations)
      × ((chunk_range c k).start_iteration + iterations / n ≤ (chunk_range c k).end_iteration)
      × ((chunk_range c k).end_iteration ≤ (chunk_range c k).start_iteration + iterations / n + 1)
unfolding chunk_start
chunk_range_size m n iterations k few fits h c e =
    let some_chunk : 0 < n = omega arith in
    let s = div-Shares n iterations some_chunk in
    rw
      (
        e,
        setup-start m n iterations some_chunk few fits k (omega arith),
        setup-end m n iterations some_chunk few fits k h,
      )
      (
        chunk_start_mono n iterations _ _ k (k + 1) s (omega arith) (omega arith),
        chunk_start-le n iterations _ _ (k + 1) s (omega arith),
        omega arith,
        omega arith,
      )
