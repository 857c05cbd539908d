-- ===== src/Chunks/Once.antt =====
-- A chunked spread calls its work once on each iteration, when the shop calls it once on each chunk.
use sweater.Prelude.{
  ℕ, zero, suc, ◌-◌, ◌/◌, ◌%◌, ◌^◌, ◌<◌, ◌≤◌, ◌≡◌, ◌⊎◌, refl, min, List, [], ◌∷◌, map, length,
  arith, inl, inr, ◌∙◌, ap,
}
use sweater.Chunks.Tiles.{Range, times, NonEmpty, RunsOnce}
use sweater.Chunks.Cover.{
  chunk_start, chunk_start_mono, chunk_start-le, chunk_start_last, div-Shares, chunk_worker_lem,
}
use sweater.Chunks.{chunked_spread, chunk_worker, spread_chunked}

-- Every range ends by `stop`.
abbrev Within : ℕ → List Range → Type 0
Within stop [] = Unit
Within stop (r ∷ rs) = (r.end_iteration ≤ stop) × Within stop rs

NonEmpty-Within :
    (stop : ℕ) (rs : List Range)
    → NonEmpty rs
    → ((i : ℕ) → stop ≤ i → times i rs ≡ 0)
    → Within stop rs
NonEmpty-Within stop [] h never = tt
NonEmpty-Within stop (r ∷ rs) h never = (
  ground (arith, never (r.end_iteration - 1)),
  NonEmpty-Within stop rs h.1 (λ i k. omega (arith, never i k)),
)

lt_or_ge : (a b : ℕ) → (a < b) ⊎ (b ≤ a)
lt_or_ge a b = ground arith

-- Where `i` lies between the values of `f`.
locate :
    (f : ℕ → ℕ) (i stop : ℕ)
    → f 0 ≤ i
    → i < f stop
    → (c : ℕ) × (c < stop) × (f c ≤ i) × (i < f (suc c))
locate f i zero h k = absurd (omega arith)
locate f i (suc stop) h k = elim (lt_or_ge i (f stop)) [
  | inl below ↦ let (c, l, at, next) = locate f i stop h below in (c, omega arith, at, next)
  | inr above ↦ (stop, omega arith, above, k)
]

module _ (m n iterations : ℕ) (some_chunk : 0 < n) (few : n < m) (fits : iterations < 2 ^ 32) where
  abbrev start : ℕ → ℕ
  start = chunk_start (iterations / n) (iterations % n)

  abbrev calls : List Range → List Range
  calls rs = map (chunk_worker m (chunked_spread m iterations n)) rs

  first : (i : ℕ) → start 0 ≤ i
  unfolding chunk_start
  first i = omega arith

  start_mono : (a b : ℕ) → a ≤ b → b ≤ min n iterations → start a ≤ start b
  start_mono a b h k = elim (lt_or_ge a b) [
    | inl l ↦
        omega
          (arith, chunk_start_mono n iterations _ _ a b (div-Shares n iterations some_chunk) l k)
    | inr g ↦ let e : a ≡ b = omega arith in omega (arith, ap start e)
  ]

  length-calls : (rs : List Range) → length (calls rs) ≡ length rs
  length-calls [] = refl
  length-calls (r ∷ rs) = ap suc (length-calls rs)

  calls-NonEmpty :
      (rs : List Range) → NonEmpty rs → Within (min n iterations) rs → NonEmpty (calls rs)
  calls-NonEmpty [] h k = tt
  calls-NonEmpty (r ∷ rs) h k = rw (chunk_worker_lem m n iterations some_chunk few fits r h.0 k.0) (
    chunk_start_mono n iterations _ _ _ _ (div-Shares n iterations some_chunk) h.0 k.0,
    calls-NonEmpty rs h.1 k.1,
  )

  -- On which side of a chunk's start an iteration lies.
  side :
      (i c a : ℕ)
      → c < min n iterations
      → start c ≤ i
      → i < start (suc c)
      → a ≤ min n iterations
      → ((start a ≤ i) × (a ≤ c)) ⊎ ((i < start a) × (c < a))
  side i c a l at next h = elim (lt_or_ge c a) [
    | inl after ↦ inr (omega (arith, start_mono (suc c) a (omega arith) h), after)
    | inr before ↦ inl (omega (arith, start_mono a c before (omega arith)), before)
  ]

  -- An iteration of chunk `c` is in a call as the chunk is in the shop's call.
  times-calls :
      (i c : ℕ) (rs : List Range)
      → c < min n iterations
      → start c ≤ i
      → i < start (suc c)
      → NonEmpty rs
      → Within (min n iterations) rs
      → times i (calls rs) ≡ times c rs
  times-calls i c [] l at next h k = refl
  times-calls i c (r ∷ rs) l at next h k =
      rw (chunk_worker_lem m n iterations some_chunk few fits r h.0 k.0) (
        ground (
          arith,
          side i c r.start_iteration l at next (omega arith),
          side i c r.end_iteration l at next k.0,
          times-calls i c rs l at next h.1 k.1,
        ))

  -- An iteration beyond the last chunk is in no call.
  times-beyond :
      (i : ℕ) (rs : List Range)
      → iterations ≤ i
      → NonEmpty rs
      → Within (min n iterations) rs
      → times i (calls rs) ≡ 0
  times-beyond i [] l h k = refl
  times-beyond i (r ∷ rs) l h k =
      rw (chunk_worker_lem m n iterations some_chunk few fits r h.0 k.0) (
        ground (
          arith,
          chunk_start-le n iterations _ _ r.end_iteration (div-Shares n iterations some_chunk) k.0,
          times-beyond i rs l h.1 k.1,
        ))

-- When a shop calls the lambda once on each chunk, never on an empty range, `spread_chunked` calls
-- the work once on each iteration, never on an empty range, and at most `iterations` times. The
-- number of chunks is positive and below the number of values of hardware_concurrency_t, and
-- `iterations` is a std::uint32_t.
pub spread_chunked-RunsOnce :
    (m n iterations : ℕ) (spread_the_sweat : ℕ → List Range)
    → 0 < n
    → n < m
    → iterations < 2 ^ 32
    → ((k : ℕ) → k ≤ n → RunsOnce k (spread_the_sweat k))
    → RunsOnce iterations (spread_chunked m n spread_the_sweat iterations)
unfolding spread_chunked
spread_chunked-RunsOnce m n iterations spread_the_sweat h k f shop =
    let s = div-Shares n iterations h in
    let last = min n iterations in
    let rs = spread_the_sweat last in
    let ok = shop last (omega arith) in
    let within = NonEmpty-Within last rs ok.some_work (λ i l. ok.once i ∙ ground arith) in
    record {
      once = λ i. elim (lt_or_ge i iterations) [
        | inl below ↦
            let (c, l, at, next) =
              locate (start m n iterations h k f) i last (first m n iterations h k f i)
                (omega (arith, chunk_start_last n iterations _ _ s)) in
            times-calls m n iterations h k f i c rs l at next ok.some_work within
            ∙ ok.once c
            ∙ ground arith
        | inr beyond ↦
            times-beyond m n iterations h k f i rs beyond ok.some_work within ∙ ground arith
      ];
      some_work = calls-NonEmpty m n iterations h k f rs ok.some_work within;
      few = omega (arith, length-calls m n iterations h k f rs, ok.few);
    }
