-- ===== src/Chunks/Tiles.antt =====
-- Ranges of iterations, and lists of them that cut an interval with no gap and no overlap.
use sweater.Prelude.{
  ℕ, ◌+◌, ◌<◌, ◌≤◌, ◌≡◌, List, [], ◌∷◌, ◌++◌, arith, ltb, leb, ◌&&◌, to_int, length,
}

-- The iterations from `start_iteration` up to, and without, `end_iteration`.
pub record Range : Type 0 where
  pub start_iteration : ℕ
  pub end_iteration : ℕ

-- The ranges follow one another from `a` to `b`, and none is empty.
abbrev pub Tiles : ℕ → ℕ → List Range → Type 0
Tiles a b [] = a ≡ b
Tiles a b (r ∷ rs) = (r.start_iteration ≡ a) × (a < r.end_iteration) × Tiles r.end_iteration b rs

-- How many of the ranges hold iteration `i`.
abbrev pub times : ℕ → List Range → ℕ
times i [] = 0
times i (r ∷ rs) = to_int (leb r.start_iteration i && ltb i r.end_iteration) + times i rs

-- No range is empty.
abbrev pub NonEmpty : List Range → Type 0
NonEmpty [] = Unit
NonEmpty (r ∷ rs) = (r.start_iteration < r.end_iteration) × NonEmpty rs

-- The ranges hold each iteration below `iterations` once and no other, none is empty, and there
-- are no more of them than iterations.
pub record RunsOnce (iterations : ℕ) (rs : List Range) : Type 0 where
  pub once : (i : ℕ) → times i rs ≡ to_int (ltb i iterations)
  pub some_work : NonEmpty rs
  pub few : length rs ≤ iterations

pub Tiles-le : (a b : ℕ) (rs : List Range) → Tiles a b rs → a ≤ b
Tiles-le a b [] t = omega arith
Tiles-le a b (r ∷ rs) t = omega (arith, Tiles-le r.end_iteration b rs t.2)

pub Tiles-append :
    (a b c : ℕ) (rs ss : List Range) → Tiles a b rs → Tiles b c ss → Tiles a c (rs ++ ss)
Tiles-append a b c [] ss t u = ground arith
Tiles-append a b c (r ∷ rs) ss t u = (t.0, t.1, Tiles-append r.end_iteration b c rs ss t.2 u)

-- There are no more ranges than iterations.
pub length-le-Tiles : (a b : ℕ) (rs : List Range) → Tiles a b rs → length rs + a ≤ b
length-le-Tiles a b [] t = omega arith
length-le-Tiles a b (r ∷ rs) t = omega (arith, length-le-Tiles r.end_iteration b rs t.2)

-- Iterations in the interval are held once, others never.
pub times-Tiles :
    (a b i : ℕ) (rs : List Range) → Tiles a b rs → times i rs ≡ to_int (leb a i && ltb i b)
times-Tiles a b i [] t = ground arith
times-Tiles a b i (r ∷ rs) t =
    ground (arith, times-Tiles r.end_iteration b i rs t.2, Tiles-le r.end_iteration b rs t.2)

pub times-append : (i : ℕ) (rs ss : List Range) → times i (rs ++ ss) ≡ times i rs + times i ss
times-append i [] ss = omega arith
times-append i (r ∷ rs) ss = omega (arith, times-append i rs ss)
