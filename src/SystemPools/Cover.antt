-- ===== src/SystemPools/Cover.antt =====
-- That a spread over a pool of the system runs every iteration once.
use sweater.Prelude.{ℕ, ◌+◌, ◌/◌, ◌≤◌, ◌<◌, ◌≡◌, List, [], ◌∷◌, ltb, ◌==◌, to_int, length}
use sweater.Chunks.Tiles.{Range}
use sweater.SystemPools.{SystemPool, apple, windows, openmp, single_threaded, omp_rounds}

-- How often a number stands in a list.
abbrev pub count : ℕ → List ℕ → ℕ
count i [] = 0
count i (c ∷ cs) = to_int (c == i) + count i cs

-- Each number below `n` is called once, and no other.
pub record EachOnce (n : ℕ) (calls : List ℕ) : Type 0 where
  pub once : (i : ℕ) → count i calls ≡ to_int (ltb i n)
  pub few : length calls ≤ n

-- The chunks of the calls, one by one.
abbrev single : ℕ → Range
single c = record { start_iteration = c; end_iteration = c + 1 }

module _ (iterations per_worker : ℕ) (some_step : 0 < per_worker) where
  abbrev round_of : ℕ → ℕ
  round_of i = i / per_worker

  abbrev rounds : ℕ
  rounds = omp_rounds iterations per_worker

-- What the documentation of the system's pools says: each call is made once.
abbrev pub KeepsItsWord : SystemPool → Type 0
KeepsItsWord (apple dispatch_apply) = (n : ℕ) → EachOnce n (dispatch_apply n)
KeepsItsWord (windows submits) = Unit
KeepsItsWord (openmp number_of_workers omp_for) = (n : ℕ) → EachOnce n (omp_for n)
KeepsItsWord single_threaded = Unit
