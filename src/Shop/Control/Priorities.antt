-- ===== src/Shop/Control/Priorities.antt =====
-- Which workers set_priority has reached.
use sweater.Prelude.{ℕ, Bool, false, ◌||◌, ◌==◌, List, [], ◌∷◌, Option, none, some}
use sweater.Shop.Control.{Call}

-- Whether a call was made on worker `i`.
abbrev pub is_on : Option ℕ → ℕ → Bool
is_on none i = false
is_on (some j) i = j == i

abbrev pub ran : List Call → ℕ → Bool
ran [] i = false
ran (c ∷ calls) i = is_on c.runner i || ran calls i
