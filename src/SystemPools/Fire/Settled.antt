-- ===== src/SystemPools/Fire/Settled.antt =====
-- What becomes of a fired item, whatever the system grants.
use sweater.Prelude.{ℕ, ◌+◌, Bool, true, false, List, [], ◌∷◌}
use sweater.SystemPools.Fire.{
  Ended, returned, returned_void, threw_system_error, Event, allocate, run, deallocate,
}

-- How many events a weight counts.
abbrev pub total : (Event → ℕ) → List Event → ℕ
total w [] = 0
total w (e ∷ es) = w e + total w es

abbrev pub is_run : Event → ℕ
is_run run = 1
is_run _ = 0

abbrev pub is_allocate : Event → ℕ
is_allocate allocate = 1
is_allocate _ = 0

abbrev pub is_deallocate : Event → ℕ
is_deallocate deallocate = 1
is_deallocate _ = 0

-- Whether the caller is told that the work is taken: by true, or by a return where nothing is returned.
abbrev pub accepted : Ended → Bool
accepted (returned fired) = fired
accepted returned_void = true
accepted threw_system_error = false
