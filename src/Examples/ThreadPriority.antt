-- ===== src/Examples/ThreadPriority.antt =====
-- The range of macOS's SCHED_OTHER policy, in which a priority is chosen.
use sweater.Prelude.{◌+◌, ◌≡◌, refl}
use sweater.ThreadPriority.{low, priority_value, round_divide}

-- 14 * 32 / 39 is 11.49, and 12 is added.
low_rounds_up : priority_value 15 47 low ≡ 15 + 12
unfolding priority_value round_divide
low_rounds_up = refl
