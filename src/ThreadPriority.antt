-- ===== src/ThreadPriority.antt =====
-- threading/posix/thread.{hpp,cpp}: thread_impl::set_priority outside Android, with the least and the
-- greatest priority of the system's SCHED_OTHER policy as parameters.
pub mod Bounds
use sweater.Prelude.{ℕ, suc, ◌+◌, ◌-◌, ◌*◌, ◌/◌, ◌%◌, ◌^◌, ℤ, pos, negsuc, leb, to_int}

pub data Priority : Type 0 where
  idle : Priority
  background : Priority
  low : Priority
  normal : Priority
  high : Priority
  foreground : Priority
  time_critical : Priority

-- The enumerators' values, which are nice values.
abbrev pub nice_value : Priority → ℤ
nice_value idle = pos 19
nice_value background = pos 10
nice_value low = pos 5
nice_value normal = pos 0
nice_value high = negsuc 4
nice_value foreground = negsuc 9
nice_value time_critical = negsuc 19

-- How far a nice value that is 19 at most lies below idle's, as a std::uint8_t.
abbrev pub below_idle : ℤ → ℕ
below_idle (pos n) = (19 - n) % 2 ^ 8
below_idle (negsuc n) = (19 + suc n) % 2 ^ 8

abbrev pub api_range : ℕ
api_range = below_idle (nice_value time_critical)

unfoldable pub round_divide : ℕ → ℕ → ℕ
round_divide numerator denominator =
    let integral_division = numerator / denominator in
    let at_least_half_remainder = leb (denominator / 2) (numerator % denominator) in
    (integral_division + to_int at_least_half_remainder) % 2 ^ 8

-- What is asked of the system for a thread.
unfoldable pub priority_value : (least greatest : ℕ) → Priority → ℕ
priority_value least greatest p =
    let platform_range = (greatest - least) % 2 ^ 8 in
    let uninverted_nice_value = below_idle (nice_value p) in
    least + round_divide ((uninverted_nice_value * platform_range) % 2 ^ 16) api_range
