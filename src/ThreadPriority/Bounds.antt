-- ===== src/ThreadPriority/Bounds.antt =====
-- The priorities that the system is asked for.
use native.Mathlib.Nat.{mul-le-mul_right, mul-le-mul, mod-eq_of_lt}
use sweater.Prelude.{ℕ, ◌+◌, ◌-◌, ◌*◌, ◌/◌, ◌^◌, ◌≤◌, ◌<◌, ◌≡◌, arith, refl}
use sweater.ThreadPriority.{
  Priority, idle, background, low, normal, high, foreground, time_critical, nice_value, below_idle,
  round_divide, priority_value,
}

-- 39 is api_range.
round_divide_lem : (n : ℕ) → n ≤ 39 * 255 → round_divide n 39 ≡ (n + 20) / 39
unfolding round_divide
round_divide_lem n h = ground arith

below_idle-le : (p : Priority) → below_idle (nice_value p) ≤ 39
below_idle-le idle = omega arith
below_idle-le background = omega arith
below_idle-le low = omega arith
below_idle-le normal = omega arith
below_idle-le high = omega arith
below_idle-le foreground = omega arith
below_idle-le time_critical = omega arith

priority_value_lem :
    (least greatest : ℕ) (p : Priority)
    → greatest - least < 2 ^ 8
    → priority_value least greatest p
      ≡ least + (below_idle (nice_value p) * (greatest - least) + 20) / 39
unfolding priority_value
priority_value_lem least greatest p fits =
    let n = below_idle (nice_value p) * (greatest - least) in
    let range_le : greatest - least ≤ 255 = omega (arith, fits) in
    let product : n ≤ 39 * 255 = mul-le-mul (below_idle-le p) range_le in
    let small : n < 2 ^ 16 = omega (arith, product) in
    rw (mod-eq_of_lt fits, mod-eq_of_lt small, round_divide_lem n product) refl

-- The priority that the system is asked for lies within its policy's range, which spans fewer than 256
-- priorities, is the least for idle and the greatest for time_critical, and does not go down as the
-- nice value does.
priority_value_mono :
    (least greatest : ℕ) (p q : Priority)
    → least ≤ greatest
    → greatest - least < 2 ^ 8
    → below_idle (nice_value p) ≤ below_idle (nice_value q)
    → (least ≤ priority_value least greatest p)
      × (priority_value least greatest p ≤ priority_value least greatest q)
      × (priority_value least greatest q ≤ greatest)
      × (priority_value least greatest idle ≡ least)
      × (priority_value least greatest time_critical ≡ greatest)
priority_value_mono least greatest p q order fits le =
    let at_p = priority_value_lem least greatest p fits in
    let at_q = priority_value_lem least greatest q fits in
    let at_idle = priority_value_lem least greatest idle fits in
    let at_critical = priority_value_lem least greatest time_critical fits in
    let up = mul-le-mul_right (greatest - least) le in
    let top = mul-le-mul_right (greatest - least) (below_idle-le q) in
    (
      omega (arith, at_p),
      omega (arith, at_p, at_q, up),
      omega (arith, at_q, top, order),
      omega (arith, at_idle),
      omega (arith, at_critical, order),
    )
