-- ===== src/Semaphore/Safety.antt =====
-- What the semaphore promises its callers, whatever the interleaving.
use sweater.Prelude.{ℕ, ◌≤◌, ◌<◌, ◌≡◌, ◌^◌, some, get_elem?, arith}
use sweater.Threads.{weigh, weigh_add, le-weigh, weigh-eq-zero}
use sweater.Semaphore.Futex.{Pc, outside, parked, System, Reach, is_parked}
use sweater.Semaphore.Invariant.{Reach-Inv, in_debt, is_awake, to_deposit, to_wake, below}

-- Neither in signal() nor on its way to sleep: outside the semaphore, or parked.
abbrev pub is_busy : Pc → ℕ
is_busy outside = 0
is_busy parked = 0
is_busy _ = 1

-- No more tokens are taken than were signaled, at any point of any interleaving. There are fewer
-- threads than hardware_concurrency_t has values, at most 2 ^ 16.
pub taken-le-signaled :
    {hc n : ℕ} {s : System} → n < hc → hc ≤ 2 ^ 16 → Reach hc n s → s.taken ≤ s.signaled
taken-le-signaled few small r = let inv = Reach-Inv few small r in ground arith

-- No wake-up is lost: when every thread is outside the semaphore or parked, and one is parked,
-- then every token signaled was taken, no credit lies unused, and value_ is as far below 0 as
-- threads are parked. There are fewer threads than hardware_concurrency_t has values.
pub parked_only_without_tokens :
    {hc n : ℕ} {s : System}
    → n < hc
    → hc ≤ 2 ^ 16
    → Reach hc n s
    → weigh is_busy s.threads ≡ 0
    → (i : ℕ) → get_elem? s.threads i ≡ some parked
    → (s.taken ≡ s.signaled)
      × (s.sema.credits_ ≡ 0)
      × (below s.sema.value_ ≡ weigh is_parked s.threads)
parked_only_without_tokens {s} few small r quiet i here =
    let inv = Reach-Inv few small r in
    let still = weigh-eq-zero is_busy is_awake s.threads (λ p. ground arith) quiet in
    let nothing_to_deposit = weigh-eq-zero is_busy to_deposit s.threads (λ p. ground arith) quiet in
    let nobody_to_wake = weigh-eq-zero is_busy to_wake s.threads (λ p. ground arith) quiet in
    let split = weigh_add in_debt is_awake is_parked s.threads (λ p. ground arith) in
    let one = le-weigh is_parked s.threads i parked here in ground arith
