-- ===== src/Semaphore/Invariant/Counts.antt =====
-- The threads counted by where they stand, and the invariant over the counts.
use sweater.Prelude.{ℕ, ◌+◌, ◌-◌, ◌≤◌, ◌<◌, ◌≡◌, ◌^◌, ◌⊎◌, length, ltb, if◌then◌else◌}
use sweater.Threads.{weigh}
use sweater.Semaphore.Futex.{
  Pc, depositing, deposited, waking, registering, looking, holding, parking, parked, leaving,
  System, is_parked,
}
pub use sweater.Semaphore.Futex.{is_parked}

-- Has taken value_ below what there was, and no credit yet.
abbrev pub in_debt : Pc → ℕ
in_debt registering = 1
in_debt looking = 1
in_debt (holding _) = 1
in_debt parking = 1
in_debt parked = 1
in_debt _ = 0

-- The same, and not parked.
abbrev pub is_awake : Pc → ℕ
is_awake registering = 1
is_awake looking = 1
is_awake (holding _) = 1
is_awake parking = 1
is_awake _ = 0

-- Counted in sleepers_.
abbrev pub registered : Pc → ℕ
registered looking = 1
registered (holding _) = 1
registered parking = 1
registered parked = 1
registered leaving = 1
registered _ = 0

-- Credits that a signal has still to deposit, and parked threads that it has still to wake.
abbrev pub to_deposit : Pc → ℕ
to_deposit (depositing k) = k
to_deposit _ = 0

abbrev pub to_wake : Pc → ℕ
to_wake (deposited k) = k
to_wake (waking k) = k
to_wake _ = 0

-- value_ as an integer: what it is above 0, and what it is below.
abbrev pub above : ℕ → ℕ
above value = if ltb value (2 ^ 31) then value else 0

abbrev pub below : ℕ → ℕ
below value = if ltb value (2 ^ 31) then 0 else 2 ^ 32 - value

pub record Inv (hc n : ℕ) (s : System) : Type 0 where
  pub few : n < hc
  pub small : hc ≤ 2 ^ 16
  pub threads : length s.threads ≡ n
  pub range : s.sema.value_ < 2 ^ 32
  -- each thread in debt has a credit, one on its way, or a token to wait for
  pub debts :
      weigh in_debt s.threads ≡ s.sema.credits_ + weigh to_deposit s.threads + below s.sema.value_
  -- while a thread is parked, each credit has a thread awake to take it, or a wake under way
  pub heard :
      (weigh is_parked s.threads ≡ 0)
      ⊎ (s.sema.credits_ ≤ weigh is_awake s.threads + weigh to_wake s.threads)
  pub exact : s.sema.sleepers_ ≡ weigh registered s.threads
  pub tokens :
      above s.sema.value_ + weigh in_debt s.threads + s.taken ≡ s.signaled + below s.sema.value_
