-- ===== src/Semaphore/Condvar/Invariant/Counts.antt =====
-- The threads counted by where they stand, and the invariant over the counts.
use sweater.Prelude.{ℕ, ◌+◌, ◌≤◌, ◌<◌, ◌≡◌, ◌^◌, ◌⊎◌, length}
use sweater.Threads.{weigh}
use sweater.Semaphore.Invariant.{above, below}
use sweater.Semaphore.Condvar.{
  Pc, releasing, releasing_one, counting, notifying, notifying_all, owing, parked, woken, System,
  is_parked,
}

-- Has taken value_ below what there was, and was not released yet.
abbrev pub in_debt : Pc → ℕ
in_debt owing = 1
in_debt parked = 1
in_debt woken = 1
in_debt _ = 0

-- The same, and not parked.
abbrev pub is_awake : Pc → ℕ
is_awake owing = 1
is_awake woken = 1
is_awake _ = 0

-- Counted in waiters_.
abbrev pub registered : Pc → ℕ
registered parked = 1
registered woken = 1
registered _ = 0

-- Releases that a signal has still to make, threads that it has still to notify one by one or all at
-- once, and
-- calls of notify_all under way.
abbrev pub to_deposit : Pc → ℕ
to_deposit (releasing k) = k
to_deposit releasing_one = 1
to_deposit _ = 0

abbrev pub to_notify : Pc → ℕ
to_notify (counting k) = k
to_notify (notifying k) = k
to_notify _ = 0

abbrev pub notifies_all : Pc → ℕ
notifies_all notifying_all = 1
notifies_all _ = 0

pub record Inv (hc n : ℕ) (s : System) : Type 0 where
  pub few : s.surplus + n < hc
  pub small : hc ≤ 2 ^ 16
  pub threads : length s.threads ≡ n
  pub range : s.sema.value_ < 2 ^ 32
  -- each release is for a thread in debt, or is surplus
  pub debts :
      weigh in_debt s.threads + s.surplus
      ≡ s.sema.to_release_ + weigh to_deposit s.threads + below s.sema.value_
  -- while a thread is parked, each release has a thread awake to take it, or a notification
  pub heard :
      (weigh is_parked s.threads ≡ 0)
      ⊎ (0 < weigh notifies_all s.threads)
      ⊎ (s.sema.to_release_ ≤ weigh is_awake s.threads + weigh to_notify s.threads)
  pub exact : s.sema.waiters_ ≡ weigh registered s.threads
  pub tokens :
      above s.sema.value_ + weigh in_debt s.threads + s.taken ≡ s.signaled + below s.sema.value_
