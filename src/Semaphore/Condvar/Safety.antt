-- ===== src/Semaphore/Condvar/Safety.antt =====
-- What the condition variable semaphore promises its callers, whatever the interleaving.
use sweater.Prelude.{ℕ, ◌+◌, ◌≤◌, ◌<◌, ◌≡◌, ◌^◌, some, get_elem?, arith, Bool, false, refl}
use sweater.Threads.{weigh, weigh_add, le-weigh, weigh-eq-zero}
use sweater.Semaphore.Invariant.{below}
use sweater.Semaphore.Condvar.{
  Pc, outside, parked, System, Semaphore, Move, signal_free, signal_debt, signal_zero,
  release_nobody, release, read_waiters, release_one_nobody, release_one, notified, spin,
  try_decrement, spin_lost, spin_again, spun, wait, take, owe, park, pass, park_again, leave,
  spurious, Reach, new, step, run, notify_one, notify_nobody, notify_all, notified_all, is_parked,
}
use sweater.Semaphore.Condvar.Invariant.{
  Reach-Inv, in_debt, is_awake, to_deposit, to_notify, notifies_all,
}

-- Neither in signal() nor on its way to sleep: outside the semaphore, or parked.
abbrev pub is_busy : Pc → ℕ
is_busy outside = 0
is_busy parked = 0
is_busy _ = 1

-- No more waits return than tokens were signaled, and one more for each signal that, where workers
-- are selected, found `value_` at 0. The surplus and the threads fit hardware_concurrency_t.
taken-le-surplus :
    {exact : Bool} {hc n : ℕ} {s : System}
    → hc ≤ 2 ^ 16
    → Reach exact hc n s
    → s.surplus + n < hc
    → s.taken ≤ s.signaled + s.surplus
taken-le-surplus small r fits = let inv = Reach-Inv small r fits in ground arith

Move-surplus :
    {hc : ℕ} {s : Semaphore} {p q : Pc} {t : Semaphore} {signaled taken surplus : ℕ}
    → Move false hc s p t q signaled taken surplus
    → surplus ≡ 0
Move-surplus (signal_free _ _ _ _ _) = refl
Move-surplus (signal_debt _ _ _ _) = refl
Move-surplus (signal_zero _ _ _ _) = refl
Move-surplus (release_nobody _) = refl
Move-surplus (release _) = refl
Move-surplus read_waiters = refl
Move-surplus (release_one_nobody _) = refl
Move-surplus (release_one _) = refl
Move-surplus notified = refl
Move-surplus spin = refl
Move-surplus (try_decrement _ _) = refl
Move-surplus (spin_lost _) = refl
Move-surplus (spin_again _) = refl
Move-surplus spun = refl
Move-surplus wait = refl
Move-surplus (take _) = refl
Move-surplus (owe _) = refl
Move-surplus (park _) = refl
Move-surplus (pass _) = refl
Move-surplus (park_again _) = refl
Move-surplus (leave _) = refl
Move-surplus spurious = refl

-- Without the selection of workers there is no surplus.
no_surplus : {hc n : ℕ} {s : System} → Reach false hc n s → s.surplus ≡ 0
no_surplus new = refl
no_surplus (step r (run i e m)) = omega (arith, no_surplus r, Move-surplus m)
no_surplus (step r (notify_one i j k e d)) = no_surplus r
no_surplus (step r (notify_nobody i k e h)) = no_surplus r
no_surplus (step r (notify_all i j e d)) = no_surplus r
no_surplus (step r (notified_all i e h)) = no_surplus r

-- Where workers are not selected, no more waits return than tokens were signaled. There are fewer
-- threads than hardware_concurrency_t has values.
condvar_taken-le-signaled :
    {hc n : ℕ} {s : System} → hc ≤ 2 ^ 16 → n < hc → Reach false hc n s → s.taken ≤ s.signaled
condvar_taken-le-signaled small few r =
    let none = no_surplus r in omega (arith, taken-le-surplus small r (omega arith))

-- No notification is lost: when every thread is outside the semaphore or parked, and one is parked,
-- no release lies unused, each token and each surplus release was taken, and value_ is as far below
-- 0 as threads are parked, less the surplus. The surplus and the threads fit
-- hardware_concurrency_t.
pub condvar_parked_only_without_tokens :
    {exact : Bool} {hc n : ℕ} {s : System}
    → hc ≤ 2 ^ 16
    → Reach exact hc n s
    → s.surplus + n < hc
    → weigh is_busy s.threads ≡ 0
    → (i : ℕ) → get_elem? s.threads i ≡ some parked
    → (s.sema.to_release_ ≡ 0)
      × (s.taken ≡ s.signaled + s.surplus)
      × (below s.sema.value_ ≡ weigh is_parked s.threads + s.surplus)
condvar_parked_only_without_tokens {s} small r fits quiet i here =
    let inv = Reach-Inv small r fits in
    let still = weigh-eq-zero is_busy is_awake s.threads (λ p. ground arith) quiet in
    let nothing = weigh-eq-zero is_busy to_deposit s.threads (λ p. ground arith) quiet in
    let nobody = weigh-eq-zero is_busy to_notify s.threads (λ p. ground arith) quiet in
    let no_call = weigh-eq-zero is_busy notifies_all s.threads (λ p. ground arith) quiet in
    let split = weigh_add in_debt is_awake is_parked s.threads (λ p. ground arith) in
    let one = le-weigh is_parked s.threads i parked here in ground arith
