-- ===== src/Semaphore/Invariant/Moves.antt =====
-- Each step keeps the invariant.
use sweater.Prelude.{
  mod_pred, ℕ, suc, ◌+◌, ◌-◌, ◌%◌, ◌≤◌, ◌≡◌, ◌^◌, length, List, some, get_elem?, set, arith,
}
use native.Mathlib.Nat.{mod-eq_of_lt}
use sweater.Threads.{weigh, weigh-set, le-weigh, weigh-le-length, weigh_mono, weigh_add, length-set}
use sweater.Semaphore.Futex.{
  Pc, outside, waking, looking, parked, Move, Semaphore, signal_nothing, signal_free, signal_debt,
  deposit, nobody_sleeps, somebody_sleeps, spin, try_decrement, spin_lost, spin_again, spun, wait,
  take, owe, register, see_credits, see_none, consume, lose_credits, lose_all, park, no_park,
  spurious, leave, System, Step, run, wake, woken, is_parked,
}
use sweater.Semaphore.Invariant.Counts.{in_debt, is_awake, registered, to_deposit, to_wake, Inv}

-- What a thread's move from `p` to `q` does to the counts.
record Recount (p q : Pc) (ps qs : List Pc) : Type 0 where
  debts : weigh in_debt qs + in_debt p ≡ weigh in_debt ps + in_debt q
  awakes : weigh is_awake qs + is_awake p ≡ weigh is_awake ps + is_awake q
  parks : weigh is_parked qs + is_parked p ≡ weigh is_parked ps + is_parked q
  registers : weigh registered qs + registered p ≡ weigh registered ps + registered q
  deposits : weigh to_deposit qs + to_deposit p ≡ weigh to_deposit ps + to_deposit q
  wakes : weigh to_wake qs + to_wake p ≡ weigh to_wake ps + to_wake q
  kept : length qs ≡ length ps
  member : to_deposit p ≤ weigh to_deposit ps

recount : (ps : List Pc) (i : ℕ) (p q : Pc) → get_elem? ps i ≡ some p → Recount p q ps (set ps i q)
recount ps i p q e = record {
  debts = weigh-set in_debt ps i p q e;
  awakes = weigh-set is_awake ps i p q e;
  parks = weigh-set is_parked ps i p q e;
  registers = weigh-set registered ps i p q e;
  deposits = weigh-set to_deposit ps i p q e;
  wakes = weigh-set to_wake ps i p q e;
  kept = length-set ps i q;
  member = le-weigh to_deposit ps i p e;
}

-- How the counts bound one another.
record Bounds (n : ℕ) (ps : List Pc) : Type 0 where
  some_debt : weigh in_debt ps ≤ length ps
  some_registered : weigh registered ps ≤ length ps
  split : weigh in_debt ps ≡ weigh is_awake ps + weigh is_parked ps
  some_parked : weigh is_parked ps ≤ weigh registered ps

bounds : (n : ℕ) (ps : List Pc) → Bounds n ps
bounds n ps = record {
  some_debt = weigh-le-length in_debt ps (λ p. ground arith);
  some_registered = weigh-le-length registered ps (λ p. ground arith);
  split = weigh_add in_debt is_awake is_parked ps (λ p. ground arith);
  some_parked = weigh_mono is_parked registered ps (λ p. ground arith);
}

abbrev after : System → Semaphore → List Pc → ℕ → ℕ → System
after s sema qs signaled taken = record {
  sema = sema;
  threads = qs;
  signaled = s.signaled + signaled;
  taken = s.taken + taken;
}

Move-Inv :
    {hc n : ℕ} {s : System} {p q : Pc} {sema : Semaphore} {signaled taken : ℕ} (qs : List Pc)
    → Move hc s.sema p sema q signaled taken
    → Inv hc n s
    → Recount p q s.threads qs
    → Bounds n s.threads
    → Bounds n qs
    → Inv hc n (after s sema qs signaled taken)
Move-Inv qs signal_nothing inv c b b' = omega arith
Move-Inv qs (signal_free h k l) inv c b b' = ground arith
Move-Inv {hc} {s} qs (signal_debt h k l) inv c b b' =
    let debt : (2 ^ 32 - s.sema.value_) % hc ≡ 2 ^ 32 - s.sema.value_ =
      mod-eq_of_lt (ground arith) in
    ground (arith, debt)
Move-Inv qs deposit inv c b b' = ground arith
Move-Inv qs (nobody_sleeps h) inv c b b' = ground arith
Move-Inv qs (somebody_sleeps h) inv c b b' = ground arith
Move-Inv qs spin inv c b b' = ground arith
Move-Inv qs (try_decrement h k) inv c b b' = ground arith
Move-Inv qs (spin_lost h) inv c b b' = ground arith
Move-Inv qs (spin_again h) inv c b b' = ground arith
Move-Inv qs spun inv c b b' = ground arith
Move-Inv qs wait inv c b b' = ground arith
Move-Inv qs (take h) inv c b b' = ground arith
Move-Inv qs (owe h) inv c b b' = ground arith
Move-Inv {hc} {s} qs register inv c b b' =
    let one_more : (s.sema.sleepers_ + 1) % hc ≡ s.sema.sleepers_ + 1 =
      mod-eq_of_lt (ground arith) in
    ground (arith, one_more)
Move-Inv qs (see_credits h) inv c b b' = ground arith
Move-Inv qs (see_none h) inv c b b' = ground arith
Move-Inv qs (consume h k) inv c b b' = ground arith
Move-Inv qs (lose_credits h) inv c b b' = ground arith
Move-Inv qs (lose_all h) inv c b b' = ground arith
Move-Inv qs (park h) inv c b b' = ground arith
Move-Inv qs (no_park h) inv c b b' = ground arith
Move-Inv qs spurious inv c b b' = ground arith
Move-Inv {hc} {s} qs leave inv c b b' =
    let one_less : (s.sema.sleepers_ + (hc - 1)) % hc ≡ s.sema.sleepers_ - 1 =
      mod_pred s.sema.sleepers_ hc (ground arith) (ground arith) in
    ground (arith, one_less)

-- Every step keeps the invariant.
pub Step-Inv : {hc n : ℕ} {s t : System} → Step hc s t → Inv hc n s → Inv hc n t
Step-Inv {n} {s} (run i {p} {q} e m) inv =
    let c = recount s.threads i p q e in
    Move-Inv (set s.threads i q) m inv c (bounds n s.threads) (bounds n (set s.threads i q))
Step-Inv {n} {s} (wake i j k e f) inv =
    let mid = set s.threads i (waking k) in
    let c = recount s.threads i (waking (suc k)) (waking k) e in
    let d = recount mid j parked looking f in let b = bounds n (set mid j looking) in ground arith
Step-Inv {n} {s} (woken i k e h) inv =
    let c = recount s.threads i (waking k) outside e in ground arith
