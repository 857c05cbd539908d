-- ===== src/Semaphore/Condvar/Invariant/Moves.antt =====
-- Each step keeps the invariant.
use sweater.Prelude.{
  mod_pred, ℕ, suc, ◌+◌, ◌-◌, ◌%◌, ◌≤◌, ◌<◌, ◌≡◌, ◌^◌, ◌⊎◌, inl, inr, length, List, some, get_elem?,
  set, arith, Bool, true, false, min, to_int, subst, sym,
}
use native.Mathlib.Nat.{mod-eq_of_lt}
use sweater.Threads.{weigh, weigh-set, le-weigh, weigh-le-length, weigh_mono, weigh_add, length-set}
use sweater.Semaphore.Condvar.{
  Pc, outside, counting, notifying, notifying_all, owing, woken, parked, Move, Semaphore,
  to_release, notify, signal_free, signal_debt, signal_zero, release_nobody, release, read_waiters,
  release_one_nobody, release_one, notified, spin, try_decrement, spin_lost, spin_again, spun, wait,
  take, owe, park, pass, park_again, leave, spurious, System, Step, run, notify_one, notify_nobody,
  notify_all, notified_all, is_parked,
}
use sweater.Semaphore.Condvar.Invariant.Counts.{
  in_debt, is_awake, registered, to_deposit, to_notify, notifies_all, Inv,
}

-- In debt, and not registered yet.
abbrev is_owing : Pc → ℕ
is_owing owing = 1
is_owing _ = 0

-- What a thread's move from `p` to `q` does to the counts.
record Recount (p q : Pc) (ps qs : List Pc) : Type 0 where
  debts : weigh in_debt qs + in_debt p ≡ weigh in_debt ps + in_debt q
  awakes : weigh is_awake qs + is_awake p ≡ weigh is_awake ps + is_awake q
  parks : weigh is_parked qs + is_parked p ≡ weigh is_parked ps + is_parked q
  registers : weigh registered qs + registered p ≡ weigh registered ps + registered q
  deposits : weigh to_deposit qs + to_deposit p ≡ weigh to_deposit ps + to_deposit q
  notifies : weigh to_notify qs + to_notify p ≡ weigh to_notify ps + to_notify q
  all : weigh notifies_all qs + notifies_all p ≡ weigh notifies_all ps + notifies_all q
  kept : length qs ≡ length ps
  one_owing : is_owing p ≤ weigh is_owing ps
  member : to_deposit p ≤ weigh to_deposit ps

recount : (ps : List Pc) (i : ℕ) (p q : Pc) → get_elem? ps i ≡ some p → Recount p q ps (set ps i q)
recount ps i p q e = record {
  debts = weigh-set in_debt ps i p q e;
  awakes = weigh-set is_awake ps i p q e;
  parks = weigh-set is_parked ps i p q e;
  registers = weigh-set registered ps i p q e;
  deposits = weigh-set to_deposit ps i p q e;
  notifies = weigh-set to_notify ps i p q e;
  all = weigh-set notifies_all ps i p q e;
  kept = length-set ps i q;
  one_owing = le-weigh is_owing ps i p e;
  member = le-weigh to_deposit ps i p e;
}

-- How the counts bound one another.
record Bounds (ps : List Pc) : Type 0 where
  some_debt : weigh in_debt ps ≤ length ps
  some_registered : weigh registered ps ≤ length ps
  split : weigh in_debt ps ≡ weigh is_awake ps + weigh is_parked ps
  registering : weigh in_debt ps ≡ weigh registered ps + weigh is_owing ps
  some_parked : weigh is_parked ps ≤ weigh registered ps

bounds : (ps : List Pc) → Bounds ps
bounds ps = record {
  some_debt = weigh-le-length in_debt ps (λ p. ground arith);
  some_registered = weigh-le-length registered ps (λ p. ground arith);
  split = weigh_add in_debt is_awake is_parked ps (λ p. ground arith);
  registering = weigh_add in_debt registered is_owing ps (λ p. ground arith);
  some_parked = weigh_mono is_parked registered ps (λ p. ground arith);
}

abbrev after : System → Semaphore → List Pc → ℕ → ℕ → ℕ → System
after s sema qs signaled taken surplus = record {
  sema = sema;
  threads = qs;
  signaled = s.signaled + signaled;
  taken = s.taken + taken;
  surplus = s.surplus + surplus;
}

-- What a signal goes on with after it found a debt of at most the threads, or none.
record Releases (p : Pc) (k : ℕ) : Type 0 where
  deposit : to_deposit p ≡ k
  debt : in_debt p ≡ 0
  awake : is_awake p ≡ 0
  park : is_parked p ≡ 0
  register : registered p ≡ 0
  notify : to_notify p ≡ 0
  all : notifies_all p ≡ 0

to_release-debt :
    (exact : Bool) (hc value count : ℕ)
    → (exact ≡ false) ⊎ (count ≡ 1)
    → 0 < count
    → 2 ^ 31 ≤ value
    → value < 2 ^ 32
    → 2 ^ 32 - value < hc
    → Releases (to_release exact hc value count) (min (2 ^ 32 - value) count)
unfolding to_release
to_release-debt true hc value count h k l f d = ground arith
to_release-debt false hc value count h k l f d =
    let small : (2 ^ 32 - value) % 2 ^ 32 ≡ 2 ^ 32 - value = omega arith in
    let same : (2 ^ 32 - value) % 2 ^ 32 % hc ≡ 2 ^ 32 - value = rw small (mod-eq_of_lt d) in
    ground (arith, same)

to_release-zero :
    (exact : Bool) (hc count : ℕ) → 0 < hc → Releases (to_release exact hc 0 count) (to_int exact)
unfolding to_release
to_release-zero true hc count h = ground arith
to_release-zero false hc count h = ground (arith, mod-eq_of_lt h)

-- Whatever number of waiters is read, the notification is enough.
notify-enough :
    (k waiters : ℕ) → (notify k waiters ≡ notifying k) ⊎ (notify k waiters ≡ notifying_all)
unfolding notify
notify-enough k waiters = ground arith

Move-Inv :
    {exact : Bool} {hc n : ℕ} {s : System} {p q : Pc} {sema : Semaphore}
    {signaled taken surplus : ℕ} (qs : List Pc)
    → Move exact hc s.sema p sema q signaled taken surplus
    → s.surplus + surplus + n < hc
    → Inv hc n s
    → Recount p q s.threads qs
    → Bounds s.threads
    → Bounds qs
    → Inv hc n (after s sema qs signaled taken surplus)
Move-Inv qs (signal_free h k o l m) f inv c b b' = ground arith
Move-Inv {exact} {hc} {s} qs (signal_debt {count} h k o l) f inv c b b' =
    let r = to_release-debt exact hc s.sema.value_ count o h l inv.range (ground arith) in
    ground arith
Move-Inv {exact} {hc} {s} qs (signal_zero {count} h k o e) f inv c b b' =
    let r =
      subst (λ v. Releases (to_release exact hc v count) (to_int exact)) (sym e)
        (to_release-zero exact hc count (omega arith)) in
    ground arith
Move-Inv {hc} {s} qs (release_nobody {k} h) f inv c b b' =
    let more : (s.sema.to_release_ + k) % hc ≡ s.sema.to_release_ + k =
      mod-eq_of_lt (ground arith) in
    ground (arith, more)
Move-Inv {hc} {s} qs (release {k} h) f inv c b b' =
    let more : (s.sema.to_release_ + k) % hc ≡ s.sema.to_release_ + k =
      mod-eq_of_lt (ground arith) in
    ground (arith, more)
Move-Inv {s} qs (read_waiters {k}) f inv c b b' = elim (notify-enough k s.sema.waiters_) [
  | inl calls ↦ let d = subst (λ q. Recount (counting k) q s.threads qs) calls c in ground arith
  | inr all ↦ let d = subst (λ q. Recount (counting k) q s.threads qs) all c in ground arith
]
Move-Inv {hc} {s} qs (release_one_nobody h) f inv c b b' =
    let more : (s.sema.to_release_ + 1) % hc ≡ s.sema.to_release_ + 1 =
      mod-eq_of_lt (ground arith) in
    ground (arith, more)
Move-Inv {hc} {s} qs (release_one h) f inv c b b' =
    let more : (s.sema.to_release_ + 1) % hc ≡ s.sema.to_release_ + 1 =
      mod-eq_of_lt (ground arith) in
    ground (arith, more)
Move-Inv qs notified f inv c b b' = ground arith
Move-Inv qs spin f inv c b b' = ground arith
Move-Inv qs (try_decrement h k) f inv c b b' = ground arith
Move-Inv qs (spin_lost h) f inv c b b' = ground arith
Move-Inv qs (spin_again h) f inv c b b' = ground arith
Move-Inv qs spun f inv c b b' = ground arith
Move-Inv qs wait f inv c b b' = ground arith
Move-Inv qs (take h) f inv c b b' = ground arith
Move-Inv qs (owe h) f inv c b b' = ground arith
Move-Inv {hc} {s} qs (park h) f inv c b b' =
    let one_more : (s.sema.waiters_ + 1) % hc ≡ s.sema.waiters_ + 1 = mod-eq_of_lt (ground arith) in
    ground (arith, one_more)
Move-Inv {hc} {s} qs (pass h) f inv c b b' =
    let one_more : (s.sema.waiters_ + 1) % hc ≡ s.sema.waiters_ + 1 = mod-eq_of_lt (ground arith) in
    let one_less : (s.sema.waiters_ + 1 + (hc - 1)) % hc ≡ s.sema.waiters_ + 1 - 1 =
      mod_pred (s.sema.waiters_ + 1) hc (omega arith) (ground arith) in
    rw one_more (ground (arith, one_less))
Move-Inv qs (park_again h) f inv c b b' = ground arith
Move-Inv {hc} {s} qs (leave h) f inv c b b' =
    let one_less : (s.sema.waiters_ + (hc - 1)) % hc ≡ s.sema.waiters_ - 1 =
      mod_pred s.sema.waiters_ hc (ground arith) (ground arith) in
    ground (arith, one_less)
Move-Inv qs spurious f inv c b b' = ground arith

-- Every step keeps the invariant.
pub Step-Inv :
    {exact : Bool} {hc n : ℕ} {s t : System}
    → Step exact hc s t
    → t.surplus + n < hc
    → Inv hc n s
    → Inv hc n t
Step-Inv {s} (run i {p} {q} e m) f inv =
    let c = recount s.threads i p q e in
    Move-Inv (set s.threads i q) m f inv c (bounds s.threads) (bounds (set s.threads i q))
Step-Inv {s} (notify_one i j k e d) f inv =
    let mid = set s.threads i (notifying k) in
    let c = recount s.threads i (notifying (suc k)) (notifying k) e in
    let c' = recount mid j parked woken d in let b = bounds (set mid j woken) in ground arith
Step-Inv {s} (notify_nobody i k e h) f inv =
    let c = recount s.threads i (notifying (suc k)) (notifying k) e in ground arith
Step-Inv {s} (notify_all i j e d) f inv = let c = recount s.threads j parked woken d in ground arith
Step-Inv {s} (notified_all i e h) f inv =
    let c = recount s.threads i notifying_all outside e in ground arith

pub Step-surplus :
    {exact : Bool} {hc : ℕ} {s t : System} → Step exact hc s t → s.surplus ≤ t.surplus
Step-surplus (run i e m) = omega arith
Step-surplus (notify_one i j k e d) = omega arith
Step-surplus (notify_nobody i k e h) = omega arith
Step-surplus (notify_all i j e d) = omega arith
Step-surplus (notified_all i e h) = omega arith
