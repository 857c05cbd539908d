-- ===== src/SpinLock/Safety.antt =====
-- What the spin lock promises its callers, whatever the interleaving.
use sweater.Prelude.{
  ℕ, ◌+◌, ◌≤◌, ◌≡◌, Bool, true, false, to_int, List, some, get_elem?, set, refl, arith,
}
use sweater.SpinLock.{
  Pc, outside, locking, inside, SpinLock, call_lock, try_in_loop, call_try_lock, call_unlock, Reach,
  new, step, try_lock, unlock, after_lock, after_try_lock,
}
use sweater.Threads.{weigh, weigh-set, weigh-replicate}

abbrev pub has_lock : Pc → ℕ
has_lock inside = 1
has_lock _ = 0

to_int-le : (b : Bool) → to_int b ≤ 1
to_int-le true = omega arith
to_int-le false = omega arith

try_lock-flag : (flag_ : Bool) → to_int (try_lock flag_).0 + to_int flag_ ≡ 1
unfolding try_lock
try_lock-flag true = refl
try_lock-flag false = refl

module _ (threads : List Pc) (i : ℕ) where
  -- A try takes the lock exactly if nobody has it.
  try_lock-has_lock :
      (flag_ : Bool) (p : Pc) (after : Bool → Pc)
      → get_elem? threads i ≡ some p
      → has_lock p ≡ 0
      → has_lock (after true) ≡ 1
      → has_lock (after false) ≡ 0
      → weigh has_lock threads ≡ to_int flag_
      → weigh has_lock (set threads i (after (try_lock flag_).0)) ≡ to_int (try_lock flag_).1
  unfolding try_lock
  try_lock-has_lock true p after here free got missed h =
      omega (arith, weigh-set has_lock threads i p (after false) here, free, missed, h)
  try_lock-has_lock false p after here free got missed h =
      omega (arith, weigh-set has_lock threads i p (after true) here, free, got, h)

  unlock-has_lock :
      (flag_ : Bool)
      → get_elem? threads i ≡ some inside
      → weigh has_lock threads ≡ to_int flag_
      → weigh has_lock (set threads i outside) ≡ to_int (unlock flag_)
  unfolding unlock
  unlock-has_lock flag_ here h =
      omega (arith, weigh-set has_lock threads i inside outside here, h, to_int-le flag_)

flag-has_lock : {n : ℕ} {s : SpinLock} → Reach n s → weigh has_lock s.threads ≡ to_int s.flag_
flag-has_lock {n} new = weigh-replicate has_lock n outside refl
flag-has_lock (step {s} r (call_lock i e)) =
    omega (arith, flag-has_lock r, weigh-set has_lock s.threads i outside locking e)
flag-has_lock (step {s} r (try_in_loop i e)) =
    try_lock-has_lock s.threads i s.flag_ locking after_lock e refl refl refl (flag-has_lock r)
flag-has_lock (step {s} r (call_try_lock i e)) =
    try_lock-has_lock s.threads i s.flag_ outside after_try_lock e refl refl refl (flag-has_lock r)
flag-has_lock (step {s} r (call_unlock i e)) =
    unlock-has_lock s.threads i s.flag_ e (flag-has_lock r)

-- At every point of every interleaving one thread at most has the lock, and the flag tells whether
-- one has it. The next try, whoever makes it,
-- takes the lock exactly if nobody has it.
pub spin_lock-exclusive :
    {n : ℕ} {s : SpinLock}
    → Reach n s
    → (weigh has_lock s.threads ≤ 1)
      × (weigh has_lock s.threads ≡ to_int s.flag_)
      × (to_int (try_lock s.flag_).0 + weigh has_lock s.threads ≡ 1)
spin_lock-exclusive {s} r =
    let h = flag-has_lock r in
    (omega (arith, h, to_int-le s.flag_), h, omega (arith, h, try_lock-flag s.flag_))
