-- ===== src/Examples/SpinLock.antt =====
-- Two threads over the lock of threading/cpp/spin_lock.hpp, on which its theorem holds.
use sweater.Prelude.{◌+◌, ◌≤◌, ◌≡◌, to_int, true, refl, [], ◌∷◌}
use sweater.SpinLock.{
  inside, locking, SpinLock, Reach, new, step, call_lock, try_in_loop, call_try_lock, call_unlock,
  try_lock, unlock,
}
use sweater.SpinLock.Safety.{has_lock, spin_lock-exclusive}
use sweater.Threads.{weigh}

-- The first thread had the lock, the second waits in lock(); the first unlocked, and took it again.
abbrev contended : SpinLock
contended = record { flag_ = true; threads = inside ∷ locking ∷ [] }

contended-Reach : Reach 2 contended
unfolding try_lock unlock
contended-Reach =
    step
      (step
        (step
          (step (step (step new (call_try_lock 0 refl)) (call_lock 1 refl)) (try_in_loop 1 refl))
          (call_unlock 0 refl))
        (call_lock 0 refl))
      (try_in_loop 0 refl)

spin_lock-exclusive_example :
    (weigh has_lock contended.threads ≤ 1)
    × (weigh has_lock contended.threads ≡ to_int contended.flag_)
    × (to_int (try_lock contended.flag_).0 + weigh has_lock contended.threads ≡ 1)
spin_lock-exclusive_example = spin_lock-exclusive {n = 2} {s = contended} contended-Reach
