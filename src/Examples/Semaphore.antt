-- ===== src/Examples/Semaphore.antt =====
-- Runs of threading/futex_semaphore.cpp, on which its theorems hold.
mod Condvar
use sweater.Prelude.{◌^◌, ◌-◌, ◌≤◌, ◌≡◌, refl, arith, [], ◌∷◌}
use sweater.Threads.{weigh}
use sweater.Semaphore.Futex.{
  outside, parked, System, Reach, new, step, run, wait, owe, register, see_none, park, signal_free,
  take, is_parked,
}
use sweater.Semaphore.Invariant.{below}
use sweater.Semaphore.Safety.{taken-le-signaled, parked_only_without_tokens}

-- One thread signals a token and takes it; another comes to wait for the next one, and parks.
abbrev one_parked : System
one_parked = record {
  sema = record { value_ = 2 ^ 32 - 1; credits_ = 0; sleepers_ = 1 };
  threads = outside ∷ parked ∷ [];
  signaled = 1;
  taken = 1;
}

one_parked-Reach : Reach 256 2 one_parked
one_parked-Reach =
    step
      (step
        (step
          (step
            (step
              (step
                (step
                  (step new (
                    run 0 refl (signal_free {count = 1} (omega arith) (omega arith) (omega arith))))
                  (run 0 refl wait))
                (run 0 refl (take (omega arith, omega arith))))
              (run 1 refl wait))
            (run 1 refl (owe (λ h. omega arith))))
          (run 1 refl register))
        (run 1 refl (see_none refl)))
      (run 1 refl (park refl))

taken-le-signaled_example : 1 ≤ 1
taken-le-signaled_example =
    taken-le-signaled {hc = 256} {n = 2} {s = one_parked} (omega arith) (omega arith)
      one_parked-Reach

parked_only_without_tokens_example :
    (one_parked.taken ≡ one_parked.signaled)
    × (one_parked.sema.credits_ ≡ 0)
    × (below one_parked.sema.value_ ≡ weigh is_parked one_parked.threads)
unfolding weigh
parked_only_without_tokens_example =
    parked_only_without_tokens {hc = 256} {n = 2} {s = one_parked} (omega arith) (omega arith)
      one_parked-Reach refl 1 refl
