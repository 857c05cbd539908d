-- ===== src/Examples/Semaphore/Condvar.antt =====
-- Runs of threading/generic_semaphore.cpp, on which its theorems hold.
use sweater.Prelude.{◌+◌, ◌^◌, ◌-◌, ◌≡◌, refl, arith, inl, inr, true, false, [], ◌∷◌}
use sweater.Threads.{weigh}
use sweater.Semaphore.Condvar.{
  outside, parked, System, Reach, new, step, run, wait, take, owe, pass, park, signal_zero,
  release_one_nobody, release_nobody, to_release, is_parked,
}
use sweater.Semaphore.Invariant.{below}
use sweater.Semaphore.Condvar.Safety.{condvar_parked_only_without_tokens}

-- Where workers are selected: one token is signaled while nobody waits, and then two waits return.
abbrev two_for_one : System
two_for_one = record {
  sema = record { value_ = 2 ^ 32 - 1; to_release_ = 0; waiters_ = 0 };
  threads = outside ∷ [];
  signaled = 1;
  taken = 2;
  surplus = 1;
}

two_for_one-Reach : Reach true 256 1 two_for_one
unfolding to_release
two_for_one-Reach =
    step
      (step
        (step
          (step
            (step
              (step
                (step new (
                  run 0 refl (signal_zero {count = 1} (omega arith) (omega arith) (inr refl) refl)))
                (run 0 refl (release_one_nobody refl)))
              (run 0 refl wait))
            (run 0 refl (take (omega arith, omega arith))))
          (run 0 refl wait))
        (run 0 refl (owe (λ h. omega arith))))
      (run 0 refl (pass (omega arith)))

-- Where they are not, the second wait parks.
abbrev second_parked : System
second_parked = record {
  sema = record { value_ = 2 ^ 32 - 1; to_release_ = 0; waiters_ = 1 };
  threads = parked ∷ [];
  signaled = 1;
  taken = 1;
  surplus = 0;
}

second_parked-Reach : Reach false 256 1 second_parked
unfolding to_release
second_parked-Reach =
    step
      (step
        (step
          (step
            (step
              (step
                (step new (
                  run 0 refl (signal_zero {count = 1} (omega arith) (omega arith) (inl refl) refl)))
                (run 0 refl (release_nobody refl)))
              (run 0 refl wait))
            (run 0 refl (take (omega arith, omega arith))))
          (run 0 refl wait))
        (run 0 refl (owe (λ h. omega arith))))
      (run 0 refl (park refl))

condvar_parked_only_without_tokens_example :
    (second_parked.sema.to_release_ ≡ 0)
    × (second_parked.taken ≡ second_parked.signaled + second_parked.surplus)
    × (below second_parked.sema.value_
        ≡ weigh is_parked second_parked.threads + second_parked.surplus)
unfolding weigh
condvar_parked_only_without_tokens_example =
    condvar_parked_only_without_tokens {exact = false} {hc = 256} {n = 1} {s = second_parked}
      (omega arith) second_parked-Reach (omega arith) refl 0 refl
