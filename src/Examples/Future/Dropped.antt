-- ===== src/Examples/Future/Dropped.antt =====
-- An outcome_promise that is dropped, on which the theorems of Future.OutcomeFuture hold.
use sweater.Prelude.{ℕ, ◌+◌, ◌≡◌, min, refl, arith, Bool, true, some}
use sweater.Future.Lite.{thrown, moved_from, Producer, for_get, got}
use sweater.Future.OutcomeFuture.{
  System, Reach, new, step, abandon, complete, signal, signaled, drop, wait, take, mark_waited, get,
  release_promise,
}
use sweater.Future.OutcomeFuture.Safety.{outcome_users, outcome_deleted_after_last_use}

-- The promise is gone without a result, and get() returned broken_promise, here `true`.
abbrev got_broken : System ℕ Bool
got_broken = record {
  slot = record {
    completion_ = 0;
    storage_ = moved_from;
    owners_ = 1;
    completed_ = true;
    waited_ = true;
    deletes = 0;
  };
  producer = Producer.gone;
  consumer = got (thrown true);
  given = some (thrown true);
}

got_broken-Reach : Reach true got_broken
got_broken-Reach =
    step
      (step
        (step
          (step
            (step
              (step
                (step (step (step (step new (abandon refl refl)) (complete refl)) (signal refl))
                  (signaled refl))
                (drop refl refl))
              (release_promise refl (λ h. omega arith)))
            (wait for_get refl))
          (take refl refl (omega arith)))
        (mark_waited refl))
      (get refl refl)

outcome_deleted_after_last_use_example :
    got_broken.slot.deletes + min 1 (outcome_users got_broken) ≡ 1
outcome_deleted_after_last_use_example =
    outcome_deleted_after_last_use {A = ℕ} {E = Bool} {broken = true} {s = got_broken}
      got_broken-Reach
