-- ===== src/Examples/Future.antt =====
-- A promise that gets a number, and its future, on which the theorems of Future hold.
mod Dropped
use sweater.Prelude.{ℕ, ◌+◌, ◌<◌, ◌≡◌, ◌≢◌, min, refl, arith, Bool, true, false, none, some}
use sweater.Future.Lite.{
  Outcome, value, Storage, moved_from, done, signaling, Purpose, for_get, waiting, waited, got,
  got_moved_from, get_end, waited_before, get_moved_from, System, Reach, new, step, make,
  store_value, flag_value, complete, signal, signaled, wait, take, mark_waited, get_value,
}
use sweater.Future.Lite.Invariant.{value_of}
use sweater.Future.Lite.Safety.{users, deleted_after_last_use, got-given}

-- The promise has 7 and signaled it, and the future's thread waits in get(). The exceptions are Booleans.
abbrev given_seven : System ℕ Bool
given_seven = record {
  slot = record {
    completion_ = 1;
    exception_ = none;
    storage_ = Storage.holds 7;
    owners_ = 2;
    has_value_ = true;
    completed_ = true;
    waited_ = false;
    deletes = 0;
  };
  producer = signaling;
  consumer = waiting for_get;
  given = some (value 7);
  values_moved = 0;
}

given_seven-Reach : Reach false given_seven
given_seven-Reach =
    step
      (step (step (step (step new (store_value 7 refl)) (flag_value refl)) (complete refl))
        (wait for_get refl))
      (signal refl)

-- It took the token.
abbrev past_wait : System ℕ Bool
past_wait = record given_seven {
  slot = record given_seven.slot { completion_ = 0; waited_ = true };
  consumer = waited for_get;
}

past_wait-Reach : Reach false past_wait
past_wait-Reach = step (step given_seven-Reach (take refl refl (omega arith))) (mark_waited refl)

-- And the value.
abbrev got_seven : System ℕ Bool
got_seven = record past_wait {
  slot = record past_wait.slot { storage_ = moved_from };
  consumer = got (value 7);
  values_moved = 1;
}

got_seven-Reach : Reach false got_seven
got_seven-Reach = step past_wait-Reach (get_value refl refl refl)

-- And of the next get().
abbrev got_again : System ℕ Bool
got_again = record got_seven { consumer = got_moved_from }

got_again-Reach : Reach false got_again
got_again-Reach =
    step
      (step (step (step got_seven-Reach (get_end refl)) (wait for_get refl))
        (waited_before refl refl))
      (get_moved_from refl refl refl)

got-given_example : (value_of got_again.given ≡ true) × (got_again.values_moved ≡ 1)
got-given_example = got-given {A = ℕ} {E = Bool} {broken = false} {s = got_again} got_again-Reach

deleted_after_last_use_example : got_seven.slot.deletes + min 1 (users got_seven) ≡ 1
deleted_after_last_use_example =
    deleted_after_last_use {A = ℕ} {E = Bool} {broken = false} {s = got_seven} got_seven-Reach
