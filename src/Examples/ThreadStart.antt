-- ===== src/Examples/ThreadStart.antt =====
-- Starts of a thread, on which the theorems of ThreadStart hold.
use sweater.Prelude.{◌+◌, ◌≤◌, ◌≡◌, true, false, refl, inl, inr}
use sweater.ThreadStart.{
  synchronized, on_heap, asleep, back, ready, ended, absent, System, create, refuse, return,
  destroy, see_uncopied, sleep, copy, flag, notify_nobody, call, end, Reach, new, step,
}
use sweater.ThreadStart.Invariant.{
  is_back, is_thrown, is_ended, is_flagged, is_called, of_heap, of_synchronized,
}
use sweater.ThreadStart.Safety.{start-functor, refused-stays}

-- The thread deletes the functor after operator= has returned.
abbrev done : System
done = record {
  creator = back;
  starter = ended;
  functor_copied_ = false;
  was_refused = false;
  calls = 1;
  deletes = 1;
}

done-Reach : Reach on_heap done
done-Reach =
    step (step (step (step new (create refl)) (call refl)) (return (λ e. cc) refl)) (end refl)

start-functor_example :
    (done.calls ≡ is_called done.starter)
    × (done.deletes ≡ of_heap on_heap (is_ended done.starter + is_thrown done.creator))
    × (done.deletes ≤ 1)
    × (of_synchronized on_heap (is_back done.creator) ≤ is_flagged on_heap done.starter)
start-functor_example = start-functor {p = on_heap} {s = done} done-Reach

abbrev no_thread : System
no_thread = record {
  creator = asleep;
  starter = absent;
  functor_copied_ = false;
  was_refused = true;
  calls = 0;
  deletes = 0;
}

no_thread-Reach : Reach synchronized no_thread
no_thread-Reach =
    step (step (step (step new (refuse refl)) (destroy refl (inr refl))) (see_uncopied refl refl))
      (sleep refl)

refused-stays_example : is_back no_thread.creator + is_thrown no_thread.creator ≡ 0
refused-stays_example = refused-stays {s = no_thread} no_thread-Reach refl

-- The notification came between the caller's test and its wait, and the caller sleeps.
abbrev missed : System
missed = record {
  creator = asleep;
  starter = ready;
  functor_copied_ = true;
  was_refused = false;
  calls = 0;
  deletes = 0;
}

missed-Reach : Reach synchronized missed
missed-Reach =
    step
      (step
        (step
          (step
            (step (step (step new (create refl)) (destroy refl (inl refl)))
              (see_uncopied refl refl))
            (copy refl refl))
          (flag refl))
        (notify_nobody refl (λ e. cc)))
      (sleep refl)
