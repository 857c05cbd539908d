-- ===== src/Examples/Libuv.antt =====
-- A spread over libuv in two chunks, one of which uv_cancel takes back, on which the theorems of
-- Libuv hold.
mod Pending
use sweater.Prelude.{◌≡◌, refl, arith, ◌∷◌, [], to_int, ◌+◌, ◌==◌}
use sweater.Threads.{weigh}
use sweater.Chunks.Tiles.{RunsOnce}
use sweater.Chunks.{chunked_spread}
use sweater.Libuv.{num_chunks}
use sweater.Libuv.Spread.{
  inline, cancelled, called_back, waiting, returned, done, System, run_tail, count_tail, cancel,
  run_inline, count_inline, end_pass, wait, release_caller, add_ref, submit, end_queue,
  release_queuer, after_cancel, Reach, new, step,
}
use sweater.Libuv.Invariant.{refers, caller_refers, queuer_refers}
use sweater.Libuv.Safety.{deletions-holders, wait-latch}
use sweater.Libuv.Cover.{executed, invocations, spread_impl-RunsOnce}

-- The caller has run both chunks; the callback of the cancelled one is to come.
abbrev taken_back : System
taken_back = record {
  chunks = record { place = inline cancelled; runs = 1 } ∷ [];
  tail_runs = 1;
  latch = 0;
  refs = 2;
  deletions = 0;
  caller = waiting;
  queuer = done;
}

taken_back-Reach : Reach 1 taken_back
taken_back-Reach =
    step
      (step
        (step
          (step
            (step
              (step
                (step
                  (step (step (step new (run_tail refl)) (add_ref 0 refl refl))
                    (submit 0 refl refl))
                  (count_tail refl))
                (cancel 0 refl refl refl))
              (end_queue refl))
            (run_inline 0 refl refl))
          (release_queuer refl))
        (count_inline 0 refl))
      (end_pass refl)

abbrev finished : System
finished = record {
  chunks = record { place = inline called_back; runs = 1 } ∷ [];
  tail_runs = 1;
  latch = 0;
  refs = 0;
  deletions = 1;
  caller = returned;
  queuer = done;
}

finished-Reach : Reach 1 finished
finished-Reach =
    step (step (step taken_back-Reach (wait refl refl)) (release_caller refl)) (after_cancel 0 refl)

spread_impl-RunsOnce_example :
    RunsOnce 2 (executed 256 (chunked_spread 256 2 (num_chunks 256 2 4)) 0 (invocations finished))
unfolding num_chunks
spread_impl-RunsOnce_example =
    spread_impl-RunsOnce 256 2 4 finished (omega arith) (omega arith) (omega arith) finished-Reach
      refl

deletions-holders_example :
    finished.deletions
    ≡ to_int (
        weigh refers finished.chunks + caller_refers finished.caller + queuer_refers finished.queuer
        == 0)
deletions-holders_example = deletions-holders 1 finished (omega arith) finished-Reach

wait-latch_example : taken_back.latch ≡ 0
unfolding weigh
wait-latch_example = wait-latch 1 taken_back (omega arith) taken_back-Reach refl refl refl
