-- ===== src/Libuv/Invariant/Counting.antt =====
-- The latch, the references and the deletions through the steps.
use sweater.Libuv.Invariant.References.{refs_inc, refs_dec, gone_lem}
use sweater.Libuv.Invariant.Chunks.{referred-pending}
use sweater.Libuv.Invariant.{
  AllOk, owed, place_refers, refers, caller_owes, queuer_owes, caller_refers, queuer_refers,
  is_over, tail_ran, Counts, place_owes,
}
use sweater.Prelude.{ℕ, ◌+◌, ◌^◌, ◌<◌, arith, ap, ◌∙◌}
use sweater.Threads.{weigh-set, length-set}
use sweater.Libuv.Spread.{
  no_request, cancelled, called_back, submitted, working, worked, counted, closed, inline, System,
  Step, run_tail, count_tail, steal_pending, cancel, leave_chunk, run_inline, count_inline,
  end_pass, wait, release_caller, skip, add_ref, submit, refuse, run_refused, count_refused,
  end_queue, release_queuer, take_request, work, count_down, after_work, after_cancel,
}

pub Step-Counts :
    (n : ℕ) {s t : System}
    → Step s t
    → AllOk s.chunks s.caller s.queuer
    → n + 4 < 2 ^ 32
    → Counts n s
    → Counts n t
Step-Counts n {s} (run_tail e) a h c = record {
  fits = c.fits;
  latch = ground (arith, c.latch, ap (λ x. caller_owes x) e);
  refs = ground (arith, c.refs, ap (λ x. caller_refers x) e);
  gone = c.gone;
  tail = ground (arith, c.tail, ap (λ x. tail_ran x) e);
  over = λ x. absurd (cc);
}
Step-Counts n {s} (count_tail e) a h c = record {
  fits = c.fits;
  latch = ground (arith, c.latch, ap (λ x. caller_owes x) e);
  refs = ground (arith, c.refs, ap (λ x. caller_refers x) e);
  gone = c.gone;
  tail = ground (arith, c.tail, ap (λ x. tail_ran x) e);
  over = λ x. absurd (cc);
}
Step-Counts n {s} (steal_pending i {n = m} e l f) a h c = record {
  fits = length-set s.chunks i _ ∙ c.fits;
  latch = ground (
    arith,
    c.latch,
    ap (λ x. caller_owes x) e,
    weigh-set owed s.chunks i _ (record { place = inline no_request; runs = m }) f,
  );
  refs = ground (
    arith,
    c.refs,
    ap (λ x. caller_refers x) e,
    weigh-set refers s.chunks i _ (record { place = inline no_request; runs = m }) f,
  );
  gone = c.gone;
  tail = ground (arith, c.tail, ap (λ x. tail_ran x) e);
  over = λ x. absurd (cc);
}
Step-Counts n {s} (cancel i {n = m} e l f) a h c = record {
  fits = length-set s.chunks i _ ∙ c.fits;
  latch = ground (
    arith,
    c.latch,
    ap (λ x. caller_owes x) e,
    weigh-set owed s.chunks i _ (record { place = inline cancelled; runs = m }) f,
  );
  refs = ground (
    arith,
    c.refs,
    ap (λ x. caller_refers x) e,
    weigh-set refers s.chunks i _ (record { place = inline cancelled; runs = m }) f,
  );
  gone = c.gone;
  tail = ground (arith, c.tail, ap (λ x. tail_ran x) e);
  over = λ x. absurd (cc);
}
Step-Counts n {s} (leave_chunk i e l f x) a h c = record {
  fits = c.fits;
  latch = ground (arith, c.latch, ap (λ x. caller_owes x) e);
  refs = ground (arith, c.refs, ap (λ x. caller_refers x) e);
  gone = c.gone;
  tail = ground (arith, c.tail, ap (λ x. tail_ran x) e);
  over = λ x. absurd (cc);
}
Step-Counts n {s} (run_inline i {p = p} {n = m} e f) a h c = record {
  fits = length-set s.chunks i _ ∙ c.fits;
  latch = ground (
    arith,
    c.latch,
    ap (λ x. caller_owes x) e,
    weigh-set owed s.chunks i _ (record { place = p; runs = m + 1 }) f,
  );
  refs = ground (
    arith,
    c.refs,
    ap (λ x. caller_refers x) e,
    weigh-set refers s.chunks i _ (record { place = p; runs = m + 1 }) f,
  );
  gone = c.gone;
  tail = ground (arith, c.tail, ap (λ x. tail_ran x) e);
  over = λ x. absurd (cc);
}
Step-Counts n {s} (count_inline i e) a h c = record {
  fits = c.fits;
  latch = ground (arith, c.latch, ap (λ x. caller_owes x) e);
  refs = ground (arith, c.refs, ap (λ x. caller_refers x) e);
  gone = c.gone;
  tail = ground (arith, c.tail, ap (λ x. tail_ran x) e);
  over = λ x. absurd (cc);
}
Step-Counts n {s} (end_pass e) a h c = record {
  fits = c.fits;
  latch = ground (arith, c.latch, ap (λ x. caller_owes x) e);
  refs = ground (arith, c.refs, ap (λ x. caller_refers x) e);
  gone = c.gone;
  tail = ground (arith, c.tail, ap (λ x. tail_ran x) e);
  over = λ x. absurd (cc);
}
Step-Counts n {s} (wait e z) a h c = record {
  fits = c.fits;
  latch = ground (arith, c.latch, ap (λ x. caller_owes x) e);
  refs = ground (arith, c.refs, ap (λ x. caller_refers x) e);
  gone = c.gone;
  tail = ground (arith, c.tail, ap (λ x. tail_ran x) e);
  over = λ x. z;
}
Step-Counts n {s} (release_caller e) a h c = record {
  fits = c.fits;
  latch = ground (arith, c.latch, ap (λ x. caller_owes x) e);
  refs = ground (
    arith,
    c.refs,
    refs_dec n s h c (omega (arith, c.refs, ap (λ x. caller_refers x) e)),
    ap (λ x. caller_refers x) e,
  );
  gone = gone_lem n s h c (omega (arith, c.refs, ap (λ x. caller_refers x) e));
  tail = ground (arith, c.tail, ap (λ x. tail_ran x) e);
  over = λ x. c.over (ap (λ y. is_over y) e);
}
Step-Counts n {s} (skip i e f x) a h c = record {
  fits = c.fits;
  latch = ground (arith, c.latch, ap (λ x. queuer_owes x) e);
  refs = ground (arith, c.refs, ap (λ x. queuer_refers x) e);
  gone = c.gone;
  tail = c.tail;
  over = c.over;
}
Step-Counts n {s} (add_ref i e f) a h c = record {
  fits = c.fits;
  latch = ground (arith, c.latch, ap (λ x. queuer_owes x) e);
  refs = ground (arith, c.refs, refs_inc n s h c, ap (λ x. queuer_refers x) e);
  gone = ground (arith, c.gone, c.refs, refs_inc n s h c, ap (λ x. queuer_refers x) e);
  tail = c.tail;
  over = c.over;
}
Step-Counts n {s} (submit i {p = p} {n = m} e f) a h c =
    let z = referred-pending s i m p a e f in
    record {
      fits = length-set s.chunks i _ ∙ c.fits;
      latch = ground (
        arith,
        c.latch,
        ap (λ x. queuer_owes x) e,
        ap (λ x. place_owes x) z,
        weigh-set owed s.chunks i _ (record { place = submitted; runs = m }) f,
      );
      refs = ground (
        arith,
        c.refs,
        ap (λ x. queuer_refers x) e,
        ap (λ x. place_refers x) z,
        weigh-set refers s.chunks i _ (record { place = submitted; runs = m }) f,
      );
      gone = c.gone;
      tail = c.tail;
      over = c.over;
    }
Step-Counts n {s} (refuse i {p = p} {n = m} e f) a h c =
    let z = referred-pending s i m p a e f in
    record {
      fits = length-set s.chunks i _ ∙ c.fits;
      latch = ground (
        arith,
        c.latch,
        ap (λ x. queuer_owes x) e,
        ap (λ x. place_owes x) z,
        weigh-set owed s.chunks i _ (record { place = inline no_request; runs = m }) f,
      );
      refs = ground (
        arith,
        c.refs,
        refs_dec n s h c (
            omega (
              arith,
              c.refs,
              ap (λ x. queuer_refers x) e,
              ap (λ x. place_refers x) z,
              weigh-set refers s.chunks i _ (record { place = inline no_request; runs = m }) f,
            )),
        ap (λ x. queuer_refers x) e,
        ap (λ x. place_refers x) z,
        weigh-set refers s.chunks i _ (record { place = inline no_request; runs = m }) f,
      );
      gone = ground (
        arith,
        c.gone,
        c.refs,
        refs_dec n s h c (
            omega (
              arith,
              c.refs,
              ap (λ x. queuer_refers x) e,
              ap (λ x. place_refers x) z,
              weigh-set refers s.chunks i _ (record { place = inline no_request; runs = m }) f,
            )),
        ap (λ x. queuer_refers x) e,
        ap (λ x. place_refers x) z,
        weigh-set refers s.chunks i _ (record { place = inline no_request; runs = m }) f,
      );
      tail = c.tail;
      over = c.over;
    }
Step-Counts n {s} (run_refused i {p = p} {n = m} e f) a h c = record {
  fits = length-set s.chunks i _ ∙ c.fits;
  latch = ground (
    arith,
    c.latch,
    ap (λ x. queuer_owes x) e,
    weigh-set owed s.chunks i _ (record { place = p; runs = m + 1 }) f,
  );
  refs = ground (
    arith,
    c.refs,
    ap (λ x. queuer_refers x) e,
    weigh-set refers s.chunks i _ (record { place = p; runs = m + 1 }) f,
  );
  gone = c.gone;
  tail = c.tail;
  over = c.over;
}
Step-Counts n {s} (count_refused i e) a h c = record {
  fits = c.fits;
  latch = ground (arith, c.latch, ap (λ x. queuer_owes x) e);
  refs = ground (arith, c.refs, ap (λ x. queuer_refers x) e);
  gone = c.gone;
  tail = c.tail;
  over = λ x. ground (arith, c.over x);
}
Step-Counts n {s} (end_queue e) a h c = record {
  fits = c.fits;
  latch = ground (arith, c.latch, ap (λ x. queuer_owes x) e);
  refs = ground (arith, c.refs, ap (λ x. queuer_refers x) e);
  gone = c.gone;
  tail = c.tail;
  over = c.over;
}
Step-Counts n {s} (release_queuer e) a h c = record {
  fits = c.fits;
  latch = ground (arith, c.latch, ap (λ x. queuer_owes x) e);
  refs = ground (
    arith,
    c.refs,
    refs_dec n s h c (omega (arith, c.refs, ap (λ x. queuer_refers x) e)),
    ap (λ x. queuer_refers x) e,
  );
  gone = gone_lem n s h c (omega (arith, c.refs, ap (λ x. queuer_refers x) e));
  tail = c.tail;
  over = c.over;
}
Step-Counts n {s} (take_request i {n = m} f) a h c = record {
  fits = length-set s.chunks i _ ∙ c.fits;
  latch =
      ground (arith, c.latch, weigh-set owed s.chunks i _ (record { place = working; runs = m }) f);
  refs =
      ground
        (arith, c.refs, weigh-set refers s.chunks i _ (record { place = working; runs = m }) f);
  gone = c.gone;
  tail = c.tail;
  over = c.over;
}
Step-Counts n {s} (work i {n = m} f) a h c = record {
  fits = length-set s.chunks i _ ∙ c.fits;
  latch =
      ground
        (arith, c.latch, weigh-set owed s.chunks i _ (record { place = worked; runs = m + 1 }) f);
  refs =
      ground
        (arith, c.refs, weigh-set refers s.chunks i _ (record { place = worked; runs = m + 1 }) f);
  gone = c.gone;
  tail = c.tail;
  over = c.over;
}
Step-Counts n {s} (count_down i {n = m} f) a h c = record {
  fits = length-set s.chunks i _ ∙ c.fits;
  latch =
      ground (arith, c.latch, weigh-set owed s.chunks i _ (record { place = counted; runs = m }) f);
  refs =
      ground
        (arith, c.refs, weigh-set refers s.chunks i _ (record { place = counted; runs = m }) f);
  gone = c.gone;
  tail = c.tail;
  over = λ x. ground (arith, c.over x);
}
Step-Counts n {s} (after_work i {n = m} f) a h c = record {
  fits = length-set s.chunks i _ ∙ c.fits;
  latch =
      ground (arith, c.latch, weigh-set owed s.chunks i _ (record { place = closed; runs = m }) f);
  refs = ground (
    arith,
    c.refs,
    refs_dec n s h c (
        omega
          (arith, c.refs, weigh-set refers s.chunks i _ (record { place = closed; runs = m }) f)),
    weigh-set refers s.chunks i _ (record { place = closed; runs = m }) f,
  );
  gone = gone_lem n s h c (
      omega (arith, c.refs, weigh-set refers s.chunks i _ (record { place = closed; runs = m }) f));
  tail = c.tail;
  over = c.over;
}
Step-Counts n {s} (after_cancel i {n = m} f) a h c = record {
  fits = length-set s.chunks i _ ∙ c.fits;
  latch = ground (
    arith,
    c.latch,
    weigh-set owed s.chunks i _ (record { place = inline called_back; runs = m }) f,
  );
  refs = ground (
    arith,
    c.refs,
    refs_dec n s h c (
        omega (
          arith,
          c.refs,
          weigh-set refers s.chunks i _ (record { place = inline called_back; runs = m }) f,
        )),
    weigh-set refers s.chunks i _ (record { place = inline called_back; runs = m }) f,
  );
  gone = gone_lem n s h c (
      omega (
        arith,
        c.refs,
        weigh-set refers s.chunks i _ (record { place = inline called_back; runs = m }) f,
      ));
  tail = c.tail;
  over = c.over;
}
