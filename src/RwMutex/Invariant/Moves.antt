-- ===== src/RwMutex/Invariant/Moves.antt =====
-- Each step keeps the invariant.
use sweater.Prelude.{ℕ, ◌+◌, ◌≤◌, ◌≡◌, Bool, length, List, some, get_elem?, set, arith}
use sweater.Threads.{weigh, weigh-set, le-weigh, weigh-le-length, length-set}
use sweater.RwMutex.Futex.{
  Pc, outside, ro_loading, ro_parked, rw_loading, rw_parked, waking_writers, waking_either, Move,
  acquire_ro, ro_load, ro_admit, ro_retry, ro_announce, ro_announce_lost, ro_park, ro_no_park,
  ro_spurious, try_acquire_ro, ro_refused, ro_tried, ro_try_lost, release_ro, release_ro_last,
  acquire_rw, rw_load, rw_lock, rw_retry, rw_announce, rw_announce_lost, rw_park, rw_no_park,
  rw_spurious, try_acquire_rw, rw_refused, rw_tried, rw_try_lost, release_rw, release_rw_wake,
  is_ro_parked, is_rw_parked, System, Step, run, wake_writer, wake_reader, woken_writers,
  woken_either,
}
use sweater.RwMutex.Word.{
  field_bounds, same_word, add_reader, drop_reader, announce_reader, announce_writer, lock_word,
  free_word, admits-true, admits-false, is_free-true, is_free-false,
}
use sweater.RwMutex.Invariant.Counts.{
  is_reading, is_writing, is_rw_awake, wakes_writers, wakes_either, Inv,
}

-- What a thread's move from `p` to `q` does to the counts.
record Recount (p q : Pc) (ps qs : List Pc) : Type 0 where
  reads : weigh is_reading qs + is_reading p ≡ weigh is_reading ps + is_reading q
  writes : weigh is_writing qs + is_writing p ≡ weigh is_writing ps + is_writing q
  awake : weigh is_rw_awake qs + is_rw_awake p ≡ weigh is_rw_awake ps + is_rw_awake q
  ro_p : weigh is_ro_parked qs + is_ro_parked p ≡ weigh is_ro_parked ps + is_ro_parked q
  rw_p : weigh is_rw_parked qs + is_rw_parked p ≡ weigh is_rw_parked ps + is_rw_parked q
  ww : weigh wakes_writers qs + wakes_writers p ≡ weigh wakes_writers ps + wakes_writers q
  we : weigh wakes_either qs + wakes_either p ≡ weigh wakes_either ps + wakes_either q
  member : is_rw_awake p ≤ weigh is_rw_awake ps
  kept : length qs ≡ length ps
  some_readers : weigh is_reading ps ≤ length ps
  some_readers' : weigh is_reading qs ≤ length qs

recount : (ps : List Pc) (i : ℕ) (p q : Pc) → get_elem? ps i ≡ some p → Recount p q ps (set ps i q)
recount ps i p q e = record {
  reads = weigh-set is_reading ps i p q e;
  writes = weigh-set is_writing ps i p q e;
  awake = weigh-set is_rw_awake ps i p q e;
  ro_p = weigh-set is_ro_parked ps i p q e;
  rw_p = weigh-set is_rw_parked ps i p q e;
  ww = weigh-set wakes_writers ps i p q e;
  we = weigh-set wakes_either ps i p q e;
  member = le-weigh is_rw_awake ps i p e;
  kept = length-set ps i q;
  some_readers = weigh-le-length is_reading ps (λ p. ground arith);
  some_readers' = weigh-le-length is_reading (set ps i q) (λ p. ground arith);
}

Move-Inv :
    {wp : Bool} {n : ℕ} {s : System} {p q : Pc} {state : ℕ} (qs : List Pc)
    → Move wp s.state_ p state q
    → Inv n s
    → Recount p q s.threads qs
    → Inv n (record { state_ = state; threads = qs })
Move-Inv qs acquire_ro inv c = ground arith
Move-Inv qs ro_load inv c = ground arith
Move-Inv {wp} {s} qs (ro_admit {observed} h e) inv c =
    let b = field_bounds s.state_ in
    let o = same_word s.state_ observed inv.range e in
    let a = admits-true wp observed h in
    let f = add_reader observed o.range (omega arith) in ground arith
Move-Inv qs (ro_retry h) inv c = ground arith
Move-Inv {wp} {s} qs (ro_announce {observed} h k e) inv c =
    let o = same_word s.state_ observed inv.range e in
    let f = announce_reader observed o.range k in ground arith
Move-Inv qs (ro_announce_lost h k) inv c = ground arith
Move-Inv {wp} {s} qs (ro_park {observed} h k e) inv c =
    let o = same_word s.state_ observed inv.range e in
    let a = admits-false wp observed h in ground arith
Move-Inv qs (ro_no_park h k e) inv c = ground arith
Move-Inv qs ro_spurious inv c = ground arith
Move-Inv qs try_acquire_ro inv c = ground arith
Move-Inv qs (ro_refused h) inv c = ground arith
Move-Inv {wp} {s} qs (ro_tried {observed} h e) inv c =
    let b = field_bounds s.state_ in
    let o = same_word s.state_ observed inv.range e in
    let a = admits-true wp observed h in
    let f = add_reader observed o.range (omega arith) in ground arith
Move-Inv qs (ro_try_lost h e) inv c = ground arith
Move-Inv {s} qs (release_ro h) inv c =
    let b = field_bounds s.state_ in
    let f = drop_reader s.state_ inv.range (omega arith) in ground arith
Move-Inv {s} qs (release_ro_last h k) inv c =
    let b = field_bounds s.state_ in
    let f = drop_reader s.state_ inv.range (omega arith) in ground arith
Move-Inv qs acquire_rw inv c = ground arith
Move-Inv qs rw_load inv c = ground arith
Move-Inv {s} qs (rw_lock {observed} h e) inv c =
    let o = same_word s.state_ observed inv.range e in
    let a = is_free-true observed h in let f = lock_word observed in ground arith
Move-Inv qs (rw_retry h) inv c = ground arith
Move-Inv {s} qs (rw_announce {observed} h k e) inv c =
    let o = same_word s.state_ observed inv.range e in
    let f = announce_writer observed o.range k in ground arith
Move-Inv qs (rw_announce_lost h k) inv c = ground arith
Move-Inv {s} qs (rw_park {observed} h k e) inv c =
    let o = same_word s.state_ observed inv.range e in
    let a = is_free-false observed h in ground arith
Move-Inv qs (rw_no_park h k e) inv c = ground arith
Move-Inv qs rw_spurious inv c = ground arith
Move-Inv qs try_acquire_rw inv c = ground arith
Move-Inv qs (rw_refused h) inv c = ground arith
Move-Inv {s} qs (rw_tried {observed} h e) inv c =
    let o = same_word s.state_ observed inv.range e in
    let a = is_free-true observed h in let f = lock_word observed in ground arith
Move-Inv qs (rw_try_lost h e) inv c = ground arith
Move-Inv {s} qs (release_rw h k) inv c =
    let b = field_bounds s.state_ in let f = free_word in ground arith
Move-Inv {s} qs (release_rw_wake h) inv c =
    let b = field_bounds s.state_ in let f = free_word in ground arith

-- Every step keeps the invariant.
pub Step-Inv : {wp : Bool} {n : ℕ} {s t : System} → Step wp s t → Inv n s → Inv n t
Step-Inv {s} (run i {p} {q} e m) inv =
    Move-Inv (set s.threads i q) m inv (recount s.threads i p q e)
Step-Inv {s} (wake_writer i j h e) inv =
    let c = recount s.threads j rw_parked rw_loading e in ground arith
Step-Inv {s} (wake_reader i j h e) inv =
    let c = recount s.threads j ro_parked ro_loading e in ground arith
Step-Inv {s} (woken_writers i e h) inv =
    let c = recount s.threads i waking_writers outside e in ground arith
Step-Inv {s} (woken_either i e h k) inv =
    let c = recount s.threads i waking_either outside e in ground arith
