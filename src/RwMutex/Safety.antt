-- ===== src/RwMutex/Safety.antt =====
-- What the lock promises its callers, whatever the interleaving.
use sweater.Prelude.{ℕ, ◌+◌, ◌≤◌, ◌<◌, ◌≡◌, ◌^◌, ◌⊎◌, Bool, arith}
use sweater.Threads.{weigh, weigh-eq-zero}
use sweater.RwMutex.Word.{reader_count, writer_locked, field_bounds}
use sweater.RwMutex.Futex.{
  Pc, outside, reading, writing, ro_parked, rw_parked, System, Reach, is_ro_parked, is_rw_parked,
}
use sweater.RwMutex.Invariant.{
  Reach-Inv, is_reading, is_writing, is_rw_awake, wakes_writers, wakes_either,
}

-- Neither outside the lock, nor holding it, nor parked.
abbrev pub is_busy : Pc → ℕ
is_busy outside = 0
is_busy reading = 0
is_busy writing = 0
is_busy ro_parked = 0
is_busy rw_parked = 0
is_busy _ = 1

-- In every interleaving, under both preferences, one thread at most holds the write side, and
-- none holds the read side then; the word's fields count the holders. There are fewer than 2 ^ 29
-- threads.
pub exclusive :
    {wp : Bool} {n : ℕ} {s : System}
    → n < 2 ^ 29
    → Reach wp n s
    → (weigh is_writing s.threads ≤ 1)
      × ((weigh is_writing s.threads ≡ 0) ⊎ (weigh is_reading s.threads ≡ 0))
      × (reader_count s.state_ ≡ weigh is_reading s.threads)
      × (writer_locked s.state_ ≡ weigh is_writing s.threads)
exclusive {s} few r = let inv = Reach-Inv few r in let b = field_bounds s.state_ in ground arith

-- No wake-up is lost, under both preferences: when every thread is outside the lock, holds it or is
-- parked, and one is parked, then some thread holds the lock. There are fewer than 2 ^ 29 threads.
pub parked_only_behind_holders :
    {wp : Bool} {n : ℕ} {s : System}
    → n < 2 ^ 29
    → Reach wp n s
    → weigh is_busy s.threads ≡ 0
    → 0 < weigh is_ro_parked s.threads + weigh is_rw_parked s.threads
    → 0 < weigh is_reading s.threads + weigh is_writing s.threads
parked_only_behind_holders {s} few r quiet here =
    let inv = Reach-Inv few r in
    let b = field_bounds s.state_ in
    let no_writer_awake = weigh-eq-zero is_busy is_rw_awake s.threads (λ p. ground arith) quiet in
    let no_wake = weigh-eq-zero is_busy wakes_writers s.threads (λ p. ground arith) quiet in
    let no_wake_either = weigh-eq-zero is_busy wakes_either s.threads (λ p. ground arith) quiet in
    ground arith
