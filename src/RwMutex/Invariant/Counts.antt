-- ===== src/RwMutex/Invariant/Counts.antt =====
-- The threads counted by where they stand, and the invariant over the counts.
use sweater.Prelude.{ℕ, ◌+◌, ◌<◌, ◌≡◌, ◌^◌, ◌⊎◌, length}
use sweater.Threads.{weigh}
use sweater.RwMutex.Futex.{
  Pc, reading, writing, rw_loading, rw_loaded, waking_writers, waking_either, is_ro_parked,
  is_rw_parked, System,
}
use sweater.RwMutex.Word.{reader_count, reader_parked, writer_waiting, writer_locked}

abbrev pub is_reading : Pc → ℕ
is_reading reading = 1
is_reading _ = 0

abbrev pub is_writing : Pc → ℕ
is_writing writing = 1
is_writing _ = 0

-- A writer on its way, that will look at the word again.
abbrev pub is_rw_awake : Pc → ℕ
is_rw_awake rw_loading = 1
is_rw_awake (rw_loaded _) = 1
is_rw_awake _ = 0

abbrev pub wakes_writers : Pc → ℕ
wakes_writers waking_writers = 1
wakes_writers _ = 0

abbrev pub wakes_either : Pc → ℕ
wakes_either waking_either = 1
wakes_either _ = 0

pub record Inv (n : ℕ) (s : System) : Type 0 where
  pub few : n < 2 ^ 29
  pub threads : length s.threads ≡ n
  pub range : s.state_ < 2 ^ 32
  -- the word counts the holders, and a writer holds alone
  pub readers : reader_count s.state_ ≡ weigh is_reading s.threads
  pub writer : writer_locked s.state_ ≡ weigh is_writing s.threads
  pub alone : (writer_locked s.state_ ≡ 0) ⊎ (reader_count s.state_ ≡ 0)
  -- who is parked has announced itself, or is being woken
  pub ro_announced :
      (weigh is_ro_parked s.threads ≡ 0)
      ⊎ (reader_parked s.state_ ≡ 1)
      ⊎ (0 < weigh wakes_either s.threads)
  pub rw_announced :
      (weigh is_rw_parked s.threads ≡ 0)
      ⊎ (writer_waiting s.state_ ≡ 1)
      ⊎ (0 < weigh wakes_either s.threads)
  -- a writer stands behind the waiting bit
  pub waiting :
      (writer_waiting s.state_ ≡ 0)
      ⊎ (0 < weigh is_rw_awake s.threads + weigh is_rw_parked s.threads + writer_locked s.state_)
  -- no writer is parked over a free lock, unless another is on its way
  pub rw_heard :
      (weigh is_rw_parked s.threads ≡ 0)
      ⊎ (0
          < writer_locked s.state_
            + reader_count s.state_
            + weigh is_rw_awake s.threads
            + weigh wakes_writers s.threads
            + weigh wakes_either s.threads)
  -- no reader is parked unless a writer is in its way
  pub ro_heard :
      (weigh is_ro_parked s.threads ≡ 0)
      ⊎ (0 < writer_locked s.state_ + writer_waiting s.state_ + weigh wakes_either s.threads)
