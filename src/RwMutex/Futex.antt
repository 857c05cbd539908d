-- ===== src/RwMutex/Futex.antt =====
-- threading/futex_rw_mutex.{hpp,cpp} on a 32-bit futex word, a shared access at a time, for both
-- preferences. The kernel's part is in the rules `…_park`, `…_no_park`, `…_spurious` and the wakes:
-- a thread parks only while the word holds the value that it gave, and it may wake for no reason,
-- as on the systems whose wakes ignore the bitset.
use sweater.Prelude.{
  ℕ, ◌+◌, ◌-◌, ◌%◌, ◌^◌, ◌≡◌, ◌≢◌, ◌⊎◌, Bool, true, false, List, some, get_elem?, set, replicate,
}
use sweater.Threads.{weigh}
use sweater.RwMutex.Word.{reader_count, reader_parked, writer_waiting, admits, is_free, locked}

-- Where a thread stands, with the value of the word that it goes by.
pub data Pc : Type 0 where
  outside : Pc
  -- acquire_ro_core: before its load; with the value loaded; in wait_if_equal
  ro_loading : Pc
  ro_loaded : (observed : ℕ) → Pc
  ro_parked : Pc
  -- try_acquire_ro_core, with the value loaded
  ro_trying : (observed : ℕ) → Pc
  -- holding the read side
  reading : Pc
  -- acquire_rw: before a load; with the value observed; in wait_if_equal
  rw_loading : Pc
  rw_loaded : (observed : ℕ) → Pc
  rw_parked : Pc
  -- try_acquire_rw, with the value loaded
  rw_trying : (observed : ℕ) → Pc
  -- holding the write side
  writing : Pc
  -- in wake_all( writer_wait_bits ) and in wake_all( either_wait_bits )
  waking_writers : Pc
  waking_either : Pc

-- One access of one thread to the word: its place and the word, before and after. A weak
-- compare-exchange may fail on an equal value.
pub data Move (wp : Bool) (state : ℕ) : Pc → ℕ → Pc → Type 0 where
  acquire_ro : Move wp state outside state ro_loading
  ro_load : Move wp state ro_loading state (ro_loaded state)
  ro_admit :
      {observed : ℕ}
      → admits wp observed ≡ true
      → state ≡ observed
      → Move wp state (ro_loaded observed) ((observed + 1) % 2 ^ 32) reading
  ro_retry :
      {observed : ℕ}
      → admits wp observed ≡ true
      → Move wp state (ro_loaded observed) state ro_loading
  ro_announce :
      {observed : ℕ}
      → admits wp observed ≡ false
      → reader_parked observed ≡ 0
      → state ≡ observed
      → Move wp state (ro_loaded observed) (observed + 2 ^ 29) ro_loading
  ro_announce_lost :
      {observed : ℕ}
      → admits wp observed ≡ false
      → reader_parked observed ≡ 0
      → Move wp state (ro_loaded observed) state ro_loading
  ro_park :
      {observed : ℕ}
      → admits wp observed ≡ false
      → reader_parked observed ≡ 1
      → state ≡ observed
      → Move wp state (ro_loaded observed) state ro_parked
  ro_no_park :
      {observed : ℕ}
      → admits wp observed ≡ false
      → reader_parked observed ≡ 1
      → state ≢ observed
      → Move wp state (ro_loaded observed) state ro_loading
  ro_spurious : Move wp state ro_parked state ro_loading
  try_acquire_ro : Move wp state outside state (ro_trying state)
  ro_refused :
      {observed : ℕ} → admits wp observed ≡ false → Move wp state (ro_trying observed) state outside
  ro_tried :
      {observed : ℕ}
      → admits wp observed ≡ true
      → state ≡ observed
      → Move wp state (ro_trying observed) ((observed + 1) % 2 ^ 32) reading
  ro_try_lost :
      {observed : ℕ}
      → admits wp observed ≡ true
      → state ≢ observed
      → Move wp state (ro_trying observed) state outside
  release_ro :
      (reader_count state ≡ 1 → writer_waiting state ≡ 0)
      → Move wp state reading ((state + (2 ^ 32 - 1)) % 2 ^ 32) outside
  release_ro_last :
      reader_count state ≡ 1
      → writer_waiting state ≡ 1
      → Move wp state reading ((state + (2 ^ 32 - 1)) % 2 ^ 32) waking_writers
  acquire_rw : Move wp state outside state rw_loading
  rw_load : Move wp state rw_loading state (rw_loaded state)
  rw_lock :
      {observed : ℕ}
      → is_free observed ≡ true
      → state ≡ observed
      → Move wp state (rw_loaded observed) (locked observed) writing
  rw_retry :
      {observed : ℕ}
      → is_free observed ≡ true
      → Move wp state (rw_loaded observed) state (rw_loaded state)
  rw_announce :
      {observed : ℕ}
      → is_free observed ≡ false
      → writer_waiting observed ≡ 0
      → state ≡ observed
      → Move wp state (rw_loaded observed) (observed + 2 ^ 30) (rw_loaded (observed + 2 ^ 30))
  rw_announce_lost :
      {observed : ℕ}
      → is_free observed ≡ false
      → writer_waiting observed ≡ 0
      → Move wp state (rw_loaded observed) state (rw_loaded state)
  rw_park :
      {observed : ℕ}
      → is_free observed ≡ false
      → writer_waiting observed ≡ 1
      → state ≡ observed
      → Move wp state (rw_loaded observed) state rw_parked
  rw_no_park :
      {observed : ℕ}
      → is_free observed ≡ false
      → writer_waiting observed ≡ 1
      → state ≢ observed
      → Move wp state (rw_loaded observed) state rw_loading
  rw_spurious : Move wp state rw_parked state rw_loading
  try_acquire_rw : Move wp state outside state (rw_trying state)
  rw_refused :
      {observed : ℕ} → is_free observed ≡ false → Move wp state (rw_trying observed) state outside
  rw_tried :
      {observed : ℕ}
      → is_free observed ≡ true
      → state ≡ observed
      → Move wp state (rw_trying observed) (locked observed) writing
  rw_try_lost :
      {observed : ℕ}
      → is_free observed ≡ true
      → state ≢ observed
      → Move wp state (rw_trying observed) state outside
  release_rw : reader_parked state ≡ 0 → writer_waiting state ≡ 0 → Move wp state writing 0 outside
  release_rw_wake :
      (reader_parked state ≡ 1) ⊎ (writer_waiting state ≡ 1) → Move wp state writing 0 waking_either

abbrev pub is_ro_parked : Pc → ℕ
is_ro_parked ro_parked = 1
is_ro_parked _ = 0

abbrev pub is_rw_parked : Pc → ℕ
is_rw_parked rw_parked = 1
is_rw_parked _ = 0

-- The threads around one lock.
pub record System : Type 0 where
  pub state_ : ℕ
  pub threads : List Pc

pub data Step (wp : Bool) (s : System) : System → Type 0 where
  run :
      (i : ℕ) {p q : Pc} {state : ℕ}
      → get_elem? s.threads i ≡ some p
      → Move wp s.state_ p state q
      → Step wp s (record { state_ = state; threads = set s.threads i q })
  -- a wake under way reaches thread `j`
  wake_writer :
      (i j : ℕ)
      → (get_elem? s.threads i ≡ some waking_writers) ⊎ (get_elem? s.threads i ≡ some waking_either)
      → get_elem? s.threads j ≡ some rw_parked
      → Step wp s (record s { threads = set s.threads j rw_loading })
  wake_reader :
      (i j : ℕ)
      → get_elem? s.threads i ≡ some waking_either
      → get_elem? s.threads j ≡ some ro_parked
      → Step wp s (record s { threads = set s.threads j ro_loading })
  -- and ends when nobody that it is for is left
  woken_writers :
      (i : ℕ)
      → get_elem? s.threads i ≡ some waking_writers
      → weigh is_rw_parked s.threads ≡ 0
      → Step wp s (record s { threads = set s.threads i outside })
  woken_either :
      (i : ℕ)
      → get_elem? s.threads i ≡ some waking_either
      → weigh is_rw_parked s.threads ≡ 0
      → weigh is_ro_parked s.threads ≡ 0
      → Step wp s (record s { threads = set s.threads i outside })

-- A free lock, and `n` threads outside it.
abbrev pub start : ℕ → System
start n = record { state_ = 0; threads = replicate n outside }

pub data Reach (wp : Bool) (n : ℕ) : System → Type 0 where
  new : Reach wp n (start n)
  step : {s t : System} → Reach wp n s → Step wp s t → Reach wp n t
