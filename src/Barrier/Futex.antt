-- ===== src/Barrier/Futex.antt =====
-- threading/futex_barrier.cpp, a shared access at a time: the thread that owns the barrier, which
-- hands out parts and waits for them, and the threads that take the parts and arrive.
pub mod Safety
use sweater.Prelude.{
  ℕ, suc, ◌+◌, ◌-◌, ◌%◌, ◌^◌, ◌≡◌, ◌≢◌, ◌==◌, ◌≤◌, Bool, true, false, List, some, get_elem?, set,
  replicate,
}
use sweater.Barrier.Spin.{within_an_eighth}

-- A thread of the pool: without a part, with one, and in counter_.wake_one().
pub data Worker : Type 0 where
  idle : Worker
  working : Worker
  waking : Worker

-- The owner: with a new barrier; with `announced` arrivals expected whose parts are not handed out yet; in wait()
-- before its load, with the value loaded, and parked; in spin_wait(), and yielding there; returned,
-- with what spin_wait() returned.
pub data Owner : Type 0 where
  fresh : Owner
  preparing : (announced : ℕ) → Owner
  wait_loading : Owner
  wait_loaded : (non_arrived_count : ℕ) → Owner
  parked : Owner
  spinning : (nop_spin_count spin_tries : ℕ) → Owner
  yielding : Owner
  joined : (stalled : Bool) → Owner

pub record Barrier : Type 0 where
  pub counter_ : ℕ
  pub spin_wait_ : Bool
  pub owner : Owner
  pub workers : List Worker

abbrev pub decremented : ℕ → ℕ
decremented counter = (counter + (2 ^ 32 - 1)) % 2 ^ 32

-- everyone_arrived(): the counter as a hardware_concurrency_t, of which there are `hc` values
abbrev pub everyone_arrived : (hc counter : ℕ) → Bool
everyone_arrived hc counter = counter % hc == 0

-- The owner expects at most `limit` arrivals at a time.
pub data Step (hc limit : ℕ) (s : Barrier) : Barrier → Type 0 where
  -- the owner's steps: before any arrival is expected it chooses how to wait
  use_spin_wait :
      (value : Bool)
      → s.owner ≡ fresh
      → Step hc limit s (record s { spin_wait_ = value; owner = preparing 0 })
  no_choice : s.owner ≡ fresh → Step hc limit s (record s { owner = preparing 0 })
  -- initialize, which asserts that nothing is expected
  initialize :
      (initial_value : ℕ)
      → initial_value ≤ limit
      → s.owner ≡ preparing 0
      → s.counter_ ≡ 0
      → Step hc limit s (record s { counter_ = initial_value; owner = preparing initial_value })
  -- add_expected_arrival
  add_expected_arrival :
      {k : ℕ}
      → s.owner ≡ preparing k
      → s.counter_ + 1 ≤ limit
      → Step hc limit s (record s { counter_ = s.counter_ + 1; owner = preparing (suc k) })
  -- a part for which an arrival is expected is handed to a thread
  hand_out :
      {k : ℕ} (i : ℕ)
      → s.owner ≡ preparing (suc k)
      → get_elem? s.workers i ≡ some idle
      → Step hc limit s (record s { owner = preparing k; workers = set s.workers i working })
  wait :
      s.owner ≡ preparing 0
      → s.spin_wait_ ≡ false
      → Step hc limit s (record s { owner = wait_loading })
  wait_load : s.owner ≡ wait_loading → Step hc limit s (record s { owner = wait_loaded s.counter_ })
  wait_done : s.owner ≡ wait_loaded 0 → Step hc limit s (record s { owner = joined false })
  -- wait_if_equal
  park :
      {v : ℕ}
      → s.owner ≡ wait_loaded v
      → v ≢ 0
      → s.counter_ ≡ v
      → Step hc limit s (record s { owner = parked })
  no_park :
      {v : ℕ}
      → s.owner ≡ wait_loaded v
      → v ≢ 0
      → s.counter_ ≢ v
      → Step hc limit s (record s { owner = wait_loading })
  spurious : s.owner ≡ parked → Step hc limit s (record s { owner = wait_loading })
  spin_wait :
      (nop_spin_count : ℕ)
      → s.owner ≡ preparing 0
      → s.spin_wait_ ≡ true
      → Step hc limit s (record s { owner = spinning nop_spin_count nop_spin_count })
  spin_done :
      {n left : ℕ}
      → s.owner ≡ spinning n (suc left)
      → everyone_arrived hc s.counter_ ≡ true
      → Step hc limit s (record s { owner = joined (within_an_eighth n left) })
  spin_again :
      {n left : ℕ}
      → s.owner ≡ spinning n (suc left)
      → everyone_arrived hc s.counter_ ≡ false
      → Step hc limit s (record s { owner = spinning n left })
  spun : {n : ℕ} → s.owner ≡ spinning n 0 → Step hc limit s (record s { owner = yielding })
  yield_done :
      s.owner ≡ yielding
      → everyone_arrived hc s.counter_ ≡ true
      → Step hc limit s (record s { owner = joined true })
  -- the next spread's barrier, in the same place
  again :
      {b : Bool}
      → s.owner ≡ joined b
      → Step hc limit s (record s { spin_wait_ = false; owner = fresh })
  -- the other threads' steps: arrive
  arrive_spinning :
      (i : ℕ)
      → get_elem? s.workers i ≡ some working
      → s.spin_wait_ ≡ true
      → Step hc limit s
          (record s { counter_ = decremented s.counter_; workers = set s.workers i idle })
  arrive :
      (i : ℕ)
      → get_elem? s.workers i ≡ some working
      → s.spin_wait_ ≡ false
      → s.counter_ ≢ 1
      → Step hc limit s
          (record s { counter_ = decremented s.counter_; workers = set s.workers i idle })
  arrive_last :
      (i : ℕ)
      → get_elem? s.workers i ≡ some working
      → s.spin_wait_ ≡ false
      → s.counter_ ≡ 1
      → Step hc limit s
          (record s { counter_ = decremented s.counter_; workers = set s.workers i waking })
  wake_one :
      (i : ℕ)
      → get_elem? s.workers i ≡ some waking
      → s.owner ≡ parked
      → Step hc limit s (record s { owner = wait_loading; workers = set s.workers i idle })
  wake_nobody :
      (i : ℕ)
      → get_elem? s.workers i ≡ some waking
      → s.owner ≢ parked
      → Step hc limit s (record s { workers = set s.workers i idle })

-- A new barrier, and `n` threads without a part.
abbrev pub start : ℕ → Barrier
start n = record { counter_ = 0; spin_wait_ = false; owner = fresh; workers = replicate n idle }

pub data Reach (hc limit n : ℕ) : Barrier → Type 0 where
  new : Reach hc limit n (start n)
  step : {s t : Barrier} → Reach hc limit n s → Step hc limit s t → Reach hc limit n t
