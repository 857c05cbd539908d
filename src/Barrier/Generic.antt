-- ===== src/Barrier/Generic.antt =====
-- threading/generic_barrier.cpp, a shared access at a time, with its mutex and its condition variable.
pub mod Safety
use sweater.Prelude.{
  ℕ, suc, ◌+◌, ◌-◌, ◌%◌, ◌^◌, ◌<◌, ◌≡◌, ◌≢◌, Bool, true, false, List, some, get_elem?, set,
  replicate,
}
use sweater.Barrier.Spin.{within_an_eighth}

-- A thread of the pool: without a part; with one; in arrive() with the mutex, before the fetch_sub,
-- before the notification, and before the unlock.
pub data Worker : Type 0 where
  idle : Worker
  working : Worker
  locked : Worker
  notifying : Worker
  unlocking : Worker

-- The owner: with a new barrier; with `announced` arrivals expected whose parts are not handed out yet; in wait() before
-- it has the mutex, with it before the test, before event_.wait, and in there, where it does not
-- have it; with the mutex after the loop; in spin_wait(), and yielding there; returned.
pub data Owner : Type 0 where
  fresh : Owner
  preparing : (announced : ℕ) → Owner
  wait_locking : Owner
  testing : Owner
  parking : Owner
  parked : Owner
  wait_unlocking : Owner
  spinning : (nop_spin_count spin_tries : ℕ) → Owner
  yielding : Owner
  joined : (stalled : Bool) → Owner

pub record Barrier : Type 0 where
  pub counter_ : ℕ
  pub spin_wait_ : Bool
  -- whether mutex_ is held
  pub mutex_ : Bool
  pub owner : Owner
  pub workers : List Worker

-- counter_ - 1, in hardware_concurrency_t, of which there are `hc` values
abbrev pub decremented : (hc counter : ℕ) → ℕ
decremented hc counter = (counter + (hc - 1)) % hc

pub data Step (hc : ℕ) (s : Barrier) : Barrier → Type 0 where
  -- the owner's steps: before any arrival is expected it chooses how to wait
  use_spin_wait :
      (value : Bool)
      → s.owner ≡ fresh
      → Step hc s (record s { spin_wait_ = value; owner = preparing 0 })
  no_choice : s.owner ≡ fresh → Step hc s (record s { owner = preparing 0 })
  -- initialize, which asserts that nothing is expected
  initialize :
      (initial_value : ℕ)
      → initial_value < hc
      → s.owner ≡ preparing 0
      → s.counter_ ≡ 0
      → Step hc s (record s { counter_ = initial_value; owner = preparing initial_value })
  -- add_expected_arrival, which asserts that the counter does not overflow
  add_expected_arrival :
      {k : ℕ}
      → s.owner ≡ preparing k
      → s.counter_ + 1 < hc
      → Step hc s (record s { counter_ = s.counter_ + 1; owner = preparing (suc k) })
  -- a part for which an arrival is expected is handed to a thread
  hand_out :
      {k : ℕ} (i : ℕ)
      → s.owner ≡ preparing (suc k)
      → get_elem? s.workers i ≡ some idle
      → Step hc s (record s { owner = preparing k; workers = set s.workers i working })
  wait :
      s.owner ≡ preparing 0 → s.spin_wait_ ≡ false → Step hc s (record s { owner = wait_locking })
  wait_lock :
      s.owner ≡ wait_locking
      → s.mutex_ ≡ false
      → Step hc s (record s { owner = testing; mutex_ = true })
  test_done : s.owner ≡ testing → s.counter_ ≡ 0 → Step hc s (record s { owner = wait_unlocking })
  test_again : s.owner ≡ testing → s.counter_ ≢ 0 → Step hc s (record s { owner = parking })
  -- event_.wait gives the mutex back as it parks, and takes it again, which may be for no reason
  park : s.owner ≡ parking → Step hc s (record s { owner = parked; mutex_ = false })
  spurious : s.owner ≡ parked → Step hc s (record s { owner = wait_locking })
  wait_unlock :
      s.owner ≡ wait_unlocking → Step hc s (record s { owner = joined false; mutex_ = false })
  spin_wait :
      (nop_spin_count : ℕ)
      → s.owner ≡ preparing 0
      → s.spin_wait_ ≡ true
      → Step hc s (record s { owner = spinning nop_spin_count nop_spin_count })
  spin_done :
      {n left : ℕ}
      → s.owner ≡ spinning n (suc left)
      → s.counter_ ≡ 0
      → Step hc s (record s { owner = joined (within_an_eighth n left) })
  spin_again :
      {n left : ℕ}
      → s.owner ≡ spinning n (suc left)
      → s.counter_ ≢ 0
      → Step hc s (record s { owner = spinning n left })
  spun : {n : ℕ} → s.owner ≡ spinning n 0 → Step hc s (record s { owner = yielding })
  yield_done : s.owner ≡ yielding → s.counter_ ≡ 0 → Step hc s (record s { owner = joined true })
  -- the next spread's barrier, in the same place
  again :
      {b : Bool} → s.owner ≡ joined b → Step hc s (record s { spin_wait_ = false; owner = fresh })
  -- the other threads' steps: arrive
  arrive_spinning :
      (i : ℕ)
      → get_elem? s.workers i ≡ some working
      → s.spin_wait_ ≡ true
      → Step hc s
          (record s { counter_ = decremented hc s.counter_; workers = set s.workers i idle })
  arrive_lock :
      (i : ℕ)
      → get_elem? s.workers i ≡ some working
      → s.spin_wait_ ≡ false
      → s.mutex_ ≡ false
      → Step hc s (record s { mutex_ = true; workers = set s.workers i locked })
  arrive :
      (i : ℕ)
      → get_elem? s.workers i ≡ some locked
      → s.counter_ ≢ 1
      → Step hc s
          (record s { counter_ = decremented hc s.counter_; workers = set s.workers i unlocking })
  arrive_last :
      (i : ℕ)
      → get_elem? s.workers i ≡ some locked
      → s.counter_ ≡ 1
      → Step hc s
          (record s { counter_ = decremented hc s.counter_; workers = set s.workers i notifying })
  notify_one :
      (i : ℕ)
      → get_elem? s.workers i ≡ some notifying
      → s.owner ≡ parked
      → Step hc s (record s { owner = wait_locking; workers = set s.workers i unlocking })
  notify_nobody :
      (i : ℕ)
      → get_elem? s.workers i ≡ some notifying
      → s.owner ≢ parked
      → Step hc s (record s { workers = set s.workers i unlocking })
  arrive_unlock :
      (i : ℕ)
      → get_elem? s.workers i ≡ some unlocking
      → Step hc s (record s { mutex_ = false; workers = set s.workers i idle })

-- A new barrier, and `n` threads without a part.
abbrev pub start : ℕ → Barrier
start n = record {
  counter_ = 0;
  spin_wait_ = false;
  mutex_ = false;
  owner = fresh;
  workers = replicate n idle;
}

pub data Reach (hc n : ℕ) : Barrier → Type 0 where
  new : Reach hc n (start n)
  step : {s t : Barrier} → Reach hc n s → Step hc s t → Reach hc n t
