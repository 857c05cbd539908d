-- ===== src/Shop/Fire.antt =====
-- generic.hpp: create_fire_and_destroy, with work_added and work_completed of generic.cpp and the
-- in-flight count of dispatch_tracking.hpp, a shared access at a time. `hc` is the number of values
-- of hardware_concurrency_t.
pub mod Counting
use sweater.Prelude.{ℕ, ◌+◌, ◌-◌, ◌%◌, ◌^◌, ◌≡◌, true, false, List, some, get_elem?, set, replicate}

-- Where a fired work item is: its caller before the enqueue; in the queue; run by a worker; run, with
-- the in-flight count taken down; and with work_completed too; refused by the queue.
pub data Place : Type 0 where
  fresh : Place
  queued : Place
  running : Place
  ended : Place
  completed : Place
  refused : Place

-- The queue took it.
abbrev pub WasEnqueued : Place → Type 0
WasEnqueued fresh = true ≡ false
WasEnqueued refused = true ≡ false
WasEnqueued _ = Unit

-- How far its caller is in work_added: before it, with work_items_ counted, with both counted.
pub data Added : Type 0 where
  not_added : Added
  item_added : Added
  in_flight : Added

pub record Work : Type 0 where
  pub place : Place
  pub added : Added

abbrev pub unfired : Work
unfired = record { place = fresh; added = not_added }

-- The counters and the work items that are fired, whose callers may be different threads.
pub record Fired : Type 0 where
  pub work_items_ : ℕ
  pub g_in_flight : ℕ
  pub works : List Work

pub data Step (hc : ℕ) (s : Fired) : Fired → Type 0 where
  -- the queue takes the item, or not, and then nothing is added
  enqueue :
      (i : ℕ)
      → get_elem? s.works i ≡ some (record { place = fresh; added = not_added })
      → Step hc s
          (record s { works = set s.works i (record { place = queued; added = not_added }) })
  refuse :
      (i : ℕ)
      → get_elem? s.works i ≡ some (record { place = fresh; added = not_added })
      → Step hc s
          (record s { works = set s.works i (record { place = refused; added = not_added }) })
  -- work_added( true ), wherever the item is by then
  add_queued_item :
      (i : ℕ) {p : Place}
      → get_elem? s.works i ≡ some (record { place = p; added = not_added })
      → WasEnqueued p
      → Step hc s (record s {
        work_items_ = (s.work_items_ + 1) % hc;
        works = set s.works i (record { place = p; added = item_added });
      })
  in_flight_inc :
      (i : ℕ) {p : Place}
      → get_elem? s.works i ≡ some (record { place = p; added = item_added })
      → Step hc s (record s {
        g_in_flight = (s.g_in_flight + 1) % 2 ^ 64;
        works = set s.works i (record { place = p; added = in_flight });
      })
  -- a worker: it dequeues and runs the item, the guard takes down the in-flight count, and
  -- work_completed the items
  dequeue :
      (i : ℕ) {a : Added}
      → get_elem? s.works i ≡ some (record { place = queued; added = a })
      → Step hc s (record s { works = set s.works i (record { place = running; added = a }) })
  in_flight_dec :
      (i : ℕ) {a : Added}
      → get_elem? s.works i ≡ some (record { place = running; added = a })
      → Step hc s (record s {
        g_in_flight = (s.g_in_flight + (2 ^ 64 - 1)) % 2 ^ 64;
        works = set s.works i (record { place = ended; added = a });
      })
  work_completed :
      (i : ℕ) {a : Added}
      → get_elem? s.works i ≡ some (record { place = ended; added = a })
      → Step hc s (record s {
        work_items_ = (s.work_items_ + (hc - 1)) % hc;
        works = set s.works i (record { place = completed; added = a });
      })

-- `n` items to fire.
abbrev pub start : ℕ → Fired
start n = record { work_items_ = 0; g_in_flight = 0; works = replicate n unfired }

pub data Reach (hc n : ℕ) : Fired → Type 0 where
  new : Reach hc n (start n)
  step : {s t : Fired} → Reach hc n s → Step hc s t → Reach hc n t
