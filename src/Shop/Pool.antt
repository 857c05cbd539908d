-- ===== src/Shop/Pool.antt =====
-- generic.cpp: worker_loop, create_pool, wake_all_workers and stop_and_destroy_pool, with a worker
-- for each event (PSI_SWEATER_EXACT_WORKER_SELECTION). A step is one access of a worker or of the
-- shop's owner to what they share; the queue is a number of items, and its dequeue may miss an item
-- that is there. `hc` is the number of values of hardware_concurrency_t.
pub mod Stranded
pub mod Stopping
use sweater.Prelude.{
  ℕ, zero, suc, ◌+◌, ◌-◌, ◌%◌, ◌≡◌, ◌≢◌, Bool, true, false, List, [], ◌∷◌, some, get_elem?, set,
  replicate, length, if◌then◌else◌,
}
use sweater.Threads.{weigh}
use sweater.Shop.Wake.{propagate_spread_wake}

-- Where a worker is in its loop: dequeuing (from its own producer's items in the first of the two
-- loops), running an item from there, about to read `exit`, waiting, about to notify the workers
-- below it in the tree, or back from the loop.
pub data Pc : Type 0 where
  dequeuing : (own : Bool) → Pc
  running : (own : Bool) → Pc
  checking : Pc
  waiting : Pc
  notifying : List ℕ → Pc
  returned : Pc

-- `tokens` are those of the worker's event_, and `woken` says that stop_and_destroy_pool notified it.
pub record Worker : Type 0 where
  pub pc : Pc
  pub tokens : ℕ
  pub woken : Bool

pub record Pool : Type 0 where
  pub brexit_ : Bool
  pub work_items_ : ℕ
  pub queued : ℕ
  pub pool_ : List Worker

-- worker_thread::notify
unfoldable pub notify : ℕ → List Worker → List Worker
notify j [] = []
notify zero (w ∷ ws) = record w { tokens = w.tokens + 1 } ∷ ws
notify (suc j) (w ∷ ws) = w ∷ notify j ws

pub data WorkerStep (hc : ℕ) (s : Pool) : Pool → Type 0 where
  run :
      (i : ℕ) {own b : Bool} {n k : ℕ}
      → get_elem? s.pool_ i ≡ some (record { pc = dequeuing own; tokens = k; woken = b })
      → s.queued ≡ suc n
      → WorkerStep hc s (record s {
        queued = n;
        pool_ = set s.pool_ i (record { pc = running own; tokens = k; woken = b });
      })
  -- the item has run: work_completed
  complete :
      (i : ℕ) {own b : Bool} {k : ℕ}
      → get_elem? s.pool_ i ≡ some (record { pc = running own; tokens = k; woken = b })
      → WorkerStep hc s (record s {
        work_items_ = (s.work_items_ + (hc - 1)) % hc;
        pool_ = set s.pool_ i (record { pc = dequeuing own; tokens = k; woken = b });
      })
  -- the loops end when a dequeue finds nothing
  steal :
      (i : ℕ) {b : Bool} {k : ℕ}
      → get_elem? s.pool_ i ≡ some (record { pc = dequeuing true; tokens = k; woken = b })
      → WorkerStep hc s (record s {
        pool_ = set s.pool_ i (record { pc = dequeuing false; tokens = k; woken = b });
      })
  run_out :
      (i : ℕ) {b : Bool} {k : ℕ}
      → get_elem? s.pool_ i ≡ some (record { pc = dequeuing false; tokens = k; woken = b })
      → WorkerStep hc s
          (record s { pool_ = set s.pool_ i (record { pc = checking; tokens = k; woken = b }) })
  leave :
      (i : ℕ) {b : Bool} {k : ℕ}
      → get_elem? s.pool_ i ≡ some (record { pc = checking; tokens = k; woken = b })
      → s.brexit_ ≡ true
      → WorkerStep hc s
          (record s { pool_ = set s.pool_ i (record { pc = returned; tokens = k; woken = b }) })
  sleep :
      (i : ℕ) {b : Bool} {k : ℕ}
      → get_elem? s.pool_ i ≡ some (record { pc = checking; tokens = k; woken = b })
      → s.brexit_ ≡ false
      → WorkerStep hc s
          (record s { pool_ = set s.pool_ i (record { pc = waiting; tokens = k; woken = b }) })
  -- work_event.wait() returns; number_of_items() is read
  wake_idle :
      (i : ℕ) {b : Bool} {k : ℕ}
      → get_elem? s.pool_ i ≡ some (record { pc = waiting; tokens = suc k; woken = b })
      → s.work_items_ ≡ 0
      → WorkerStep hc s
          (record s { pool_ = set s.pool_ i (record { pc = notifying []; tokens = k; woken = b }) })
  wake_busy :
      (i : ℕ) {b : Bool} {k : ℕ}
      → get_elem? s.pool_ i ≡ some (record { pc = waiting; tokens = suc k; woken = b })
      → s.work_items_ ≢ 0
      → WorkerStep hc s (record s {
        pool_ = set s.pool_ i (record {
          pc = notifying (propagate_spread_wake hc (length s.pool_) i);
          tokens = k;
          woken = b;
        });
      })
  -- propagate_spread_wake
  propagate :
      (i j : ℕ) {js : List ℕ} {b : Bool} {k : ℕ}
      → get_elem? s.pool_ i ≡ some (record { pc = notifying (j ∷ js); tokens = k; woken = b })
      → WorkerStep hc s (record s {
        pool_ = notify j (set s.pool_ i (record { pc = notifying js; tokens = k; woken = b }));
      })
  resume :
      (i : ℕ) {b : Bool} {k : ℕ}
      → get_elem? s.pool_ i ≡ some (record { pc = notifying []; tokens = k; woken = b })
      → WorkerStep hc s (record s {
        pool_ = set s.pool_ i (record { pc = dequeuing true; tokens = k; woken = b });
      })

abbrev pub new_worker : Worker
new_worker = record { pc = dequeuing true; tokens = 0; woken = false }

abbrev pub unwoken : Worker → ℕ
unwoken w = if w.woken then 0 else 1

abbrev pub unreturned : Worker → ℕ
unreturned w = elim w.pc [ returned ↦ 0 | _ ↦ 1 ]

-- What the others do. An item is enqueued, counted, and its worker notified in any order.
pub data OwnerStep (hc : ℕ) (s : Pool) : Pool → Type 0 where
  enqueue : OwnerStep hc s (record s { queued = s.queued + 1 })
  work_added :
      (items : ℕ) → OwnerStep hc s (record s { work_items_ = (s.work_items_ + items) % hc })
  notify_worker : (j : ℕ) → OwnerStep hc s (record s { pool_ = notify j s.pool_ })
  -- stop_and_destroy_pool: brexit_, wake_all_workers, the joins and the end of the pool
  stop : OwnerStep hc s (record s { brexit_ = true })
  wake_worker :
      (i : ℕ) {p : Pc} {k : ℕ}
      → s.brexit_ ≡ true
      → get_elem? s.pool_ i ≡ some (record { pc = p; tokens = k; woken = false })
      → OwnerStep hc s
          (record s { pool_ = set s.pool_ i (record { pc = p; tokens = k + 1; woken = true }) })
  destroy :
      s.brexit_ ≡ true
      → weigh unwoken s.pool_ ≡ 0
      → weigh unreturned s.pool_ ≡ 0
      → OwnerStep hc s (record s { pool_ = [] })
  -- create_pool
  create :
      (size : ℕ)
      → s.pool_ ≡ []
      → OwnerStep hc s (record s { brexit_ = false; pool_ = replicate size new_worker })

abbrev pub start : Pool
start = record { brexit_ = false; work_items_ = 0; queued = 0; pool_ = [] }

pub data Reach (hc : ℕ) : Pool → Type 0 where
  new : Reach hc start
  by_worker : {s t : Pool} → Reach hc s → WorkerStep hc s t → Reach hc t
  by_owner : {s t : Pool} → Reach hc s → OwnerStep hc s t → Reach hc t

-- Some steps of the workers, counted.
pub data Run (hc : ℕ) : ℕ → Pool → Pool → Type 0 where
  none_yet : {s : Pool} → Run hc 0 s s
  after : {k : ℕ} {s t u : Pool} → Run hc k s t → WorkerStep hc t u → Run hc (suc k) s u
