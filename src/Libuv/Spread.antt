-- ===== src/Libuv/Spread.antt =====
-- impls/libuv.cpp: spread_node, spread_work_cb, spread_after_cb, the rest of spread_impl after the
-- chunks are set up, and queue_chunks. A step is one access of the caller, the queuer (the loop's
-- thread, or the caller before it goes on), a worker or the loop to what they share, or one section
-- under the node's lock. What libuv does of a request is in the rules: a worker takes it, unless
-- uv_cancel takes it back before, and its after-work callback comes in both cases.
use sweater.Prelude.{
  ℕ, suc, ◌+◌, ◌-◌, ◌%◌, ◌^◌, ◌≡◌, Bool, true, false, List, some, get_elem?, set, replicate, length,
  to_int, ◌==◌,
}

-- Whether the after-work callback of a chunk run inline is to come: it has no request, or uv_cancel
-- took it back, or the callback has come.
pub data After : Type 0 where
  no_request : After
  cancelled : After
  called_back : After

-- A chunk: chunk_pending; chunk_queued, waiting for a worker, taken by one, invoked, counted down,
-- and called back; or chunk_done_inline.
pub data Place : Type 0 where
  pending : Place
  submitted : Place
  working : Place
  worked : Place
  counted : Place
  closed : Place
  inline : After → Place

-- `runs` says how often its work was invoked.
pub record Chunk : Type 0 where
  pub place : Place
  pub runs : ℕ

-- spread_impl: before the tail chunk; after it; the steal-back pass with so many chunks to go; with
-- a chunk that it is to run, or has run; before the wait; before the release; back.
pub data Caller : Type 0 where
  at_tail : Caller
  ran_tail : Caller
  stealing : ℕ → Caller
  running : ℕ → Caller
  has_run : ℕ → Caller
  waiting : Caller
  releasing : Caller
  returned : Caller

-- queue_chunks: at a chunk; with the lock held and a reference added; with a chunk that libuv
-- refused and that it is to run, or has run; before the release; done.
pub data Queuer : Type 0 where
  at : ℕ → Queuer
  referred : ℕ → Queuer
  to_run : ℕ → Queuer
  did_run : ℕ → Queuer
  leaving : Queuer
  done : Queuer

pub record System : Type 0 where
  pub chunks : List Chunk
  -- how often the caller's own chunk was invoked
  pub tail_runs : ℕ
  -- the count of std::latch, which does not go below 0
  pub latch : ℕ
  pub refs : ℕ
  pub deletions : ℕ
  pub caller : Caller
  pub queuer : Queuer

-- std::atomic<std::uint32_t>
abbrev pub incremented : ℕ → ℕ
incremented n = (n + 1) % 2 ^ 32

abbrev pub decremented : ℕ → ℕ
decremented n = (n + (2 ^ 32 - 1)) % 2 ^ 32

-- spread_node::release
abbrev pub release : System → System
release s = record s { refs = decremented s.refs; deletions = s.deletions + to_int (s.refs == 1) }

-- The caller cannot claim it, nor the queuer queue it.
abbrev pub is_available : Place → Bool
is_available pending = true
is_available submitted = true
is_available _ = false

abbrev pub is_pending : Place → Bool
is_pending pending = true
is_pending _ = false

abbrev pub holds_lock : Queuer → Bool
holds_lock (referred i) = true
holds_lock _ = false

pub data Step (s : System) : System → Type 0 where
  -- the caller
  run_tail :
      s.caller ≡ at_tail → Step s (record s { tail_runs = s.tail_runs + 1; caller = ran_tail })
  count_tail :
      s.caller ≡ ran_tail
      → Step s (record s { latch = s.latch - 1; caller = stealing (length s.chunks) })
  steal_pending :
      (k : ℕ) {n : ℕ}
      → s.caller ≡ stealing (suc k)
      → holds_lock s.queuer ≡ false
      → get_elem? s.chunks k ≡ some (record { place = pending; runs = n })
      → Step s (record s {
        chunks = set s.chunks k (record { place = inline no_request; runs = n });
        caller = running k;
      })
  cancel :
      (k : ℕ) {n : ℕ}
      → s.caller ≡ stealing (suc k)
      → holds_lock s.queuer ≡ false
      → get_elem? s.chunks k ≡ some (record { place = submitted; runs = n })
      → Step s (record s {
        chunks = set s.chunks k (record { place = inline cancelled; runs = n });
        caller = running k;
      })
  leave_chunk :
      (k : ℕ) {p : Place} {n : ℕ}
      → s.caller ≡ stealing (suc k)
      → holds_lock s.queuer ≡ false
      → get_elem? s.chunks k ≡ some (record { place = p; runs = n })
      → is_available p ≡ false
      → Step s (record s { caller = stealing k })
  run_inline :
      (k : ℕ) {p : Place} {n : ℕ}
      → s.caller ≡ running k
      → get_elem? s.chunks k ≡ some (record { place = p; runs = n })
      → Step s (record s {
        chunks = set s.chunks k (record { place = p; runs = n + 1 });
        caller = has_run k;
      })
  count_inline :
      (k : ℕ)
      → s.caller ≡ has_run k
      → Step s (record s { latch = s.latch - 1; caller = stealing k })
  end_pass : s.caller ≡ stealing 0 → Step s (record s { caller = waiting })
  wait : s.caller ≡ waiting → s.latch ≡ 0 → Step s (record s { caller = releasing })
  release_caller : s.caller ≡ releasing → Step s (record (release s) { caller = returned })
  -- the queuer
  skip :
      (i : ℕ) {p : Place} {n : ℕ}
      → s.queuer ≡ at i
      → get_elem? s.chunks i ≡ some (record { place = p; runs = n })
      → is_pending p ≡ false
      → Step s (record s { queuer = at (suc i) })
  add_ref :
      (i : ℕ) {n : ℕ}
      → s.queuer ≡ at i
      → get_elem? s.chunks i ≡ some (record { place = pending; runs = n })
      → Step s (record s { refs = incremented s.refs; queuer = referred i })
  submit :
      (i : ℕ) {p : Place} {n : ℕ}
      → s.queuer ≡ referred i
      → get_elem? s.chunks i ≡ some (record { place = p; runs = n })
      → Step s (record s {
        chunks = set s.chunks i (record { place = submitted; runs = n });
        queuer = at (suc i);
      })
  refuse :
      (i : ℕ) {p : Place} {n : ℕ}
      → s.queuer ≡ referred i
      → get_elem? s.chunks i ≡ some (record { place = p; runs = n })
      → Step s (record s {
        chunks = set s.chunks i (record { place = inline no_request; runs = n });
        refs = decremented s.refs;
        queuer = to_run i;
      })
  run_refused :
      (i : ℕ) {p : Place} {n : ℕ}
      → s.queuer ≡ to_run i
      → get_elem? s.chunks i ≡ some (record { place = p; runs = n })
      → Step s (record s {
        chunks = set s.chunks i (record { place = p; runs = n + 1 });
        queuer = did_run i;
      })
  count_refused :
      (i : ℕ)
      → s.queuer ≡ did_run i
      → Step s (record s { latch = s.latch - 1; queuer = at (suc i) })
  end_queue : s.queuer ≡ at (length s.chunks) → Step s (record s { queuer = leaving })
  release_queuer : s.queuer ≡ leaving → Step s (record (release s) { queuer = done })
  -- a worker: spread_work_cb
  take_request :
      (k : ℕ) {n : ℕ}
      → get_elem? s.chunks k ≡ some (record { place = submitted; runs = n })
      → Step s (record s { chunks = set s.chunks k (record { place = working; runs = n }) })
  work :
      (k : ℕ) {n : ℕ}
      → get_elem? s.chunks k ≡ some (record { place = working; runs = n })
      → Step s (record s { chunks = set s.chunks k (record { place = worked; runs = n + 1 }) })
  count_down :
      (k : ℕ) {n : ℕ}
      → get_elem? s.chunks k ≡ some (record { place = worked; runs = n })
      → Step s (record s {
        chunks = set s.chunks k (record { place = counted; runs = n });
        latch = s.latch - 1;
      })
  -- the loop: spread_after_cb
  after_work :
      (k : ℕ) {n : ℕ}
      → get_elem? s.chunks k ≡ some (record { place = counted; runs = n })
      → Step s
          (record (release s) { chunks = set s.chunks k (record { place = closed; runs = n }) })
  after_cancel :
      (k : ℕ) {n : ℕ}
      → get_elem? s.chunks k ≡ some (record { place = inline cancelled; runs = n })
      → Step s (record (release s) {
        chunks = set s.chunks k (record { place = inline called_back; runs = n });
      })

-- spread_node::create, and the latch: `n` chunks are queued, and the caller runs one more.
abbrev pub start : ℕ → System
start n = record {
  chunks = replicate n (record { place = pending; runs = 0 });
  tail_runs = 0;
  latch = n + 1;
  refs = 2;
  deletions = 0;
  caller = at_tail;
  queuer = at 0;
}

pub data Reach (n : ℕ) : System → Type 0 where
  new : Reach n (start n)
  step : {s t : System} → Reach n s → Step s t → Reach n t
