-- ===== src/Shop/Control.antt =====
-- generic.cpp: shop::set_priority and shop::bind_worker, with their second try on Linux, a spread
-- whose calls each do it for the thread that they are made on. Which threads those are is a parameter.
-- set_priority's calls all write the plain bool `success`: the order of their stores is the order of
-- the calls here, and each may have loaded before any of the latest stores.
pub mod Priorities
pub mod Affinity
use sweater.Prelude.{
  ℕ, zero, suc, Bool, true, false, not, ◌&&◌, ◌||◌, ◌==◌, if◌then◌else◌, List, [], ◌∷◌, Option,
  none, some, get_elem?, set, to_int,
}
use sweater.ThreadPriority.{Priority}

-- A thread: the priority it has, whether the system grants thread::set_priority for it, and whether
-- it grants the thread's own call of setpriority.
pub record Thread : Type 0 where
  pub priority : Priority
  pub grants : Bool
  pub allowed : Bool

-- `stores` are the values that the spread's calls stored to `success`, the latest first.
pub record Threads : Type 0 where
  pub pool_ : List Thread
  pub caller : Thread
  pub stores : List Bool

-- A call of the spread: on worker `some j` or on the thread that called set_priority; and how many of
-- the latest stores its load of `success` does not see.
pub record Call : Type 0 where
  pub runner : Option ℕ
  pub missed : ℕ

-- `success` is true at first.
unfoldable pub loaded : (missed : ℕ) → List Bool → Bool
loaded missed [] = true
loaded zero (b ∷ stores) = b
loaded (suc missed) (b ∷ stores) = loaded missed stores

unfoldable pub request : (granted : Bool) → Priority → Thread → Thread
request granted p t = if granted then record t { priority = p } else t

-- The loop over the pool, and whether all of it was granted.
unfoldable pub request_all : Priority → List Thread → List Thread × Bool
request_all p [] = ([], true)
request_all p (t ∷ ts) =
    let (rest, success) = request_all p ts in (request t.grants p t ∷ rest, t.grants && success)

-- The spread's lambda on worker `j`, of which there is none where the pool ends before.
unfoldable pub worker_call : Priority → (j missed : ℕ) → Option Thread → Threads → Threads
worker_call p j missed none s = s
worker_call p j missed (some t) s = record s {
  pool_ = set s.pool_ j (request t.allowed p t);
  stores = (loaded missed s.stores && t.allowed) ∷ s.stores;
}

-- The spread's lambda.
unfoldable pub setpriority_call :
    (use_caller : Bool) → Priority → Option ℕ → (missed : ℕ) → Threads → Threads
setpriority_call use_caller p none missed s = if use_caller then s else record s {
  caller = request s.caller.allowed p s.caller;
  stores = (loaded missed s.stores && s.caller.allowed) ∷ s.stores;
}
setpriority_call use_caller p (some j) missed s = worker_call p j missed (get_elem? s.pool_ j) s

unfoldable pub setpriority_calls : (use_caller : Bool) → Priority → List Call → Threads → Threads
setpriority_calls use_caller p [] s = s
setpriority_calls use_caller p (c ∷ calls) s =
    setpriority_calls use_caller p calls (setpriority_call use_caller p c.runner c.missed s)

-- Whether the pool is refused for some thread, and the spread is made.
unfoldable pub tries_again : (linux : Bool) → Priority → List Thread → Bool
tries_again linux p pool = not (request_all p pool).1 && linux

-- The threads, and what is returned. `s.stores` is not read.
unfoldable pub set_priority :
    (linux use_caller : Bool) → Priority → List Call → Threads → Threads × Bool
unfolding tries_again
set_priority linux use_caller p calls s =
    let (pool, granted) = request_all p s.pool_ in
    let again = setpriority_calls use_caller p calls (record s { pool_ = pool; stores = [] }) in
    if tries_again linux p s.pool_
    then (again, loaded 0 again.stores)
    else (record s { pool_ = pool; stores = [] }, granted)

-- Whom a call of sched_setaffinity is for: the thread of this id, or for an id of 0 the one that calls.
pub data Target : Type 0 where
  the_worker : Target
  the_caller : Target

-- Which of the two has the mask.
pub record Masks : Type 0 where
  pub worker_bound : Bool
  pub caller_bound : Bool

-- sched_setaffinity, which sets the mask where it is `permitted`, and returns 0 then. The posix
-- thread::bind_to_cpu of a thread's id returns whether it returned 0.
unfoldable pub bind_to_cpu : (permitted : Bool) → Target → Masks → Masks × Bool
bind_to_cpu false target m = (m, false)
bind_to_cpu true the_worker m = (record m { worker_bound = true }, true)
bind_to_cpu true the_caller m = (record m { caller_bound = true }, true)

-- bind_worker's `result`, whether the assertion that it is 2 has held at each call, and the masks.
pub record Binding : Type 0 where
  pub result : ℕ
  pub asserted : Bool
  pub masks : Masks

unfoldable pub bind_call : (worker_index : ℕ) (permitted : Bool) → Option ℕ → Binding → Binding
bind_call worker_index permitted none b = b
bind_call worker_index permitted (some j) b =
    let (masks, bound) = bind_to_cpu permitted the_worker b.masks in
    if j == worker_index
    then record { result = to_int bound; asserted = b.asserted && b.result == 2; masks = masks }
    else b

unfoldable pub bind_calls :
    (worker_index : ℕ) (permitted : Bool) → List (Option ℕ) → Binding → Binding
bind_calls worker_index permitted [] b = b
bind_calls worker_index permitted (r ∷ runners) b =
    bind_calls worker_index permitted runners (bind_call worker_index permitted r b)

abbrev pub unbound : Masks
unbound = record { worker_bound = false; caller_bound = false }

-- What bind_worker returns on Linux, where the thread's bind_to_cpu of a mask does nothing and returns
-- false, the masks, and whether its assertions hold. `started`: the worker has stored its thread_id_,
-- which is 0 before.
unfoldable pub bind_worker :
    (exact_worker_selection started permitted : Bool) (runners : List (Option ℕ)) (worker_index : ℕ)
    → Bool × Masks × Bool
bind_worker true started permitted runners worker_index =
    let (masks, bound) =
      bind_to_cpu permitted (if started then the_worker else the_caller) unbound in
    (bound, masks, true)
bind_worker false started permitted runners worker_index =
    let b =
      bind_calls worker_index permitted runners
        (record { result = 2; asserted = true; masks = unbound }) in
    (b.result == 0, b.masks, b.asserted && not (b.result == 2))
