-- ===== src/Shop/Joined.antt =====
-- A spread of generic.cpp over the barrier of threading/futex_barrier.cpp: the owner makes the spread's
-- calls in their order, each handed range is some thread's until it arrives, and the threads and the
-- owner's waits take the steps of Barrier.Futex. The caller's own range counts as handed to a thread.
-- Where the spread does not wait, the owner sees at its end that everyone has arrived.
pub mod Plan
pub mod Stages
pub mod Invariant
pub mod Safety
use sweater.Prelude.{
  ℕ, suc, ◌+◌, ◌-◌, ◌%◌, ◌^◌, ◌≡◌, Bool, true, false, List, [], ◌∷◌, ◌++◌, some, get_elem?, set,
}
use sweater.Barrier.Futex.{
  Barrier, Owner, idle, working, fresh, preparing, wait_loading, spinning, joined, Step, start,
  everyone_arrived, use_spin_wait, no_choice, initialize, add_expected_arrival, hand_out, wait,
  spin_wait, again,
}
use sweater.Chunks.Tiles.{Range}
use sweater.Shop.Effects.{Effect}

-- The calls that are left, and the ranges that were handed to threads.
pub record Joint : Type 0 where
  pub barrier : Barrier
  pub rest : List Effect
  pub handed : List Range

-- The calls that the barrier does not see.
abbrev pub is_inert : Effect → Bool
is_inert (Effect.work_added_untracked n) = true
is_inert (Effect.enqueue w [] b true) = true
is_inert (Effect.enqueue_bulk [] true) = true
is_inert (Effect.signal_work n) = true
is_inert Effect.wake_all_workers = true
is_inert Effect.work_completed = true
is_inert Effect.steal_work = true
is_inert _ = false

-- Whether the spread chooses how to wait.
abbrev pub chooses : List Effect → Bool
chooses (Effect.use_spin_wait v ∷ es) = true
chooses _ = false

-- The barrier's steps that are none of the spread's calls.
abbrev pub is_other : {hc limit : ℕ} {s t : Barrier} → Step hc limit s t → Bool
is_other (use_spin_wait v e) = false
is_other (no_choice e) = false
is_other (initialize v l e h) = false
is_other (add_expected_arrival e h) = false
is_other (hand_out i e f) = false
is_other (wait e h) = false
is_other (spin_wait n e h) = false
is_other (again e) = false
is_other _ = true

-- A range is handed to the idle thread `i`.
abbrev pub handing : Joint → ℕ → ℕ → List Effect → Range → Joint
handing s i k rest r = record {
  barrier = record s.barrier {
    owner = preparing (k - 1);
    workers = set s.barrier.workers i working;
  };
  rest = rest;
  handed = s.handed ++ (r ∷ []);
}

pub data JointStep (hc : ℕ) (s : Joint) : Joint → Type 0 where
  choose :
      {v : Bool} {es : List Effect}
      → s.rest ≡ Effect.use_spin_wait v ∷ es
      → s.barrier.owner ≡ fresh
      → JointStep hc s (record s {
        barrier = record s.barrier { spin_wait_ = v; owner = preparing 0 };
        rest = es;
      })
  -- a spread whose caller takes no part leaves the barrier as it is
  keep_wait :
      chooses s.rest ≡ false
      → s.barrier.owner ≡ fresh
      → JointStep hc s (record s { barrier = record s.barrier { owner = preparing 0 } })
  expect :
      {k : ℕ} {es : List Effect}
      → s.rest ≡ Effect.add_expected_arrival ∷ es
      → s.barrier.owner ≡ preparing k
      → JointStep hc s (record s {
        barrier = record s.barrier {
          counter_ = (s.barrier.counter_ + 1) % 2 ^ 32;
          owner = preparing (suc k);
        };
        rest = es;
      })
  -- initialize
  set_up :
      {k n : ℕ} {es : List Effect}
      → s.rest ≡ Effect.initialize n ∷ es
      → s.barrier.owner ≡ preparing k
      → JointStep hc s
          (record s { barrier = record s.barrier { counter_ = n; owner = preparing n }; rest = es })
  enqueue :
      {k w : ℕ} {b : Bool} {r : Range} {rs : List Range} {es : List Effect} (i : ℕ)
      → s.rest ≡ Effect.enqueue w (r ∷ rs) b true ∷ es
      → s.barrier.owner ≡ preparing k
      → get_elem? s.barrier.workers i ≡ some idle
      → JointStep hc s (handing s i k (Effect.enqueue w rs b true ∷ es) r)
  enqueue_bulk :
      {k : ℕ} {r : Range} {rs : List Range} {es : List Effect} (i : ℕ)
      → s.rest ≡ Effect.enqueue_bulk (r ∷ rs) true ∷ es
      → s.barrier.owner ≡ preparing k
      → get_elem? s.barrier.workers i ≡ some idle
      → JointStep hc s (handing s i k (Effect.enqueue_bulk rs true ∷ es) r)
  run :
      {k : ℕ} {r : Range} {es : List Effect} (i : ℕ)
      → s.rest ≡ Effect.run r ∷ es
      → s.barrier.owner ≡ preparing k
      → get_elem? s.barrier.workers i ≡ some idle
      → JointStep hc s (handing s i k es r)
  -- a call that the barrier does not see
  skip :
      {k : ℕ} {e : Effect} {es : List Effect}
      → s.rest ≡ e ∷ es
      → s.barrier.owner ≡ preparing k
      → is_inert e ≡ true
      → JointStep hc s (record s { rest = es })
  start_wait :
      {k : ℕ} {es : List Effect}
      → s.rest ≡ Effect.wait ∷ es
      → s.barrier.owner ≡ preparing k
      → JointStep hc s (record s { barrier = record s.barrier { owner = wait_loading }; rest = es })
  start_spin_wait :
      (nop_spin_count : ℕ) {k : ℕ} {es : List Effect}
      → s.rest ≡ Effect.spin_wait ∷ es
      → s.barrier.owner ≡ preparing k
      → JointStep hc s (record s {
        barrier = record s.barrier { owner = spinning nop_spin_count nop_spin_count };
        rest = es;
      })
  -- everyone_arrived() where the spread makes no call to wait
  see_everyone :
      {k : ℕ}
      → s.rest ≡ []
      → s.barrier.owner ≡ preparing k
      → everyone_arrived hc s.barrier.counter_ ≡ true
      → JointStep hc s (record s { barrier = record s.barrier { owner = joined false } })
  other :
      {limit : ℕ} {t : Barrier} (st : Step hc limit s.barrier t)
      → is_other st ≡ true
      → JointStep hc s (record s { barrier = t })

pub data JointReach (hc n : ℕ) (es : List Effect) : Joint → Type 0 where
  new : JointReach hc n es (record { barrier = start n; rest = es; handed = [] })
  step : {s t : Joint} → JointReach hc n es s → JointStep hc s t → JointReach hc n es t
