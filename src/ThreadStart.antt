-- ===== src/ThreadStart.antt =====
-- threading/thread.hpp: thread::operator=, which starts a thread with a functor, a shared access at a
-- time. Of the system: a creation may be refused, a wait on a condition variable may end for no
-- reason, and a notification wakes only a thread that is asleep then.
pub mod Invariant
pub mod Safety
use sweater.Prelude.{ℕ, ◌+◌, ◌≡◌, ◌≢◌, ◌⊎◌, Bool, true, false, if◌then◌else◌}

-- How the functor gets to the thread: in the context pointer, by a copy that the thread makes of the
-- caller's, or as a heap object.
pub data Passing : Type 0 where
  in_pointer : Passing
  synchronized : Passing
  on_heap : Passing

-- The caller of operator=: before create; after it; with the exception of a refusal; in the destructor
-- of synchronized_invocation, at its test, behind it, and asleep; and out of operator=.
pub data Creator : Type 0 where
  preparing : Creator
  created : Creator
  refused : Creator
  testing : Creator
  about_to_sleep : Creator
  asleep : Creator
  back : Creator
  thrown : Creator

-- The thread: not there yet; in its procedure; with its copy of the functor; with functor_copied_ set;
-- with the notification made; in its call of the functor; and at its end.
pub data Starter : Type 0 where
  absent : Starter
  entered : Starter
  copied : Starter
  flagged : Starter
  ready : Starter
  calling : Starter
  ended : Starter

-- With the number of calls and deletions of the functor, and whether create was refused.
pub record System : Type 0 where
  pub creator : Creator
  pub starter : Starter
  pub functor_copied_ : Bool
  pub was_refused : Bool
  pub calls : ℕ
  pub deletes : ℕ

-- The heap functor is deleted by the unique_ptr of the thread, or of the caller that threw.
abbrev pub deleted : Passing → ℕ → ℕ
deleted on_heap deletes = deletes + 1
deleted _ deletes = deletes

-- The place from which the thread calls the functor.
abbrev pub is_callable : Passing → Starter → Bool
is_callable synchronized ready = true
is_callable in_pointer entered = true
is_callable on_heap entered = true
is_callable _ _ = false

-- A step, and whether it is a wait that ends for no reason.
pub data Step (p : Passing) (s : System) : (spurious : Bool) → System → Type 0 where
  create :
      s.creator ≡ preparing → Step p s false (record s { creator = created; starter = entered })
  refuse :
      s.creator ≡ preparing → Step p s false (record s { creator = refused; was_refused = true })
  return : p ≢ synchronized → s.creator ≡ created → Step p s false (record s { creator = back })
  throw :
      p ≢ synchronized
      → s.creator ≡ refused
      → Step p s false (record s { creator = thrown; deletes = deleted p s.deletes })
  -- ~synchronized_invocation, on the return and on the exception
  destroy :
      p ≡ synchronized
      → (s.creator ≡ created) ⊎ (s.creator ≡ refused)
      → Step p s false (record s { creator = testing })
  see_copied :
      s.creator ≡ testing
      → s.functor_copied_ ≡ true
      → Step p s false (record s { creator = if s.was_refused then thrown else back })
  see_uncopied :
      s.creator ≡ testing
      → s.functor_copied_ ≡ false
      → Step p s false (record s { creator = about_to_sleep })
  sleep : s.creator ≡ about_to_sleep → Step p s false (record s { creator = asleep })
  wake_up : s.creator ≡ asleep → Step p s true (record s { creator = testing })
  -- the thread's procedure
  copy : p ≡ synchronized → s.starter ≡ entered → Step p s false (record s { starter = copied })
  flag :
      s.starter ≡ copied → Step p s false (record s { starter = flagged; functor_copied_ = true })
  notify_one :
      s.starter ≡ flagged
      → s.creator ≡ asleep
      → Step p s false (record s { starter = ready; creator = testing })
  notify_nobody :
      s.starter ≡ flagged → s.creator ≢ asleep → Step p s false (record s { starter = ready })
  call :
      is_callable p s.starter ≡ true
      → Step p s false (record s { starter = calling; calls = s.calls + 1 })
  end :
      s.starter ≡ calling
      → Step p s false (record s { starter = ended; deletes = deleted p s.deletes })

abbrev pub start : System
start = record {
  creator = preparing;
  starter = absent;
  functor_copied_ = false;
  was_refused = false;
  calls = 0;
  deletes = 0;
}

pub data Reach (p : Passing) : System → Type 0 where
  new : Reach p start
  step : {s t : System} {spurious : Bool} → Reach p s → Step p s spurious t → Reach p t
