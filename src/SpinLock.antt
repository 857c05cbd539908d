-- ===== src/SpinLock.antt =====
-- threading/cpp/spin_lock.{hpp,cpp}: the test-and-set lock, an access to its flag at a time. A thread
-- unlocks only what it has locked; nop() does not touch the flag.
pub mod Safety
use sweater.Prelude.{
  ℕ, ◌≡◌, Bool, true, false, if◌then◌else◌, List, some, get_elem?, set, replicate,
}

-- std::atomic_flag's test_and_set: the flag that was there, and the flag from then on.
abbrev pub test_and_set : Bool → Bool × Bool
test_and_set flag_ = (flag_, true)

-- Whether the caller has the lock now, and the flag.
unfoldable pub try_lock : Bool → Bool × Bool
try_lock flag_ =
    let (was_set, after) = test_and_set flag_ in (if was_set then false else true, after)

unfoldable pub unlock : Bool → Bool
unlock flag_ = false

-- Where a thread stands: outside the lock, in the loop of lock(), with the lock.
pub data Pc : Type 0 where
  outside : Pc
  locking : Pc
  inside : Pc

-- Where a try that returned its argument leaves a thread: the loop of lock() goes on after a failed
-- one, try_lock() returns.
abbrev pub after_lock : Bool → Pc
after_lock locked = if locked then inside else locking

abbrev pub after_try_lock : Bool → Pc
after_try_lock locked = if locked then inside else outside

-- The flag, and the threads that use the lock.
pub record SpinLock : Type 0 where
  pub flag_ : Bool
  pub threads : List Pc

pub data Step (s : SpinLock) : SpinLock → Type 0 where
  call_lock :
      (i : ℕ)
      → get_elem? s.threads i ≡ some outside
      → Step s (record s { threads = set s.threads i locking })
  try_in_loop :
      (i : ℕ)
      → get_elem? s.threads i ≡ some locking
      → Step s (record {
        flag_ = (try_lock s.flag_).1;
        threads = set s.threads i (after_lock (try_lock s.flag_).0);
      })
  call_try_lock :
      (i : ℕ)
      → get_elem? s.threads i ≡ some outside
      → Step s (record {
        flag_ = (try_lock s.flag_).1;
        threads = set s.threads i (after_try_lock (try_lock s.flag_).0);
      })
  call_unlock :
      (i : ℕ)
      → get_elem? s.threads i ≡ some inside
      → Step s (record { flag_ = unlock s.flag_; threads = set s.threads i outside })

-- A new lock, and `n` threads outside it.
abbrev pub start : ℕ → SpinLock
start n = record { flag_ = false; threads = replicate n outside }

pub data Reach (n : ℕ) : SpinLock → Type 0 where
  new : Reach n (start n)
  step : {s t : SpinLock} → Reach n s → Step s t → Reach n t
