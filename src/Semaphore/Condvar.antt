-- ===== src/Semaphore/Condvar.antt =====
-- threading/generic_semaphore.cpp. A step is one access to `value_`, or one section under the mutex,
-- which a wait of the condition variable ends and begins anew. Outside of it a signal reads `waiters_`
-- once more, where workers are not selected; all other accesses to `to_release_` and `waiters_` are
-- inside. `exact` is PSI_SWEATER_EXACT_WORKER_SELECTION.
pub mod Invariant
pub mod Safety
use sweater.Prelude.{
  ℕ, suc, ◌+◌, ◌-◌, ◌%◌, ◌^◌, ◌≤◌, ◌<◌, ◌≡◌, ◌≢◌, ◌⊎◌, min, Bool, true, false, List, some,
  get_elem?, set, replicate, if◌then◌else◌, to_int, ltb,
}
use sweater.Threads.{weigh}
use sweater.Semaphore.Futex.{Positive, decremented}

-- The words of class semaphore: `value_` as its bit pattern, negative from 2 ^ 31 on.
pub record Semaphore : Type 0 where
  pub value_ : ℕ
  pub to_release_ : ℕ
  pub waiters_ : ℕ

-- Where a thread stands in signal() or wait(), with the local variables that are live there.
pub data Pc : Type 0 where
  outside : Pc
  -- signal: before its section under the mutex, with what it adds to to_release_ there, which
  -- is one where workers are selected; after the section, before it reads waiters_ without the mutex;
  -- with calls of notify_one left; in notify_all
  releasing : (to_wake : ℕ) → Pc
  releasing_one : Pc
  counting : (to_wake : ℕ) → Pc
  notifying : (left : ℕ) → Pc
  notifying_all : Pc
  -- wait( spin_count ): with the last value read and the tries left
  spinning : (value spins_left : ℕ) → Pc
  -- wait: before its fetch_sub; owing a wait, before the mutex; in the condition variable; woken
  entering : Pc
  owing : Pc
  parked : Pc
  woken : Pc

-- Where a signal of `count` goes on after it found `value` not above 0.
unfoldable pub to_release : (exact : Bool) (hc value count : ℕ) → Pc
to_release true hc value count = releasing_one
to_release false hc value count = releasing (min ((2 ^ 32 - value) % 2 ^ 32 % hc) count)

-- How a signal wakes, where it reads `waiters`.
unfoldable pub notify : (to_wake waiters : ℕ) → Pc
notify to_wake waiters = if ltb to_wake waiters then notifying to_wake else notifying_all

-- One step of one thread, which may signal `count` tokens or take one: the last three indices
-- count these, and the releases for which there is no debt.
pub data Move (exact : Bool) (hc : ℕ) (s : Semaphore)
    : Pc → Semaphore → Pc → (signaled taken surplus : ℕ) → Type 0 where
  -- the caller's side of the contract: the tokens fit their word, and are one where workers are selected
  signal_free :
      {count : ℕ}
      → 0 < count
      → count < hc
      → (exact ≡ false) ⊎ (count ≡ 1)
      → Positive s.value_
      → s.value_ + count < 2 ^ 31
      → Move exact hc s outside (record s { value_ = s.value_ + count }) outside count 0 0
  signal_debt :
      {count : ℕ}
      → 0 < count
      → count < hc
      → (exact ≡ false) ⊎ (count ≡ 1)
      → 2 ^ 31 ≤ s.value_
      → Move exact hc s outside
          (record s { value_ = (s.value_ + count) % 2 ^ 32 })
          (to_release exact hc s.value_ count)
          count
          0
          0
  signal_zero :
      {count : ℕ}
      → 0 < count
      → count < hc
      → (exact ≡ false) ⊎ (count ≡ 1)
      → s.value_ ≡ 0
      → Move exact hc s outside
          (record s { value_ = count })
          (to_release exact hc s.value_ count)
          count
          0
          (to_int exact)
  release_nobody :
      {k : ℕ}
      → s.waiters_ ≡ 0
      → Move exact hc s
          (releasing k)
          (record s { to_release_ = (s.to_release_ + k) % hc })
          outside
          0
          0
          0
  release :
      {k : ℕ}
      → s.waiters_ ≢ 0
      → Move exact hc s
          (releasing k)
          (record s { to_release_ = (s.to_release_ + k) % hc })
          (counting k)
          0
          0
          0
  -- `to_wake < waiters_`, after the mutex was released
  read_waiters : {k : ℕ} → Move exact hc s (counting k) s (notify k s.waiters_) 0 0 0
  release_one_nobody :
      s.waiters_ ≡ 0
      → Move exact hc s releasing_one
          (record s { to_release_ = (s.to_release_ + 1) % hc })
          outside
          0
          0
          0
  release_one :
      s.waiters_ ≢ 0
      → Move exact hc s releasing_one
          (record s { to_release_ = (s.to_release_ + 1) % hc })
          (notifying 1)
          0
          0
          0
  notified : Move exact hc s (notifying 0) s outside 0 0 0
  spin : {spin_count : ℕ} → Move exact hc s outside s (spinning s.value_ spin_count) 0 0 0
  try_decrement :
      {value n : ℕ}
      → Positive value
      → s.value_ ≡ value
      → Move exact hc s
          (spinning value (suc n))
          (record s { value_ = decremented value })
          outside
          0
          1
          0
  spin_lost :
      {value n : ℕ}
      → Positive value
      → Move exact hc s (spinning value (suc n)) s (spinning s.value_ n) 0 0 0
  spin_again :
      {value n : ℕ}
      → ¬ Positive value
      → Move exact hc s (spinning value (suc n)) s (spinning s.value_ n) 0 0 0
  spun : {value : ℕ} → Move exact hc s (spinning value 0) s entering 0 0 0
  wait : Move exact hc s outside s entering 0 0 0
  take :
      Positive s.value_
      → Move exact hc s entering (record s { value_ = decremented s.value_ }) outside 0 1 0
  owe :
      ¬ Positive s.value_
      → Move exact hc s entering (record s { value_ = decremented s.value_ }) owing 0 0 0
  -- the section of wait(), which registers and then parks or leaves
  park :
      s.to_release_ ≡ 0
      → Move exact hc s owing (record s { waiters_ = (s.waiters_ + 1) % hc }) parked 0 0 0
  pass :
      0 < s.to_release_
      → Move exact hc s owing
          (record s {
            to_release_ = s.to_release_ - 1;
            waiters_ = ((s.waiters_ + 1) % hc + (hc - 1)) % hc;
          })
          outside
          0
          1
          0
  -- and the one after a wake-up
  park_again : s.to_release_ ≡ 0 → Move exact hc s woken s parked 0 0 0
  leave :
      0 < s.to_release_
      → Move exact hc s woken
          (record s { to_release_ = s.to_release_ - 1; waiters_ = (s.waiters_ + (hc - 1)) % hc })
          outside
          0
          1
          0
  spurious : Move exact hc s parked s woken 0 0 0

abbrev pub is_parked : Pc → ℕ
is_parked parked = 1
is_parked _ = 0

-- The threads over one semaphore, with the tokens signaled and taken so far, and the releases
-- without a debt.
pub record System : Type 0 where
  pub sema : Semaphore
  pub threads : List Pc
  pub signaled : ℕ
  pub taken : ℕ
  pub surplus : ℕ

pub data Step (exact : Bool) (hc : ℕ) (s : System) : System → Type 0 where
  run :
      (i : ℕ) {p q : Pc} {sema : Semaphore} {signaled taken surplus : ℕ}
      → get_elem? s.threads i ≡ some p
      → Move exact hc s.sema p sema q signaled taken surplus
      → Step exact hc s (record {
        sema = sema;
        threads = set s.threads i q;
        signaled = s.signaled + signaled;
        taken = s.taken + taken;
        surplus = s.surplus + surplus;
      })
  -- notify_one by thread `i`, which reaches thread `j`, or nobody
  notify_one :
      (i j k : ℕ)
      → get_elem? s.threads i ≡ some (notifying (suc k))
      → get_elem? (set s.threads i (notifying k)) j ≡ some parked
      → Step exact hc s (record s { threads = set (set s.threads i (notifying k)) j woken })
  notify_nobody :
      (i k : ℕ)
      → get_elem? s.threads i ≡ some (notifying (suc k))
      → weigh is_parked s.threads ≡ 0
      → Step exact hc s (record s { threads = set s.threads i (notifying k) })
  -- notify_all, which reaches thread `j`, and is done when nobody is left
  notify_all :
      (i j : ℕ)
      → get_elem? s.threads i ≡ some notifying_all
      → get_elem? s.threads j ≡ some parked
      → Step exact hc s (record s { threads = set s.threads j woken })
  notified_all :
      (i : ℕ)
      → get_elem? s.threads i ≡ some notifying_all
      → weigh is_parked s.threads ≡ 0
      → Step exact hc s (record s { threads = set s.threads i outside })

-- A new semaphore, and `n` threads outside it.
abbrev pub start : ℕ → System
start n = record {
  sema = record { value_ = 0; to_release_ = 0; waiters_ = 0 };
  threads = replicate n outside;
  signaled = 0;
  taken = 0;
  surplus = 0;
}

pub data Reach (exact : Bool) (hc n : ℕ) : System → Type 0 where
  new : Reach exact hc n (start n)
  step : {s t : System} → Reach exact hc n s → Step exact hc s t → Reach exact hc n t
