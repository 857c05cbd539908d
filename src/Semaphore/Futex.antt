-- ===== src/Semaphore/Futex.antt =====
-- threading/futex_semaphore.cpp, a shared access at a time. The kernel's part is in the rules
-- `park`, `no_park`, `spurious`, `wake` and `woken`: a thread parks only while the word holds the
-- value that it gave, it may wake for no reason, and a wake of `k` takes up to `k` parked threads.
use sweater.Prelude.{
  ℕ, suc, ◌+◌, ◌-◌, ◌%◌, ◌^◌, ◌≤◌, ◌<◌, ◌≡◌, ◌≢◌, ◌⊎◌, min, List, some, get_elem?, set, replicate,
}
use sweater.Threads.{weigh}

-- The words of class semaphore: `value_` as its bit pattern, negative from 2 ^ 31 on.
pub record Semaphore : Type 0 where
  pub value_ : ℕ
  pub credits_ : ℕ
  pub sleepers_ : ℕ

-- Where a thread stands in signal() or wait(), with the local variables that are live there.
pub data Pc : Type 0 where
  outside : Pc
  -- signal: after the fetch_add on value_ that found a debt; after the deposit; in credits_.wake
  depositing : (to_wake : ℕ) → Pc
  deposited : (to_wake : ℕ) → Pc
  waking : (to_wake : ℕ) → Pc
  -- wait( spin_count ): with the last value read and the tries left
  spinning : (value spins_left : ℕ) → Pc
  -- wait: before its fetch_sub; owing a sleep; registered, at the head of the loop; with the
  -- credits read; about to park; parked; with a credit consumed
  entering : Pc
  registering : Pc
  looking : Pc
  holding : (credits : ℕ) → Pc
  parking : Pc
  parked : Pc
  leaving : Pc

-- value_ > 0, and value_ < 0 with its absolute value
abbrev pub Positive : ℕ → Type 0
Positive value = (0 < value) × (value < 2 ^ 31)

abbrev pub decremented : ℕ → ℕ
decremented value = (value + (2 ^ 32 - 1)) % 2 ^ 32

-- One step of one thread, which may signal `count` tokens or take one: the last two indices count
-- these. `hc` is the number of values of hardware_concurrency_t.
pub data Move (hc : ℕ) (s : Semaphore) : Pc → Semaphore → Pc → (signaled taken : ℕ) → Type 0 where
  signal_nothing : Move hc s outside s outside 0 0
  -- the caller's side of the contract: the tokens fit their word
  signal_free :
      {count : ℕ}
      → 0 < count
      → count < hc
      → s.value_ + count < 2 ^ 31
      → Move hc s outside (record s { value_ = s.value_ + count }) outside count 0
  signal_debt :
      {count : ℕ}
      → 0 < count
      → count < hc
      → 2 ^ 31 ≤ s.value_
      → Move hc s outside
          (record s { value_ = (s.value_ + count) % 2 ^ 32 })
          (depositing (min ((2 ^ 32 - s.value_) % hc) count))
          count
          0
  deposit :
      {k : ℕ}
      → Move hc s
          (depositing k)
          (record s { credits_ = (s.credits_ + k) % 2 ^ 32 })
          (deposited k)
          0
          0
  nobody_sleeps : {k : ℕ} → s.sleepers_ ≡ 0 → Move hc s (deposited k) s outside 0 0
  somebody_sleeps : {k : ℕ} → s.sleepers_ ≢ 0 → Move hc s (deposited k) s (waking k) 0 0
  spin : {spin_count : ℕ} → Move hc s outside s (spinning s.value_ spin_count) 0 0
  try_decrement :
      {value n : ℕ}
      → Positive value
      → s.value_ ≡ value
      → Move hc s (spinning value (suc n)) (record s { value_ = decremented value }) outside 0 1
  spin_lost :
      {value n : ℕ}
      → Positive value
      → Move hc s (spinning value (suc n)) s (spinning s.value_ (suc n)) 0 0
  spin_again :
      {value n : ℕ}
      → ¬ Positive value
      → Move hc s (spinning value (suc n)) s (spinning s.value_ n) 0 0
  spun : {value : ℕ} → Move hc s (spinning value 0) s entering 0 0
  wait : Move hc s outside s entering 0 0
  take :
      Positive s.value_
      → Move hc s entering (record s { value_ = decremented s.value_ }) outside 0 1
  owe :
      ¬ Positive s.value_
      → Move hc s entering (record s { value_ = decremented s.value_ }) registering 0 0
  register : Move hc s registering (record s { sleepers_ = (s.sleepers_ + 1) % hc }) looking 0 0
  see_credits : 0 < s.credits_ → Move hc s looking s (holding s.credits_) 0 0
  see_none : s.credits_ ≡ 0 → Move hc s looking s parking 0 0
  consume :
      {c : ℕ}
      → 0 < c
      → s.credits_ ≡ c
      → Move hc s (holding c) (record s { credits_ = c - 1 }) leaving 0 1
  lose_credits : {c : ℕ} → 0 < s.credits_ → Move hc s (holding c) s (holding s.credits_) 0 0
  lose_all : {c : ℕ} → s.credits_ ≡ 0 → Move hc s (holding c) s parking 0 0
  park : s.credits_ ≡ 0 → Move hc s parking s parked 0 0
  no_park : s.credits_ ≢ 0 → Move hc s parking s looking 0 0
  spurious : Move hc s parked s looking 0 0
  leave : Move hc s leaving (record s { sleepers_ = (s.sleepers_ + (hc - 1)) % hc }) outside 0 0

abbrev pub is_parked : Pc → ℕ
is_parked parked = 1
is_parked _ = 0

-- The threads over one semaphore, with the tokens signaled and taken so far.
pub record System : Type 0 where
  pub sema : Semaphore
  pub threads : List Pc
  pub signaled : ℕ
  pub taken : ℕ

pub data Step (hc : ℕ) (s : System) : System → Type 0 where
  run :
      (i : ℕ) {p q : Pc} {sema : Semaphore} {signaled taken : ℕ}
      → get_elem? s.threads i ≡ some p
      → Move hc s.sema p sema q signaled taken
      → Step hc s (record {
        sema = sema;
        threads = set s.threads i q;
        signaled = s.signaled + signaled;
        taken = s.taken + taken;
      })
  -- thread `i` wakes thread `j`
  wake :
      (i j k : ℕ)
      → get_elem? s.threads i ≡ some (waking (suc k))
      → get_elem? (set s.threads i (waking k)) j ≡ some parked
      → Step hc s (record s { threads = set (set s.threads i (waking k)) j looking })
  -- nobody is left to wake, or as many are awake as were to be
  woken :
      (i k : ℕ)
      → get_elem? s.threads i ≡ some (waking k)
      → (k ≡ 0) ⊎ (weigh is_parked s.threads ≡ 0)
      → Step hc s (record s { threads = set s.threads i outside })

-- A new semaphore, and `n` threads outside it.
abbrev pub start : ℕ → System
start n = record {
  sema = record { value_ = 0; credits_ = 0; sleepers_ = 0 };
  threads = replicate n outside;
  signaled = 0;
  taken = 0;
}

pub data Reach (hc n : ℕ) : System → Type 0 where
  new : Reach hc n (start n)
  step : {s t : System} → Reach hc n s → Step hc s t → Reach hc n t
