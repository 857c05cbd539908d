-- ===== src/Future/Lite.antt =====
-- threading/future.hpp, a shared access at a time: the thread with the promise, the thread with the
-- future, and the slot that they share. `broken` is std::make_exception_ptr( broken_promise{} ). The
-- semaphore is by its contract: a wait takes a token that a signal gave.
pub mod Invariant
pub mod Safety
use sweater.Prelude.{ℕ, ◌+◌, ◌-◌, ◌%◌, ◌<◌, ◌≡◌, ◌≢◌, Bool, true, false, Option, none, some}

-- What a future is completed with.
pub data Outcome (A E : Type 0) : Type 0 where
  value : A → Outcome A E
  thrown : E → Outcome A E

-- What is in storage_: nothing, a T, or a T that was moved from.
pub data Storage (A : Type 0) : Type 0 where
  empty : Storage A
  holds : A → Storage A
  moved_from : Storage A

-- class future_state, with the number of times that it was deleted.
pub record Slot (A E : Type 0) : Type 0 where
  pub completion_ : ℕ
  pub exception_ : Option E
  pub storage_ : Storage A
  pub owners_ : ℕ
  pub has_value_ : Bool
  pub completed_ : Bool
  pub waited_ : Bool
  pub deletes : ℕ

-- The promise's thread: before it completes; in set_value with the value stored; with the result in
-- place; before the signal; inside it, with the token given; back; in release(); about to delete
-- the slot; without it.
pub data Producer : Type 0 where
  ready : Producer
  stored : Producer
  placed : Producer
  completing : Producer
  signaling : Producer
  done : Producer
  releasing : Producer
  deleting : Producer
  gone : Producer

-- Why the future's thread waits: wait(), get(), or release().
pub data Purpose : Type 0 where
  for_wait : Purpose
  for_get : Purpose
  for_release : Purpose

-- The future's thread: outside; in wait() at its test; with the token; after it; back from get()
-- with a result, or with a value that an earlier get() had moved from; about to delete the slot;
-- without it.
pub data Consumer (A E : Type 0) : Type 0 where
  idle : Consumer A E
  waiting : Purpose → Consumer A E
  taken : Purpose → Consumer A E
  waited : Purpose → Consumer A E
  got : Outcome A E → Consumer A E
  got_moved_from : Consumer A E
  deleting : Consumer A E
  gone : Consumer A E

-- The two threads and the slot, with the result that the promise was given, and how often a get()
-- found a value in the slot, and moved it out.
pub record System (A E : Type 0) : Type 0 where
  pub slot : Slot A E
  pub producer : Producer
  pub consumer : Consumer A E
  pub given : Option (Outcome A E)
  pub values_moved : ℕ

-- owners_.fetch_sub( 1 ), in a std::uint8_t
abbrev pub decremented : ℕ → ℕ
decremented owners = (owners + 255) % 256

module _ {A E : Type 0} (broken : E) where
  pub data Step (s : System A E) : System A E → Type 0 where
    -- promise::set_value and run
    store_value :
        (a : A)
        → s.producer ≡ ready
        → Step s (record s {
          slot = record s.slot { storage_ = holds a };
          producer = stored;
          given = some (value a);
        })
    flag_value :
        s.producer ≡ stored
        → Step s (record s { slot = record s.slot { has_value_ = true }; producer = placed })
    -- promise::set_exception and run
    store_exception :
        (e : E)
        → s.producer ≡ ready
        → Step s (record s {
          slot = record s.slot { exception_ = some e };
          producer = placed;
          given = some (thrown e);
        })
    -- promise::abandon, without a result
    abandon :
        s.producer ≡ ready
        → s.slot.completed_ ≡ false
        → Step s (record s {
          slot = record s.slot { exception_ = some broken };
          producer = placed;
          given = some (thrown broken);
        })
    complete :
        s.producer ≡ placed
        → Step s (record s { slot = record s.slot { completed_ = true }; producer = completing })
    signal :
        s.producer ≡ completing
        → Step s (record s {
          slot = record s.slot { completion_ = s.slot.completion_ + 1 };
          producer = signaling;
        })
    signaled : s.producer ≡ signaling → Step s (record s { producer = done })
    -- promise::abandon, with a result
    drop : s.producer ≡ done → s.slot.completed_ ≡ true → Step s (record s { producer = releasing })
    release_promise :
        s.producer ≡ releasing
        → s.slot.owners_ ≢ 1
        → Step s (record s {
          slot = record s.slot { owners_ = decremented s.slot.owners_ };
          producer = gone;
        })
    release_promise_last :
        s.producer ≡ releasing
        → s.slot.owners_ ≡ 1
        → Step s (record s {
          slot = record s.slot { owners_ = decremented s.slot.owners_ };
          producer = deleting;
        })
    delete_by_promise :
        s.producer ≡ deleting
        → Step s
            (record s { slot = record s.slot { deletes = s.slot.deletes + 1 }; producer = gone })
    -- future::wait, get and release
    wait : (p : Purpose) → s.consumer ≡ idle → Step s (record s { consumer = waiting p })
    waited_before :
        {p : Purpose}
        → s.consumer ≡ waiting p
        → s.slot.waited_ ≡ true
        → Step s (record s { consumer = waited p })
    take :
        {p : Purpose}
        → s.consumer ≡ waiting p
        → s.slot.waited_ ≡ false
        → 0 < s.slot.completion_
        → Step s (record s {
          slot = record s.slot { completion_ = s.slot.completion_ - 1 };
          consumer = taken p;
        })
    mark_waited :
        {p : Purpose}
        → s.consumer ≡ taken p
        → Step s (record s { slot = record s.slot { waited_ = true }; consumer = waited p })
    wait_end : s.consumer ≡ waited for_wait → Step s (record s { consumer = idle })
    get_exception :
        {e : E}
        → s.consumer ≡ waited for_get
        → s.slot.exception_ ≡ some e
        → Step s (record s { consumer = got (thrown e) })
    get_value :
        {a : A}
        → s.consumer ≡ waited for_get
        → s.slot.exception_ ≡ none
        → s.slot.storage_ ≡ holds a
        → Step s (record s {
          slot = record s.slot { storage_ = moved_from };
          consumer = got (value a);
          values_moved = s.values_moved + 1;
        })
    get_moved_from :
        s.consumer ≡ waited for_get
        → s.slot.exception_ ≡ none
        → s.slot.storage_ ≡ moved_from
        → Step s (record s { consumer = got_moved_from })
    get_end : {r : Outcome A E} → s.consumer ≡ got r → Step s (record s { consumer = idle })
    get_moved_from_end : s.consumer ≡ got_moved_from → Step s (record s { consumer = idle })
    release_future :
        s.consumer ≡ waited for_release
        → s.slot.owners_ ≢ 1
        → Step s (record s {
          slot = record s.slot { owners_ = decremented s.slot.owners_ };
          consumer = gone;
        })
    release_future_last :
        s.consumer ≡ waited for_release
        → s.slot.owners_ ≡ 1
        → Step s (record s {
          slot = record s.slot { owners_ = decremented s.slot.owners_ };
          consumer = deleting;
        })
    delete_by_future :
        s.consumer ≡ deleting
        → Step s
            (record s { slot = record s.slot { deletes = s.slot.deletes + 1 }; consumer = gone })

  -- make_promise_future
  abbrev pub make : System A E
  make = record {
    slot = record {
      completion_ = 0;
      exception_ = none;
      storage_ = empty;
      owners_ = 2;
      has_value_ = false;
      completed_ = false;
      waited_ = false;
      deletes = 0;
    };
    producer = ready;
    consumer = idle;
    given = none;
    values_moved = 0;
  }

  pub data Reach : System A E → Type 0 where
    new : Reach make
    step : {s t : System A E} → Reach s → Step s t → Reach t
