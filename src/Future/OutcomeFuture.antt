-- ===== src/Future/OutcomeFuture.antt =====
-- threading/outcome_future.hpp, a shared access at a time, with the threads of Future.Lite: the slot
-- holds an outcome, which is a value or an exception. `broken` is as there.
pub mod Safety
use sweater.Prelude.{ℕ, ◌+◌, ◌-◌, ◌<◌, ◌≡◌, ◌≢◌, Bool, true, false, Option, none, some}
use sweater.Future.Lite.{
  Outcome, value, thrown, Storage, empty, holds, moved_from, Producer, ready, placed, completing,
  signaling, done, releasing, Purpose, for_wait, for_get, for_release, Consumer, idle, waiting,
  taken, waited, got, got_moved_from, decremented,
}

-- class outcome_state, with the number of times that it was deleted.
pub record Slot (A E : Type 0) : Type 0 where
  pub completion_ : ℕ
  pub storage_ : Storage (Outcome A E)
  pub owners_ : ℕ
  pub completed_ : Bool
  pub waited_ : Bool
  pub deletes : ℕ

-- The two threads and the slot, with the result that the promise was given.
pub record System (A E : Type 0) : Type 0 where
  pub slot : Slot A E
  pub producer : Producer
  pub consumer : Consumer A E
  pub given : Option (Outcome A E)

module _ {A E : Type 0} (broken : E) where
  pub data Step (s : System A E) : System A E → Type 0 where
    -- outcome_promise::set_value, set_exception and run
    store :
        (o : Outcome A E)
        → s.producer ≡ ready
        → Step s (record s {
          slot = record s.slot { storage_ = holds o };
          producer = placed;
          given = some o;
        })
    -- outcome_promise::abandon, without a result
    abandon :
        s.producer ≡ ready
        → s.slot.completed_ ≡ false
        → Step s (record s {
          slot = record s.slot { storage_ = holds (thrown broken) };
          producer = placed;
          given = some (thrown broken);
        })
    complete :
        s.producer ≡ placed
        → Step s (record s { slot = record s.slot { completed_ = true }; producer = completing })
    signal :
        s.producer ≡ completing
        → Step s (record s {
          slot = record s.slot { completion_ = s.slot.completion_ + 1 };
          producer = signaling;
        })
    signaled : s.producer ≡ signaling → Step s (record s { producer = done })
    -- outcome_promise::abandon, with a result
    drop : s.producer ≡ done → s.slot.completed_ ≡ true → Step s (record s { producer = releasing })
    release_promise :
        s.producer ≡ releasing
        → s.slot.owners_ ≢ 1
        → Step s (record s {
          slot = record s.slot { owners_ = decremented s.slot.owners_ };
          producer = Producer.gone;
        })
    release_promise_last :
        s.producer ≡ releasing
        → s.slot.owners_ ≡ 1
        → Step s (record s {
          slot = record s.slot { owners_ = decremented s.slot.owners_ };
          producer = Producer.deleting;
        })
    delete_by_promise :
        s.producer ≡ Producer.deleting
        → Step s (record s {
          slot = record s.slot { deletes = s.slot.deletes + 1 };
          producer = Producer.gone;
        })
    -- outcome_future::wait, get and release
    wait : (p : Purpose) → s.consumer ≡ idle → Step s (record s { consumer = waiting p })
    waited_before :
        {p : Purpose}
        → s.consumer ≡ waiting p
        → s.slot.waited_ ≡ true
        → Step s (record s { consumer = waited p })
    take :
        {p : Purpose}
        → s.consumer ≡ waiting p
        → s.slot.waited_ ≡ false
        → 0 < s.slot.completion_
        → Step s (record s {
          slot = record s.slot { completion_ = s.slot.completion_ - 1 };
          consumer = taken p;
        })
    mark_waited :
        {p : Purpose}
        → s.consumer ≡ taken p
        → Step s (record s { slot = record s.slot { waited_ = true }; consumer = waited p })
    wait_end : s.consumer ≡ waited for_wait → Step s (record s { consumer = idle })
    get :
        {o : Outcome A E}
        → s.consumer ≡ waited for_get
        → s.slot.storage_ ≡ holds o
        → Step s (record s { slot = record s.slot { storage_ = moved_from }; consumer = got o })
    get_moved_from :
        s.consumer ≡ waited for_get
        → s.slot.storage_ ≡ moved_from
        → Step s (record s { consumer = got_moved_from })
    get_end : {r : Outcome A E} → s.consumer ≡ got r → Step s (record s { consumer = idle })
    get_moved_from_end : s.consumer ≡ got_moved_from → Step s (record s { consumer = idle })
    release_future :
        s.consumer ≡ waited for_release
        → s.slot.owners_ ≢ 1
        → Step s (record s {
          slot = record s.slot { owners_ = decremented s.slot.owners_ };
          consumer = Consumer.gone;
        })
    release_future_last :
        s.consumer ≡ waited for_release
        → s.slot.owners_ ≡ 1
        → Step s (record s {
          slot = record s.slot { owners_ = decremented s.slot.owners_ };
          consumer = Consumer.deleting;
        })
    delete_by_future :
        s.consumer ≡ Consumer.deleting
        → Step s (record s {
          slot = record s.slot { deletes = s.slot.deletes + 1 };
          consumer = Consumer.gone;
        })

  -- make_outcome_promise_future
  abbrev pub make : System A E
  make = record {
    slot = record {
      completion_ = 0;
      storage_ = empty;
      owners_ = 2;
      completed_ = false;
      waited_ = false;
      deletes = 0;
    };
    producer = ready;
    consumer = idle;
    given = none;
  }

  pub data Reach : System A E → Type 0 where
    new : Reach make
    step : {s t : System A E} → Reach s → Step s t → Reach t
