-- ===== src/Future/Lite/Invariant.antt =====
-- What holds of a slot and its two threads at every step.
use sweater.Prelude.{
  ℕ, ◌+◌, ◌≡◌, ◌⊎◌, min, to_int, refl, arith, Bool, true, false, Option, none, some,
}
use sweater.Future.Lite.{
  Outcome, value, thrown, Storage, empty, holds, moved_from, Producer, ready, stored, placed,
  completing, Consumer, idle, waiting, taken, got, got_moved_from, System, Step, store_value,
  flag_value, store_exception, abandon, complete, signal, signaled, drop, release_promise,
  release_promise_last, delete_by_promise, wait, waited_before, take, mark_waited, wait_end,
  get_exception, get_value, get_moved_from, get_end, get_moved_from_end, release_future,
  release_future_last, delete_by_future, Reach, new, step,
}

-- Who counts in owners_, and who is about to delete the slot.
abbrev pub producer_owns : Producer → ℕ
producer_owns Producer.deleting = 0
producer_owns Producer.gone = 0
producer_owns _ = 1

abbrev pub producer_deletes : Producer → ℕ
producer_deletes Producer.deleting = 1
producer_deletes _ = 0

abbrev pub consumer_owns : {A E : Type 0} → Consumer A E → ℕ
consumer_owns Consumer.deleting = 0
consumer_owns Consumer.gone = 0
consumer_owns _ = 1

abbrev pub consumer_deletes : {A E : Type 0} → Consumer A E → ℕ
consumer_deletes Consumer.deleting = 1
consumer_deletes _ = 0

-- The tokens that the promise's thread gave, and the one that the future's thread holds.
abbrev pub tokens_given : Producer → ℕ
tokens_given ready = 0
tokens_given stored = 0
tokens_given placed = 0
tokens_given completing = 0
tokens_given _ = 1

abbrev pub holds_token : {A E : Type 0} → Consumer A E → ℕ
holds_token (taken p) = 1
holds_token _ = 0

-- How far the promise's thread is: whether the result is in place, and the flag set.
abbrev Progress : {A E : Type 0} → Producer → Option (Outcome A E) → (completed_ : Bool) → Type 0
Progress ready none completed_ = completed_ ≡ false
Progress ready (some r) completed_ = true ≡ false
Progress _ none completed_ = true ≡ false
Progress stored (some r) completed_ = completed_ ≡ false
Progress placed (some r) completed_ = completed_ ≡ false
Progress _ (some r) completed_ = completed_ ≡ true

-- The slot holds the result that was given.
abbrev pub Content : {A E : Type 0} → Option (Outcome A E) → Option E → Storage A → Type 0
Content none exception_ storage_ = (exception_ ≡ none) × (storage_ ≡ empty)
Content (some (thrown e)) exception_ storage_ = (exception_ ≡ some e) × (storage_ ≡ empty)
Content (some (value a)) exception_ storage_ =
    (exception_ ≡ none) × ((storage_ ≡ holds a) ⊎ (storage_ ≡ moved_from))

-- How often the slot's value was moved out.
abbrev moves : {A : Type 0} → Storage A → ℕ
moves moved_from = 1
moves _ = 0

-- A get() that returned a value moved it out of the slot.
abbrev pub Left : {A E : Type 0} → Outcome A E → Storage A → Type 0
Left (value a) storage_ = storage_ ≡ moved_from
Left (thrown e) storage_ = Unit

-- Whether the promise was given a value.
abbrev pub value_of : {A E : Type 0} → Option (Outcome A E) → Bool
value_of (some (value a)) = true
value_of _ = false

-- What the future's thread knows where it stands.
abbrev pub Knows : {A E : Type 0} → System A E → Consumer A E → Type 0
Knows s idle = Unit
Knows s (waiting p) = Unit
Knows s (taken p) = s.slot.waited_ ≡ false
Knows s (got r) = (s.slot.waited_ ≡ true) × (s.given ≡ some r) × Left r s.slot.storage_
Knows s got_moved_from =
    (s.slot.waited_ ≡ true) × (value_of s.given ≡ true) × (s.slot.storage_ ≡ moved_from)
Knows s _ = s.slot.waited_ ≡ true

pub record Inv {A E : Type 0} (s : System A E) : Type 0 where
  pub owned : s.slot.owners_ ≡ producer_owns s.producer + consumer_owns s.consumer
  pub deleted :
      s.slot.deletes
        + producer_deletes s.producer
        + consumer_deletes s.consumer
        + min s.slot.owners_ 1
      ≡ 1
  pub tokens :
      s.slot.completion_ + to_int s.slot.waited_ + holds_token s.consumer ≡ tokens_given s.producer
  pub progress : Progress s.producer s.given s.slot.completed_
  pub content : Content s.given s.slot.exception_ s.slot.storage_
  pub known : Knows s s.consumer
  pub moved : s.values_moved ≡ moves s.slot.storage_

module _ {A E : Type 0} {broken : E} where
  -- Every step keeps the invariant.
  Step-Inv : {s t : System A E} → Step broken s t → Inv s → Inv t
  Step-Inv (store_value a e) inv = ground arith
  Step-Inv (flag_value e) inv = ground arith
  Step-Inv (store_exception x e) inv = ground arith
  Step-Inv (abandon e h) inv = ground arith
  Step-Inv (complete e) inv = ground arith
  Step-Inv (signal e) inv = ground arith
  Step-Inv (signaled e) inv = ground arith
  Step-Inv (drop e h) inv = ground arith
  Step-Inv (release_promise e h) inv = ground arith
  Step-Inv (release_promise_last e h) inv = ground arith
  Step-Inv (delete_by_promise e) inv = ground arith
  Step-Inv (wait p e) inv = ground arith
  Step-Inv (waited_before e h) inv = ground arith
  Step-Inv (take e h k) inv = ground arith
  Step-Inv (mark_waited e) inv = ground arith
  Step-Inv (wait_end e) inv = ground arith
  Step-Inv (get_exception e h) inv = ground arith
  Step-Inv (get_value e h k) inv = ground arith
  Step-Inv (get_moved_from e h k) inv = ground arith
  Step-Inv (get_end e) inv = ground arith
  Step-Inv (get_moved_from_end e) inv = ground arith
  Step-Inv (release_future e h) inv = ground arith
  Step-Inv (release_future_last e h) inv = ground arith
  Step-Inv (delete_by_future e) inv = ground arith

  pub Reach-Inv : {s : System A E} → Reach broken s → Inv s
  Reach-Inv new = record {
    owned = refl;
    deleted = refl;
    tokens = refl;
    progress = refl;
    content = (refl, refl);
    known = tt;
    moved = refl;
  }
  Reach-Inv (step r st) = Step-Inv st (Reach-Inv r)
