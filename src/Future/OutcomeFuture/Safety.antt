-- ===== src/Future/OutcomeFuture/Safety.antt =====
-- What an outcome_promise and its outcome_future promise their users, whatever the interleaving.
use sweater.Prelude.{
  ℕ, ◌+◌, ◌≡◌, ◌⊎◌, min, to_int, refl, arith, Bool, true, false, Option, none, some,
}
use sweater.Future.Lite.{
  Outcome, Storage, holds, moved_from, Producer, ready, stored, placed, Purpose, Consumer, idle,
  waiting, taken, waited, got,
}
use sweater.Future.Lite.Invariant.{
  producer_owns, producer_deletes, consumer_owns, consumer_deletes, tokens_given, holds_token,
}
use sweater.Future.OutcomeFuture.{
  System, Step, Reach, new, step, store, abandon, complete, signal, signaled, drop, release_promise,
  release_promise_last, delete_by_promise, wait, waited_before, take, mark_waited, wait_end, get,
  get_moved_from, get_end, get_moved_from_end, release_future, release_future_last,
  delete_by_future,
}

-- How far the promise's thread is: what was given, what is in place, and whether the flag is set.
abbrev Progress :
    {A E : Type 0} → Producer → Option (Outcome A E) → Storage (Outcome A E) → Bool → Type 0
Progress ready none storage_ completed_ = completed_ ≡ false
Progress ready (some o) storage_ completed_ = true ≡ false
Progress stored given storage_ completed_ = true ≡ false
Progress _ none storage_ completed_ = true ≡ false
Progress placed (some o) storage_ completed_ =
    ((storage_ ≡ holds o) ⊎ (storage_ ≡ moved_from)) × (completed_ ≡ false)
Progress _ (some o) storage_ completed_ =
    ((storage_ ≡ holds o) ⊎ (storage_ ≡ moved_from)) × (completed_ ≡ true)

-- What the future's thread knows where it stands.
abbrev Knows : {A E : Type 0} → System A E → Consumer A E → Type 0
Knows s idle = Unit
Knows s (waiting p) = Unit
Knows s (taken p) = s.slot.waited_ ≡ false
Knows s (got o) = (s.slot.waited_ ≡ true) × (s.given ≡ some o) × (s.slot.storage_ ≡ moved_from)
Knows s _ = s.slot.waited_ ≡ true

record Inv {A E : Type 0} (s : System A E) : Type 0 where
  owned : s.slot.owners_ ≡ producer_owns s.producer + consumer_owns s.consumer
  deleted :
      s.slot.deletes
        + producer_deletes s.producer
        + consumer_deletes s.consumer
        + min s.slot.owners_ 1
      ≡ 1
  tokens :
      s.slot.completion_ + to_int s.slot.waited_ + holds_token s.consumer ≡ tokens_given s.producer
  progress : Progress s.producer s.given s.slot.storage_ s.slot.completed_
  known : Knows s s.consumer

module _ {A E : Type 0} {broken : E} where
  -- Every step keeps the invariant.
  Step-Inv : {s t : System A E} → Step broken s t → Inv s → Inv t
  Step-Inv (store o e) inv = ground arith
  Step-Inv (abandon e h) inv = ground arith
  Step-Inv (complete e) inv = ground arith
  Step-Inv (signal e) inv = ground arith
  Step-Inv (signaled e) inv = ground arith
  Step-Inv (drop e h) inv = ground arith
  Step-Inv (release_promise e h) inv = ground arith
  Step-Inv (release_promise_last e h) inv = ground arith
  Step-Inv (delete_by_promise e) inv = ground arith
  Step-Inv (wait p e) inv = ground arith
  Step-Inv (waited_before e h) inv = ground arith
  Step-Inv (take e h k) inv = ground arith
  Step-Inv (mark_waited e) inv = ground arith
  Step-Inv (wait_end e) inv = ground arith
  Step-Inv (get e h) inv = ground arith
  Step-Inv (get_moved_from e h) inv = ground arith
  Step-Inv (get_end e) inv = ground arith
  Step-Inv (get_moved_from_end e) inv = ground arith
  Step-Inv (release_future e h) inv = ground arith
  Step-Inv (release_future_last e h) inv = ground arith
  Step-Inv (delete_by_future e) inv = ground arith

  Reach-Inv : {s : System A E} → Reach broken s → Inv s
  Reach-Inv new = record {
    owned = refl;
    deleted = refl;
    tokens = refl;
    progress = refl;
    known = tt;
  }
  Reach-Inv (step r st) = Step-Inv st (Reach-Inv r)

-- How many of the two threads may still touch the slot.
abbrev pub outcome_users : {A E : Type 0} → System A E → ℕ
outcome_users s =
    producer_owns s.producer
    + producer_deletes s.producer
    + (consumer_owns s.consumer + consumer_deletes s.consumer)

module _ {A E : Type 0} {broken : E} {s : System A E} (r : Reach broken s) where
  -- At every point of every interleaving the slot was deleted once if neither thread can touch it
  -- any more, and not at all before.
  pub outcome_deleted_after_last_use : s.slot.deletes + min 1 (outcome_users s) ≡ 1
  outcome_deleted_after_last_use = let inv = Reach-Inv r in ground arith

  -- Past its wait, the future's thread finds the promise completed; and an outcome that get()
  -- returns is the one that the promise was given, or broken_promise if it was dropped, and was
  -- moved out of the slot.
  outcome_got-given :
      ((p : Purpose) → s.consumer ≡ waited p → s.slot.completed_ ≡ true)
      × ((o : Outcome A E)
          → s.consumer ≡ got o
          → (s.given ≡ some o) × (s.slot.storage_ ≡ moved_from))
  outcome_got-given = let inv = Reach-Inv r in (λ p e. ground arith, λ o e. ground arith)
