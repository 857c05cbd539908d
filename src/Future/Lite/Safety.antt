-- ===== src/Future/Lite/Safety.antt =====
-- What a promise and its future promise their users, whatever the interleaving.
use sweater.Prelude.{ℕ, ◌+◌, ◌<◌, ◌≤◌, ◌≡◌, refl, ◌≢◌, min, arith, true, false, none, some}
use sweater.Future.Lite.{
  value, thrown, moved_from, Consumer, Purpose, waiting, waited, got, got_moved_from, System, Reach,
}
use sweater.Future.Lite.Invariant.{
  Reach-Inv, value_of, producer_owns, producer_deletes, consumer_owns, consumer_deletes,
  tokens_given,
}

-- How many of the two threads may still touch the slot.
abbrev pub users : {A E : Type 0} → System A E → ℕ
users s =
    producer_owns s.producer
    + producer_deletes s.producer
    + (consumer_owns s.consumer + consumer_deletes s.consumer)

-- What get() has come back with.
abbrev pub Returns : {A E : Type 0} → System A E → Consumer A E → Type 0
Returns s (got (value a)) =
    (s.given ≡ some (value a)) × (s.slot.storage_ ≡ moved_from) × (s.values_moved ≡ 1)
Returns s (got (thrown e)) = (s.given ≡ some (thrown e)) × (s.values_moved ≡ 0)
Returns s got_moved_from = (value_of s.given ≡ true) × (s.values_moved ≡ 1)
Returns s _ = s.values_moved ≤ 1

module _ {A E : Type 0} {broken : E} {s : System A E} (r : Reach broken s) where
  -- At every point of every interleaving the slot was deleted once if neither the promise's thread
  -- nor the future's can touch it any more, and not at all before: it is neither used after it was
  -- deleted, nor deleted twice, nor left.
  pub deleted_after_last_use : s.slot.deletes + min 1 (users s) ≡ 1
  deleted_after_last_use = let inv = Reach-Inv r in ground arith

  got-given_lem : (c : Consumer A E) → s.consumer ≡ c → Returns s c
  got-given_lem c e = let inv = Reach-Inv r in ground arith

  -- Whenever get() returns or throws, in any order of gets: it throws exactly the exception that the
  -- promise was given, broken_promise if it was dropped; it returns the value that the promise was
  -- given if no get() has moved it out before, and this one has moved it out, the only one to do so;
  -- and it returns a value that was moved from if the promise was given a value and an earlier get()
  -- has moved it out.
  pub got-given : Returns s s.consumer
  got-given = got-given_lem s.consumer refl

  -- Past its wait, the future's thread finds the result in place: the promise was given one, and
  -- completed_ is set.
  waited_for_result :
      (p : Purpose) → s.consumer ≡ waited p → (s.given ≢ none) × (s.slot.completed_ ≡ true)
  waited_for_result p e = let inv = Reach-Inv r in ground arith

  -- A wait is not left behind: once the promise's thread has signaled, a first wait has a token.
  wait_has_token :
      (p : Purpose)
      → s.consumer ≡ waiting p
      → s.slot.waited_ ≡ false
      → tokens_given s.producer ≡ 1
      → 0 < s.slot.completion_
  wait_has_token p e h k = let inv = Reach-Inv r in ground arith
