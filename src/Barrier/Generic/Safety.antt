-- ===== src/Barrier/Generic/Safety.antt =====
-- What generic_barrier promises its owner, whatever the interleaving.
use sweater.Prelude.{
  mod_pred, ℕ, ◌+◌, ◌≤◌, ◌<◌, ◌≡◌, ◌⊎◌, refl, Bool, true, false, to_int, List, some, get_elem?, set,
  arith,
}
use sweater.Threads.{weigh, le-weigh, weigh-set, weigh-replicate, weigh_add, weigh_mono}
use sweater.Barrier.Generic.{
  Worker, idle, working, locked, notifying, unlocking, Owner, fresh, preparing, wait_locking,
  testing, parking, parked, wait_unlocking, spinning, yielding, joined, Barrier, Step,
  use_spin_wait, no_choice, initialize, add_expected_arrival, hand_out, wait, wait_lock, test_done,
  test_again, park, spurious, wait_unlock, spin_wait, spin_done, spin_again, spun, yield_done,
  again, arrive_spinning, arrive_lock, arrive, arrive_last, notify_one, notify_nobody,
  arrive_unlock, Reach, new, step,
}

-- Has a part and has not arrived.
abbrev pub has_part : Worker → ℕ
has_part working = 1
has_part locked = 1
has_part _ = 0

abbrev pub is_notifying : Worker → ℕ
is_notifying notifying = 1
is_notifying _ = 0

-- In arrive(), with the mutex.
abbrev pub holds : Worker → ℕ
holds locked = 1
holds notifying = 1
holds unlocking = 1
holds _ = 0

-- Has still to touch the barrier.
abbrev pub is_busy : Worker → ℕ
is_busy idle = 0
is_busy _ = 1

abbrev busy_or : Worker → ℕ
busy_or p = has_part p + holds p

abbrev owner_holds : Owner → ℕ
owner_holds testing = 1
owner_holds parking = 1
owner_holds wait_unlocking = 1
owner_holds _ = 0

-- Arrivals expected whose parts are not handed out.
abbrev announced : Owner → ℕ
announced (preparing k) = k
announced _ = 0

-- What the owner knows where it stands.
abbrev Knows : Barrier → Owner → Type 0
Knows s fresh = (s.counter_ ≡ 0) × (weigh holds s.workers ≡ 0)
Knows s (preparing k) = (s.spin_wait_ ≡ false) ⊎ (weigh holds s.workers ≡ 0)
Knows s wait_locking = s.spin_wait_ ≡ false
Knows s testing = s.spin_wait_ ≡ false
Knows s parking = (s.spin_wait_ ≡ false) × (0 < s.counter_)
Knows s parked = (s.spin_wait_ ≡ false) × (0 < s.counter_ + weigh is_notifying s.workers)
Knows s wait_unlocking = (s.spin_wait_ ≡ false) × (s.counter_ ≡ 0)
Knows s (spinning n k) = (s.spin_wait_ ≡ true) × (weigh holds s.workers ≡ 0)
Knows s yielding = (s.spin_wait_ ≡ true) × (weigh holds s.workers ≡ 0)
Knows s (joined b) = (s.counter_ ≡ 0) × (weigh holds s.workers ≡ 0)

record Inv (hc : ℕ) (s : Barrier) : Type 0 where
  range : s.counter_ < hc
  counted : s.counter_ ≡ weigh has_part s.workers + announced s.owner
  exclusive : to_int s.mutex_ ≡ weigh holds s.workers + owner_holds s.owner
  known : Knows s s.owner

record Recount (p q : Worker) (ps qs : List Worker) : Type 0 where
  parts : weigh has_part qs + has_part p ≡ weigh has_part ps + has_part q
  notifies : weigh is_notifying qs + is_notifying p ≡ weigh is_notifying ps + is_notifying q
  member : has_part p ≤ weigh has_part ps
  member_holds : holds p ≤ weigh holds ps
  held : weigh holds qs + holds p ≡ weigh holds ps + holds q

recount :
    (ps : List Worker) (i : ℕ) (p q : Worker)
    → get_elem? ps i ≡ some p
    → Recount p q ps (set ps i q)
recount ps i p q e = record {
  parts = weigh-set has_part ps i p q e;
  notifies = weigh-set is_notifying ps i p q e;
  member = le-weigh has_part ps i p e;
  member_holds = le-weigh holds ps i p e;
  held = weigh-set holds ps i p q e;
}

Step-Inv : {hc : ℕ} {s t : Barrier} → Step hc s t → Inv hc s → Inv hc t
Step-Inv (use_spin_wait value e) inv = ground arith
Step-Inv (no_choice e) inv = ground arith
Step-Inv (initialize v l e h) inv = ground arith
Step-Inv (add_expected_arrival e h) inv = ground arith
Step-Inv {s} (hand_out i e f) inv = let c = recount s.workers i idle working f in ground arith
Step-Inv (wait e h) inv = ground arith
Step-Inv (wait_lock e h) inv = ground arith
Step-Inv (test_done e h) inv = ground arith
Step-Inv (test_again e h) inv = ground arith
Step-Inv (park e) inv = ground arith
Step-Inv (spurious e) inv = ground arith
Step-Inv (wait_unlock e) inv = ground arith
Step-Inv (spin_wait n e h) inv = ground arith
Step-Inv (spin_done e h) inv = ground arith
Step-Inv (spin_again e h) inv = ground arith
Step-Inv (spun e) inv = ground arith
Step-Inv (yield_done e h) inv = ground arith
Step-Inv (again e) inv = ground arith
Step-Inv {hc} {s} (arrive_spinning i f h) inv =
    let c = recount s.workers i working idle f in
    let less = mod_pred s.counter_ hc (ground arith) inv.range in ground arith
Step-Inv {s} (arrive_lock i f h k) inv =
    let c = recount s.workers i working locked f in ground arith
Step-Inv {hc} {s} (arrive i f h) inv =
    let c = recount s.workers i locked unlocking f in
    let less = mod_pred s.counter_ hc (ground arith) inv.range in ground arith
Step-Inv {hc} {s} (arrive_last i f h) inv =
    let c = recount s.workers i locked notifying f in
    let less = mod_pred s.counter_ hc (ground arith) inv.range in ground arith
Step-Inv {s} (notify_one i f e) inv =
    let c = recount s.workers i notifying unlocking f in ground arith
Step-Inv {s} (notify_nobody i f e) inv =
    let c = recount s.workers i notifying unlocking f in ground arith
Step-Inv {s} (arrive_unlock i f) inv = let c = recount s.workers i unlocking idle f in ground arith

Reach-Inv : {hc n : ℕ} {s : Barrier} → 0 < hc → Reach hc n s → Inv hc s
Reach-Inv {n} some_value new = record {
  range = some_value;
  counted = omega (arith, weigh-replicate has_part n idle refl);
  exclusive = omega (arith, weigh-replicate holds n idle refl);
  known = (refl, weigh-replicate holds n idle refl);
}
Reach-Inv some_value (step r st) = Step-Inv st (Reach-Inv some_value r)

-- In every interleaving, once the owner is back from wait() or spin_wait(), every part that was
-- handed out has arrived and no thread is inside arrive(): the barrier may be destroyed.
pub joined_after_everyone_left :
    {hc n : ℕ} {s : Barrier} {stalled : Bool}
    → 0 < hc
    → Reach hc n s
    → s.owner ≡ joined stalled
    → weigh is_busy s.workers ≡ 0
joined_after_everyone_left {s} some_value r e =
    let inv = Reach-Inv some_value r in
    let split = weigh_add busy_or has_part holds s.workers (λ p. ground arith) in
    let less = weigh_mono is_busy busy_or s.workers (λ p. ground arith) in ground arith

-- No notification is lost: while the owner is parked, some thread still has a part, or is about to
-- notify the owner.
pub parked_only_for_arrivals :
    {hc n : ℕ} {s : Barrier}
    → 0 < hc
    → Reach hc n s
    → s.owner ≡ parked
    → 0 < weigh has_part s.workers + weigh is_notifying s.workers
parked_only_for_arrivals some_value r e = let inv = Reach-Inv some_value r in ground arith
