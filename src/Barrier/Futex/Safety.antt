-- ===== src/Barrier/Futex/Safety.antt =====
-- What futex_barrier promises its owner, whatever the interleaving.
use sweater.Prelude.{
  ℕ, ◌+◌, ◌%◌, ◌≤◌, ◌<◌, ◌≡◌, ◌^◌, refl, Bool, false, List, some, get_elem?, set, arith,
}
use native.Mathlib.Nat.{mod-eq_of_lt}
use sweater.Threads.{weigh, weigh-set, weigh-replicate}
use sweater.Barrier.Futex.{
  Worker, idle, working, waking, Owner, preparing, wait_loading, wait_loaded, parked, joined,
  Barrier, Step, use_spin_wait, no_choice, initialize, add_expected_arrival, hand_out, wait,
  wait_load, wait_done, park, no_park, spurious, spin_wait, spin_done, spin_again, spun, yield_done,
  again, arrive_spinning, arrive, arrive_last, wake_one, wake_nobody, Reach, new, step,
}

abbrev pub has_part : Worker → ℕ
has_part working = 1
has_part _ = 0

abbrev pub is_waking : Worker → ℕ
is_waking waking = 1
is_waking _ = 0

-- Arrivals expected whose parts are not handed out.
abbrev pub announced : Owner → ℕ
announced (preparing k) = k
announced _ = 0

-- What the owner knows where it stands.
abbrev pub Knows : Barrier → Owner → Type 0
Knows s parked = (s.spin_wait_ ≡ false) × (0 < s.counter_ + weigh is_waking s.workers)
Knows s wait_loading = s.spin_wait_ ≡ false
Knows s (wait_loaded v) = (s.spin_wait_ ≡ false) × (s.counter_ ≤ v)
Knows s (joined b) = s.counter_ ≡ 0
Knows s _ = Unit

pub record Inv (limit : ℕ) (s : Barrier) : Type 0 where
  pub range : s.counter_ ≤ limit
  pub counted : s.counter_ ≡ weigh has_part s.workers + announced s.owner
  pub known : Knows s s.owner

record Recount (p q : Worker) (ps qs : List Worker) : Type 0 where
  parts : weigh has_part qs + has_part p ≡ weigh has_part ps + has_part q
  wakes : weigh is_waking qs + is_waking p ≡ weigh is_waking ps + is_waking q

recount :
    (ps : List Worker) (i : ℕ) (p q : Worker)
    → get_elem? ps i ≡ some p
    → Recount p q ps (set ps i q)
recount ps i p q e = record {
  parts = weigh-set has_part ps i p q e;
  wakes = weigh-set is_waking ps i p q e;
}

Step-Inv :
    {hc limit : ℕ} {s t : Barrier}
    → limit < hc
    → limit < 2 ^ 32
    → Step hc limit s t
    → Inv limit s
    → Inv limit t
Step-Inv few fits (use_spin_wait value e) inv = ground arith
Step-Inv few fits (no_choice e) inv = ground arith
Step-Inv few fits (initialize v l e h) inv = ground arith
Step-Inv few fits (add_expected_arrival e h) inv = ground arith
Step-Inv {s} few fits (hand_out i e f) inv =
    let c = recount s.workers i idle working f in ground arith
Step-Inv few fits (wait e h) inv = ground arith
Step-Inv few fits (wait_load e) inv = ground arith
Step-Inv few fits (wait_done e) inv = ground arith
Step-Inv few fits (park e h k) inv = ground arith
Step-Inv few fits (no_park e h k) inv = ground arith
Step-Inv few fits (spurious e) inv = ground arith
Step-Inv few fits (spin_wait n e h) inv = ground arith
Step-Inv {hc} {s} few fits (spin_done e h) inv =
    let whole : s.counter_ % hc ≡ s.counter_ = mod-eq_of_lt (omega (arith, inv.range, few)) in
    ground arith
Step-Inv few fits (spin_again e h) inv = ground arith
Step-Inv few fits (spun e) inv = ground arith
Step-Inv {hc} {s} few fits (yield_done e h) inv =
    let whole : s.counter_ % hc ≡ s.counter_ = mod-eq_of_lt (omega (arith, inv.range, few)) in
    ground arith
Step-Inv few fits (again e) inv = ground arith
Step-Inv {s} few fits (arrive_spinning i f h) inv =
    let c = recount s.workers i working idle f in ground arith
Step-Inv {s} few fits (arrive i f h k) inv =
    let c = recount s.workers i working idle f in ground arith
Step-Inv {s} few fits (arrive_last i f h k) inv =
    let c = recount s.workers i working waking f in ground arith
Step-Inv {s} few fits (wake_one i f e) inv =
    let c = recount s.workers i waking idle f in ground arith
Step-Inv {s} few fits (wake_nobody i f e) inv =
    let c = recount s.workers i waking idle f in ground arith

pub Reach-Inv :
    {hc limit n : ℕ} {s : Barrier} → limit < hc → limit < 2 ^ 32 → Reach hc limit n s → Inv limit s
Reach-Inv {n} few fits new = record {
  range = omega arith;
  counted = omega (arith, weigh-replicate has_part n idle refl);
  known = tt;
}
Reach-Inv few fits (step r st) = Step-Inv few fits st (Reach-Inv few fits r)

-- In every interleaving, once the owner is back from wait() or spin_wait(), every part that was
-- handed out has arrived, as long as fewer arrivals are expected than hardware_concurrency_t has
-- values.
pub joined_after_all :
    {hc limit n : ℕ} {s : Barrier} {stalled : Bool}
    → limit < hc
    → limit < 2 ^ 32
    → Reach hc limit n s
    → s.owner ≡ joined stalled
    → weigh has_part s.workers ≡ 0
joined_after_all few fits r e = let inv = Reach-Inv few fits r in ground arith

-- No wake-up is lost: while the owner is parked, some thread still has a part, or is about to wake
-- the owner. Fewer arrivals are expected than hardware_concurrency_t has values.
pub parked_only_for_workers :
    {hc limit n : ℕ} {s : Barrier}
    → limit < hc
    → limit < 2 ^ 32
    → Reach hc limit n s
    → s.owner ≡ parked
    → 0 < weigh has_part s.workers + weigh is_waking s.workers
parked_only_for_workers few fits r e = let inv = Reach-Inv few fits r in ground arith
