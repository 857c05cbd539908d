-- ===== src/Shop/Fire/Counting.antt =====
-- What the in-flight count says of the fired work.
use sweater.Prelude.{
  ℕ, ◌+◌, ◌-◌, ◌%◌, ◌^◌, ◌≤◌, ◌<◌, ◌≡◌, refl, List, some, get_elem?, set, length, arith,
}
use sweater.Threads.{
  weigh, weigh-set, weigh-le-length, weigh_add, weigh-eq-zero, weigh-replicate, length-replicate,
  length-set,
}
use sweater.Shop.Fire.{
  Place, queued, running, ended, completed, refused, not_added, item_added, in_flight, Work,
  unfired, Fired, Step, enqueue, refuse, add_queued_item, in_flight_inc, dequeue, in_flight_dec,
  work_completed, Reach, new, step,
}

-- Counted in flight; taken off; enqueued and not taken off yet; enqueued and not counted.
abbrev pub counted : Work → ℕ
counted w = elim w.added [ not_added ↦ 0 | item_added ↦ 0 | in_flight ↦ 1 ]

abbrev place_ended : Place → ℕ
place_ended ended = 1
place_ended completed = 1
place_ended _ = 0

abbrev pub taken_off : Work → ℕ
taken_off w = place_ended w.place

abbrev place_pending : Place → ℕ
place_pending queued = 1
place_pending running = 1
place_pending _ = 0

abbrev pub pending : Work → ℕ
pending w = place_pending w.place

abbrev was_enqueued : Work → ℕ
was_enqueued w = pending w + taken_off w

-- Enqueued, and not counted in flight: its caller is still in create_fire_and_destroy.
abbrev pub uncounted : Work → ℕ
uncounted w = was_enqueued w - counted w

-- The item counted before its place allows it.
abbrev early : Work → ℕ
early w = elim w.added [
  | not_added ↦ 0
  | item_added ↦ 1 - was_enqueued w
  | in_flight ↦ 1 - was_enqueued w
]

-- Counted in flight, and not enqueued.
abbrev odd_one : Work → ℕ
odd_one w = counted w - was_enqueued w

abbrev seen : Work → ℕ
seen w = counted w + uncounted w

record Inv (n : ℕ) (s : Fired) : Type 0 where
  fits : length s.works ≡ n
  small : n < 2 ^ 64
  balance : (s.g_in_flight + weigh taken_off s.works) % 2 ^ 64 ≡ weigh counted s.works
  range : s.g_in_flight < 2 ^ 64
  no_early : weigh early s.works ≡ 0

record Recount (p q : Work) (ps qs : List Work) : Type 0 where
  off : weigh taken_off qs + taken_off p ≡ weigh taken_off ps + taken_off q
  on : weigh counted qs + counted p ≡ weigh counted ps + counted q
  bad : weigh early qs + early p ≡ weigh early ps + early q
  kept : length qs ≡ length ps
  few : weigh counted qs ≤ length qs
  few_off : weigh taken_off qs ≤ length qs

recount :
    (ps : List Work) (i : ℕ) (p q : Work) → get_elem? ps i ≡ some p → Recount p q ps (set ps i q)
recount ps i p q e = record {
  off = weigh-set taken_off ps i p q e;
  on = weigh-set counted ps i p q e;
  bad = weigh-set early ps i p q e;
  kept = length-set ps i q;
  few = weigh-le-length counted (set ps i q) (λ w. ground arith);
  few_off = weigh-le-length taken_off (set ps i q) (λ w. ground arith);
}

Step-Inv : {hc n : ℕ} {s t : Fired} → Step hc s t → Inv n s → Inv n t
Step-Inv {s} (enqueue i e) inv =
    let c = recount s.works i _ (record { place = queued; added = not_added }) e in ground arith
Step-Inv {s} (refuse i e) inv =
    let c = recount s.works i _ (record { place = refused; added = not_added }) e in ground arith
Step-Inv {s} (add_queued_item i {p} e h) inv =
    let c = recount s.works i _ (record { place = p; added = item_added }) e in ground arith
Step-Inv {s} (in_flight_inc i {p} e) inv =
    let c = recount s.works i _ (record { place = p; added = in_flight }) e in ground arith
Step-Inv {s} (dequeue i {a} e) inv =
    let c = recount s.works i _ (record { place = running; added = a }) e in ground arith
Step-Inv {s} (in_flight_dec i {a} e) inv =
    let c = recount s.works i _ (record { place = ended; added = a }) e in ground arith
Step-Inv {s} (work_completed i {a} e) inv =
    let c = recount s.works i _ (record { place = completed; added = a }) e in ground arith

Reach-Inv : {hc n : ℕ} {s : Fired} → n < 2 ^ 64 → Reach hc n s → Inv n s
Reach-Inv {n} small new = record {
  fits = length-replicate n unfired;
  small = small;
  balance =
      omega
        (arith, weigh-replicate taken_off n unfired refl, weigh-replicate counted n unfired refl);
  range = omega arith;
  no_early = weigh-replicate early n unfired refl;
}
Reach-Inv small (step r st) = Step-Inv st (Reach-Inv small r)

-- At every point of every interleaving the in-flight count is short, modulo 2 ^ 64, by the items
-- that are enqueued and that their callers have not counted yet: with those it is the number of
-- items that are queued or running. There are fewer than 2 ^ 64 items.
pub in_flight-pending :
    {hc n : ℕ} {s : Fired}
    → n < 2 ^ 64
    → Reach hc n s
    → (s.g_in_flight + weigh uncounted s.works) % 2 ^ 64 ≡ weigh pending s.works
in_flight-pending {s} small r =
    let inv = Reach-Inv small r in
    let a = weigh_add seen counted uncounted s.works (λ w. omega arith) in
    let b = weigh_add was_enqueued pending taken_off s.works (λ w. omega arith) in
    let none = weigh-eq-zero early odd_one s.works (λ w e. ground (arith, e)) inv.no_early in
    let all = weigh_add seen was_enqueued odd_one s.works (λ w. omega arith) in
    let few = weigh-le-length was_enqueued s.works (λ w. ground arith) in
    omega (arith, inv.balance, inv.fits, inv.range)

-- Once every enqueued item is counted by its caller, the in-flight count is the number of items
-- queued or running, so wait_until_idle ends just when there is none. There are fewer than 2 ^ 64
-- items.
idle-pending :
    {hc n : ℕ} {s : Fired}
    → n < 2 ^ 64
    → Reach hc n s
    → weigh uncounted s.works ≡ 0
    → s.g_in_flight ≡ weigh pending s.works
idle-pending small r e =
    let inv = Reach-Inv small r in omega (arith, in_flight-pending small r, inv.range)
