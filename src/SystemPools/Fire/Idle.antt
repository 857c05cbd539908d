-- ===== src/SystemPools/Fire/Idle.antt =====
-- What the waiting for idleness promises of the fired items.
use sweater.Prelude.{
  ℕ, suc, ◌+◌, ◌-◌, ◌^◌, ◌≤◌, ◌<◌, ◌≡◌, Bool, true, false, not, List, [], ◌∷◌, some, get_elem?, set,
  to_int, refl, arith, length, sym, ap, subst, Bool-cases, ◌==◌, inl, inr, if◌then◌else◌,
}
use sweater.SystemPools.Fire.{wait_until_idle}
use sweater.SystemPools.Fire.Items.{
  Firing, Item, System, counted_after, Step, event, fired, Reach, new, step, AreTracked,
}
use sweater.SystemPools.Fire.Settled.{total, is_run}
use sweater.Threads.{
  weigh, weigh-set, le-weigh, weigh-le-length, length-set, weigh_add, weigh-eq-zero,
}
use sweater.SystemPools.Fire.Within.{
  within, fire_and_forget-within, is_counted, is_astray, is_inc, is_after, within-is_run,
  within-event, count-within,
}

record Inv (n : ℕ) (s : System) : Type 0 where
  few : length s.items ≡ n
  small : n < 2 ^ 64
  count : s.g_in_flight ≡ weigh is_counted s.items
  all_within : weigh is_astray s.items ≡ 0

not-true : (b : Bool) → to_int (not b) ≡ 0 → b ≡ true
not-true true e = refl
not-true false e = absurd (omega (arith, e))

within-item :
    (items : List Item) (i : ℕ) (x : Item)
    → weigh is_astray items ≡ 0
    → get_elem? items i ≡ some x
    → within x.counted x.rest ≡ true
within-item items i x h e =
    not-true (within x.counted x.rest) (omega (arith, h, le-weigh is_astray items i x e))

-- What the items other than the `i`th count is less than the number of items.
others-lt-length :
    (items : List Item) (i : ℕ) (x : Item)
    → get_elem? items i ≡ some x
    → weigh is_counted items + 1 ≤ length items + is_counted x
others-lt-length items i x e =
    let full : Item = record { counted = true; rest = [] } in
    let sum = weigh-set is_counted items i x full e in
    let enough = weigh-le-length is_counted (set items i full) (λ z. ground arith) in
    omega (arith, sum, enough, length-set items i full)

Step-Inv : {n : ℕ} {s t : System} → Step s t → Inv n s → Inv n t
Step-Inv {s} (event i e {counted} {rest} here) inv =
    let x : Item = record { counted = counted; rest = e ∷ rest } in
    let y : Item = record { counted = counted_after e counted; rest = rest } in
    let w = within-item s.items i x inv.all_within here in
    let own = le-weigh is_counted s.items i x here in
    let few = others-lt-length s.items i x here in
    let counts =
      count-within e counted rest (weigh is_counted s.items - to_int counted) s.g_in_flight w
        (omega (arith, inv.count, own)) (omega (arith, few, inv.few, inv.small, own)) in
    let still : is_astray y ≡ 0 = rw (within-event e counted rest w) refl in
    record {
      few = omega (arith, length-set s.items i y, inv.few);
      small = inv.small;
      count = omega (arith, counts, own, weigh-set is_counted s.items i x y here);
      all_within = omega (arith, weigh-set is_astray s.items i x y here, inv.all_within, still);
    }

fired-weigh :
    (fs : List Firing)
    → AreTracked fs
    → (weigh is_counted (fired fs) ≡ 0)
      × (weigh is_astray (fired fs) ≡ 0)
      × (length (fired fs) ≡ length fs)
unfolding fired weigh AreTracked
fired-weigh [] a = (refl, refl, refl)
fired-weigh (f ∷ fs) (t, a) =
    let (c, w, l) = fired-weigh fs a in
    (
      omega (arith, c),
      rw (fire_and_forget-within f.pool f.fits f.granted t) (omega (arith, w)),
      ap suc l,
    )

Reach-Inv :
    {fs : List Firing} {s : System}
    → length fs < 2 ^ 64
    → AreTracked fs
    → Reach fs s
    → Inv (length fs) s
Reach-Inv {fs} few a new =
    let (c, w, l) = fired-weigh fs a in
    record { few = l; small = few; count = sym c; all_within = w }
Reach-Inv few a (step r st) = Step-Inv st (Reach-Inv few a r)

-- The calls left of an item that has been counted.
abbrev pub unfinished : Item → ℕ
unfinished x = if total is_inc x.rest == 0 then total is_run x.rest + total is_after x.rest else 0

abbrev is_busy : Item → ℕ
is_busy x = is_counted x + is_astray x

unfinished-is_busy : (x : Item) → is_busy x ≡ 0 → unfinished x ≡ 0
unfinished-is_busy x e = elim (Bool-cases (total is_inc x.rest == 0)) [
  | inl counted_before ↦
      let not_counted : x.counted ≡ false = ground (arith, e) in
      let w : within x.counted x.rest ≡ true =
        not-true (within x.counted x.rest) (omega (arith, e)) in
      let off = subst (λ c. within c x.rest ≡ true) not_counted w in
      let (no_run, no_after) = within-is_run x.rest off (ground (arith, counted_before)) in
      rw counted_before (omega (arith, no_run, no_after))
  | inr to_come ↦ rw to_come refl
]

-- What wait_until_idle's polls find: the counts of the states that they see.
unfoldable pub polls : List (System × Bool) → List (ℕ × Bool)
polls [] = []
polls ((s, expired) ∷ seen) = (s.g_in_flight, expired) ∷ polls seen

-- The polls are made at points of the interleaving.
unfoldable pub AreReached : List Firing → List (System × Bool) → Type 0
AreReached fs [] = Unit
AreReached fs ((s, expired) ∷ seen) = Reach fs s × AreReached fs seen

wait_until_idle-polls :
    (fs : List Firing) (seen : List (System × Bool))
    → AreReached fs seen
    → wait_until_idle (polls seen) ≡ some true
    → (j : ℕ) × (s : System) × (expired : Bool) × (get_elem? seen j ≡ some (s, expired))
      × Reach fs s
      × (s.g_in_flight ≡ 0)
unfolding wait_until_idle polls AreReached
wait_until_idle-polls fs [] rs e = cc
wait_until_idle-polls fs ((s, true) ∷ seen) (r, rs) e = elim (Bool-cases (s.g_in_flight == 0)) [
  | inl idle ↦ (0, s, true, refl, r, ground (arith, idle))
  | inr busy ↦ absurd (ground (arith, busy, e))
]
wait_until_idle-polls fs ((s, false) ∷ seen) (r, rs) e = elim (Bool-cases (s.g_in_flight == 0)) [
  | inl idle ↦ (0, s, false, refl, r, ground (arith, idle))
  | inr busy ↦
      let ended : wait_until_idle (polls seen) ≡ some true = ground (arith, busy, e) in
      let (j, t, expired, at, reached, idle) = wait_until_idle-polls fs seen rs ended in
      (suc j, t, expired, at, reached, idle)
]

-- wait_until_idle returns true only if it polled at a point at which each item that has been counted
-- had run its work, and after it whatever comes after it: no call was left. The items are fired over
-- GCD, the Windows thread pool or libuv, in any order of their events, and are fewer than 2 ^ 64.
pub wait_until_idle-unfinished :
    (fs : List Firing) (seen : List (System × Bool))
    → length fs < 2 ^ 64
    → AreTracked fs
    → AreReached fs seen
    → wait_until_idle (polls seen) ≡ some true
    → (j : ℕ) × (s : System) × (expired : Bool) × (get_elem? seen j ≡ some (s, expired))
      × (weigh unfinished s.items ≡ 0)
wait_until_idle-unfinished fs seen few tracked reached e =
    let (j, s, expired, at, r, idle) = wait_until_idle-polls fs seen reached e in
    let inv = Reach-Inv few tracked r in
    let both = weigh_add is_busy is_counted is_astray s.items (λ x. refl) in
    let nobody = weigh-eq-zero is_busy unfinished s.items unfinished-is_busy in
    (j, s, expired, at, nobody (omega (arith, both, inv.count, inv.all_within, idle)))
