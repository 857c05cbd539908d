-- ===== src/RwGuards/Balance.antt =====
-- The balance of the guards' calls.
use sweater.Prelude.{
  ℕ, ◌+◌, ◌≡◌, ◌==◌, to_int, List, ◌∷◌, ◌++◌, Option, none, some, get_elem?, set, Bool-cases, arith,
  inl, inr, refl, ◌≢◌, get_elem?-set_self, get_elem?-set_other,
}
use sweater.RwGuards.{
  Call, acquire, release, Guards, destroyed, Step, construct_default, construct, move_construct,
  move_assign, destroy, Reach, new, step,
}
use sweater.Threads.{weigh, weigh-set}

module _ (m : ℕ) where
  abbrev pub points : Option ℕ → ℕ
  points none = 0
  points (some k) = to_int (k == m)

  abbrev pub acquires : Call → ℕ
  acquires (acquire k) = to_int (k == m)
  acquires (release k) = 0

  abbrev pub releases : Call → ℕ
  releases (acquire k) = 0
  releases (release k) = to_int (k == m)

  weigh-destroyed :
      (p : Option ℕ) (calls : List Call)
      → (weigh acquires (destroyed p ++ calls) ≡ weigh acquires calls)
        × (weigh releases (destroyed p ++ calls) ≡ points p + weigh releases calls)
  unfolding weigh
  weigh-destroyed none calls = (refl, omega arith)
  weigh-destroyed (some k) calls = (omega arith, refl)

  -- What a step adds keeps the balance.
  Balanced : Guards → List (Option ℕ) → Type 0
  Balanced s ms =
      weigh acquires s.calls + weigh points ms ≡ weigh releases s.calls + weigh points s.guards

  Step-Balanced :
      {s t : Guards} {self_moved : Option ℕ} (ms : List (Option ℕ))
      → Step s t self_moved
      → Balanced s ms
      → Balanced t (self_moved ∷ ms)
  unfolding Balanced weigh
  Step-Balanced ms construct_default b = omega (arith, b)
  Step-Balanced ms (construct k) b = omega (arith, b)
  Step-Balanced {s} ms (move_construct j {q} e) b =
      omega (arith, b, weigh-set points s.guards j q none e)
  Step-Balanced {s} ms (move_assign i j {p} {q} e f) b =
      let emptied = weigh-set points s.guards j q none f in
      let called = weigh-destroyed p s.calls in
      elim (Bool-cases (i == j)) [
        | inl self ↦
            let same : i ≡ j = ground (arith, self) in
            let there : get_elem? (set s.guards j none) i ≡ some none =
              rw same (get_elem?-set_self s.guards j none q f) in
            let one : some p ≡ some q = cc (e, f, same) in
            let pointed : points p ≡ points q = cc one in
            let filled = weigh-set points (set s.guards j none) i none q there in
            rw self (omega (arith, b, emptied, called, filled, pointed))
        | inr other ↦
            let differ : j ≢ i = λ h. ground (arith, h, other) in
            let there = get_elem?-set_other s.guards j i none p differ e in
            let filled = weigh-set points (set s.guards j none) i p q there in
            rw other (omega (arith, b, emptied, called, filled))
      ]
  Step-Balanced {s} ms (destroy i {p} e) b =
      omega (arith, b, weigh-set points s.guards i p none e, weigh-destroyed p s.calls)

-- However guards are made, moved and destroyed, for each mutex the calls that acquire it, together
-- with the moves of a guard that points to it to itself, are as many as the calls that release it,
-- together with the guards that point to it.
pub acquires-releases :
    (m : ℕ) {s : Guards} {ms : List (Option ℕ)}
    → Reach s ms
    → weigh (acquires m) s.calls + weigh (points m) ms
      ≡ weigh (releases m) s.calls + weigh (points m) s.guards
unfolding Balanced weigh
acquires-releases m new = refl
acquires-releases m (step {ms} r st) = Step-Balanced m ms st (acquires-releases m r)
