-- ===== src/Shop/Wake.antt =====
-- generic.cpp: which workers are woken, and which one gets a fired work item. `hc` is the number of
-- values of hardware_concurrency_t.
use sweater.Prelude.{
  ℕ, zero, suc, ◌+◌, ◌-◌, ◌*◌, ◌/◌, ◌%◌, ◌^◌, ◌≤◌, ◌<◌, ◌≡◌, ◌⊎◌, inl, inr, ◌&&◌, to_int, List, [],
  ◌∷◌, ◌++◌, u32, ltb, ◌==◌, if◌then◌else◌, arith, ◌∙◌, ap,
}
use native.Mathlib.Nat.{mod-eq_of_lt, mod-lt}

-- The workers that shop::propagate_spread_wake notifies.
unfoldable pub propagate_spread_wake : (hc workers worker_index : ℕ) → List ℕ
propagate_spread_wake hc workers worker_index =
    (if ltb left workers then left ∷ [] else []) ++ (if ltb right workers then right ∷ [] else [])
  where
    left : ℕ
    left = (2 * worker_index + 1) % hc

    right : ℕ
    right = (2 * worker_index + 2) % hc

-- How often a worker is notified in a list.
abbrev pub notified : ℕ → List ℕ → ℕ
notified j [] = 0
notified j (i ∷ is) = to_int (i == j) + notified j is

-- The notifications by the workers below `n`, each of which propagates once.
abbrev pub propagated : (hc workers n : ℕ) → ℕ → ℕ
propagated hc workers zero j = 0
propagated hc workers (suc n) j =
    propagated hc workers n j + notified j (propagate_spread_wake hc workers n)

-- The parent of `j` in the tree.
abbrev parent : ℕ → ℕ
parent j = (j - 1) / 2

notified_lem :
    (hc workers i j : ℕ)
    → 2 * workers < hc
    → i < workers
    → notified j (propagate_spread_wake hc workers i)
      ≡ to_int (ltb 0 j && ltb j workers && (parent j == i))
unfolding propagate_spread_wake
notified_lem hc workers i j h k =
    let left : (2 * i + 1) % hc ≡ 2 * i + 1 = mod-eq_of_lt (omega arith) in
    let right : (2 * i + 2) % hc ≡ 2 * i + 2 = mod-eq_of_lt (omega arith) in
    rw (left, right) (ground arith)

propagated_lem :
    (hc workers n j : ℕ)
    → 2 * workers < hc
    → n ≤ workers
    → propagated hc workers n j ≡ to_int (ltb 0 j && ltb j workers && ltb (parent j) n)
propagated_lem hc workers zero j h k = ground arith
propagated_lem hc workers (suc n) j h k = ground (
  arith,
  propagated_lem hc workers n j h (omega arith),
  notified_lem hc workers n j h (omega arith),
)

-- When each worker propagates once, every worker but the first is notified exactly once, and nobody
-- else is. There are fewer workers than half the values of hardware_concurrency_t.
propagated_once :
    (hc workers j : ℕ)
    → 2 * workers < hc
    → propagated hc workers workers j ≡ to_int (ltb 0 j && ltb j workers)
propagated_once hc workers j h = propagated_lem hc workers workers j h (omega arith) ∙ ground arith

-- The workers that are woken where the caller wakes worker 0, and each that is woken propagates.
pub data Woken (hc workers : ℕ) : ℕ → Type 0 where
  root : 0 < workers → Woken hc workers 0
  child :
      {i j : ℕ}
      → Woken hc workers i
      → 0 < notified j (propagate_spread_wake hc workers i)
      → Woken hc workers j

notified_by_parent :
    (hc workers j : ℕ)
    → workers ≤ hc
    → suc j < workers
    → 0 < notified (suc j) (propagate_spread_wake hc workers (parent (suc j)))
unfolding propagate_spread_wake
notified_by_parent hc workers j h k = elim (odd_or_even j) [
  | inl odd ↦
      let left : (2 * parent (suc j) + 1) % hc ≡ suc j =
        ap (λ (x : ℕ). x % hc) odd ∙ mod-eq_of_lt fits in
      rw left (ground arith)
  | inr even ↦
      let right : (2 * parent (suc j) + 2) % hc ≡ suc j =
        ap (λ (x : ℕ). x % hc) even ∙ mod-eq_of_lt fits in
      rw right (ground arith)
]
  where
    fits : suc j < hc
    fits = omega arith

    odd_or_even : (j : ℕ) → (2 * parent (suc j) + 1 ≡ suc j) ⊎ (2 * parent (suc j) + 2 ≡ suc j)
    odd_or_even j = ground arith

Woken-below : (hc workers bound j : ℕ) → workers ≤ hc → j < bound → j < workers → Woken hc workers j
Woken-below hc workers zero j h b k = absurd (omega arith)
Woken-below hc workers (suc bound) zero h b k = root k
Woken-below hc workers (suc bound) (suc j) h b k =
    child (Woken-below hc workers bound (parent (suc j)) h (omega arith) (omega arith))
      (notified_by_parent hc workers j h k)

-- From the first worker, the wake-ups reach every worker. hardware_concurrency_t can count them.
pub every_worker_reached : (hc workers j : ℕ) → workers ≤ hc → j < workers → Woken hc workers j
every_worker_reached hc workers j h k = Woken-below hc workers (suc j) j h (omega arith) k

abbrev pub sticky_dispatch_depth : ℕ
sticky_dispatch_depth = 2

-- What next_dispatch_target chooses, and dispatch_rotor_ after it. `pending` are the workers'
-- event_.pending(), as bit patterns.
pub record Target : Type 0 where
  pub target : ℕ
  pub rotor : ℕ

unfoldable pub next_dispatch_target : (hc workers rotor : ℕ) (pending : ℕ → ℕ) → Target
next_dispatch_target hc workers rotor pending =
    if ltb sticky_dispatch_depth (pending current) && ltb (pending current) (2 ^ 31)
    then record { target = u32 (rotor + 1) % workers % hc; rotor = u32 (rotor + 1) }
    else record { target = current; rotor = rotor }
  where
    current : ℕ
    current = rotor % workers % hc

-- The chosen worker is one of the pool's, and it is the current one unless more than two tokens
-- lie unconsumed there, and then the next one; the rotor stays within its 32 bits. There is a
-- worker, and hardware_concurrency_t can count them.
next_dispatch_target_lem :
    (hc workers rotor : ℕ) (pending : ℕ → ℕ)
    → 0 < workers
    → workers < hc
    → rotor < 2 ^ 32
    → let t = next_dispatch_target hc workers rotor pending in
      (t.target < workers)
      × (t.target ≡ t.rotor % workers)
      × (t.rotor < 2 ^ 32)
      × ((t.rotor ≡ rotor) ⊎ ((t.rotor ≡ (rotor + 1) % 2 ^ 32) × (2 < pending (rotor % workers))))
unfolding next_dispatch_target
next_dispatch_target_lem hc workers rotor pending h k f =
    let current : rotor % workers % hc ≡ rotor % workers =
      mod-eq_of_lt (omega (arith, mod-lt rotor h)) in
    let next : u32 (rotor + 1) % workers % hc ≡ u32 (rotor + 1) % workers =
      mod-eq_of_lt (omega (arith, mod-lt (u32 (rotor + 1)) h)) in
    rw (current, next) (ground (arith, mod-lt rotor h, mod-lt (u32 (rotor + 1)) h))
