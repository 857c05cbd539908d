-- ===== src/Shop/Control/Affinity.antt =====
-- What bind_worker returns against what it has done.
use sweater.Prelude.{
  ℕ, ◌+◌, ◌≡◌, refl, Bool, true, false, not, ◌==◌, to_int, List, [], ◌∷◌, Option, none, some,
  Bool-cases, inl, inr, arith, ◌∙◌, ap,
}
use sweater.Shop.Control.Priorities.{is_on}
use sweater.Shop.Control.{Binding, bind_to_cpu, unbound, bind_call, bind_calls, bind_worker}

-- How many calls were made on worker `i`.
abbrev pub calls_on : ℕ → List (Option ℕ) → ℕ
calls_on i [] = 0
calls_on i (none ∷ runners) = calls_on i runners
calls_on i (some j ∷ runners) = to_int (j == i) + calls_on i runners

module _ (i : ℕ) (permitted : Bool) where
  bind_calls_none :
      (runners : List (Option ℕ)) (b : Binding)
      → calls_on i runners ≡ 0
      → bind_calls i permitted runners b ≡ b
  unfolding bind_calls bind_call
  bind_calls_none [] b h = refl
  bind_calls_none (none ∷ runners) b h = bind_calls_none runners b h
  bind_calls_none (some j ∷ runners) b h = elim (Bool-cases (j == i)) [
    | inl it ↦ absurd (ground (arith, it, h))
    | inr other ↦ rw other (bind_calls_none runners b (ground (arith, other, h)))
  ]

  passed : (r : Option ℕ) (b : Binding) → is_on r i ≡ false → bind_call i permitted r b ≡ b
  unfolding bind_call
  passed none b h = refl
  passed (some j) b h = rw h refl

  bind_calls_once :
      (runners : List (Option ℕ)) (b : Binding)
      → calls_on i runners ≡ 1
      → bind_calls i permitted runners b ≡ bind_call i permitted (some i) b
  unfolding bind_calls
  bind_calls_once [] b h = absurd (omega (arith, h))
  bind_calls_once (none ∷ runners) b h =
      ap (λ c. bind_calls i permitted runners c) (passed none b refl) ∙ bind_calls_once runners b h
  bind_calls_once (some j ∷ runners) b h = elim (Bool-cases (j == i)) [
    | inl it ↦
        let same : j ≡ i = ground (arith, it) in
        bind_calls_none runners (bind_call i permitted (some j) b) (ground (arith, it, h))
        ∙ ap (λ k. bind_call i permitted (some k) b) same
    | inr other ↦
        ap (λ c. bind_calls i permitted runners c) (passed (some j) b other)
        ∙ bind_calls_once runners b (ground (arith, other, h))
  ]

-- On Linux, for a worker that has stored its thread_id_ and on which one call of the spread is made:
-- with PSI_SWEATER_EXACT_WORKER_SELECTION and without it, bind_worker binds the worker in the same
-- cases, never the caller, and its assertions hold; but with it, it returns whether the worker is
-- bound, and without it, whether it is not.
pub bind_worker-returns :
    (permitted : Bool) (runners : List (Option ℕ)) (worker_index : ℕ)
    → calls_on worker_index runners ≡ 1
    → let (exact_returned, exact_masks, exact_asserted) =
        bind_worker true true permitted runners worker_index in
      let (shared_returned, shared_masks, shared_asserted) =
        bind_worker false true permitted runners worker_index in
      (shared_masks ≡ exact_masks)
      × (exact_masks.caller_bound ≡ false)
      × (exact_asserted ≡ true)
      × (shared_asserted ≡ true)
      × (exact_returned ≡ exact_masks.worker_bound)
      × (shared_returned ≡ not shared_masks.worker_bound)
unfolding bind_worker bind_call bind_to_cpu
bind_worker-returns true runners worker_index h =
    let start : Binding = record { result = 2; asserted = true; masks = unbound } in
    let same : (worker_index == worker_index) ≡ true = ground arith in
    rw (bind_calls_once worker_index true runners start h, same)
      (refl, refl, refl, refl, refl, refl)
bind_worker-returns false runners worker_index h =
    let start : Binding = record { result = 2; asserted = true; masks = unbound } in
    let same : (worker_index == worker_index) ≡ true = ground arith in
    rw (bind_calls_once worker_index false runners start h, same)
      (refl, refl, refl, refl, refl, refl)
