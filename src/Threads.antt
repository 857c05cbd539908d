-- ===== src/Threads.antt =====
-- Threads as a list of the places where they stand: sums over them, and what a step changes.
use sweater.Prelude.{
  ℕ, zero, suc, ◌+◌, ◌≤◌, ◌≡◌, List, [], ◌∷◌, some, get_elem?, set, length, replicate, refl, ap,
  arith,
}

module _ {ℓ} {A : Type ℓ} (w : A → ℕ) where
  -- The sum of what each thread weighs.
  unfoldable pub weigh : List A → ℕ
  weigh [] = 0
  weigh (p ∷ ps) = w p + weigh ps

  pub weigh-set :
      (ps : List A) (i : ℕ) (p q : A)
      → get_elem? ps i ≡ some p
      → weigh (set ps i q) + w p ≡ weigh ps + w q
  unfolding weigh
  weigh-set [] i p q e = cc
  weigh-set (x ∷ xs) zero p q e = ground arith
  weigh-set (x ∷ xs) (suc i) p q e = omega (arith, weigh-set xs i p q e)

  pub le-weigh : (ps : List A) (i : ℕ) (p : A) → get_elem? ps i ≡ some p → w p ≤ weigh ps
  unfolding weigh
  le-weigh [] i p e = cc
  le-weigh (x ∷ xs) zero p e = ground arith
  le-weigh (x ∷ xs) (suc i) p e = omega (arith, le-weigh xs i p e)

  pub weigh-le-length : (ps : List A) → ((p : A) → w p ≤ 1) → weigh ps ≤ length ps
  unfolding weigh
  weigh-le-length [] h = omega arith
  weigh-le-length (x ∷ xs) h = omega (arith, h x, weigh-le-length xs h)

module _ {ℓ} {A : Type ℓ} where
  pub weigh_mono : (v w : A → ℕ) (ps : List A) → ((p : A) → v p ≤ w p) → weigh v ps ≤ weigh w ps
  unfolding weigh
  weigh_mono v w [] h = omega arith
  weigh_mono v w (x ∷ xs) h = omega (arith, h x, weigh_mono v w xs h)

  pub weigh_add :
      (u v w : A → ℕ) (ps : List A)
      → ((p : A) → u p ≡ v p + w p)
      → weigh u ps ≡ weigh v ps + weigh w ps
  unfolding weigh
  weigh_add u v w [] h = omega arith
  weigh_add u v w (x ∷ xs) h = omega (arith, h x, weigh_add u v w xs h)

  pub length-set : (ps : List A) (i : ℕ) (q : A) → length (set ps i q) ≡ length ps
  length-set [] i q = refl
  length-set (x ∷ xs) zero q = refl
  length-set (x ∷ xs) (suc i) q = ap suc (length-set xs i q)

  pub weigh-replicate : (w : A → ℕ) (n : ℕ) (p : A) → w p ≡ 0 → weigh w (replicate n p) ≡ 0
  unfolding weigh
  weigh-replicate w zero p h = refl
  weigh-replicate w (suc n) p h = omega (arith, h, weigh-replicate w n p h)

  pub length-replicate : (n : ℕ) (p : A) → length (replicate n p) ≡ n
  length-replicate zero p = refl
  length-replicate (suc n) p = ap suc (length-replicate n p)

  -- Where nobody weighs anything by `v`, and `w` follows `v`, nobody does by `w`.
  pub weigh-eq-zero :
      (v w : A → ℕ) (ps : List A) → ((p : A) → v p ≡ 0 → w p ≡ 0) → weigh v ps ≡ 0 → weigh w ps ≡ 0
  unfolding weigh
  weigh-eq-zero v w [] h e = refl
  weigh-eq-zero v w (x ∷ xs) h e =
      omega (arith, h x (omega (arith, e)), weigh-eq-zero v w xs h (omega (arith, e)))
