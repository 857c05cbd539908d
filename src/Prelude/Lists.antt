-- ===== src/Prelude/Lists.antt =====
-- Lists measured and indexed by native numbers, under the library's names.
use Prim.Native.Nat.{ℕ, zero, suc, ◌+◌, ◌-◌, ◌<◌, ◌≤◌, min}
use mathlib.Core.Logic.{◌⊎◌, inl, inr, ◌≢◌}
use mathlib.Core.Path.{◌≡◌, refl, sym, ap}
use mathlib.Core.List.{List, [], ◌∷◌, ◌++◌}
use mathlib.Core.Option.{Option, none, some}
use native.Mathlib.Omega.{arith}

module _ {ℓ} {A : Type ℓ} where
  abbrev pub length : List A → ℕ
  length [] = 0
  length (x ∷ xs) = suc (length xs)

  abbrev pub get_elem? : List A → ℕ → Option A
  get_elem? [] i = none
  get_elem? (x ∷ xs) zero = some x
  get_elem? (x ∷ xs) (suc i) = get_elem? xs i

  -- A write out of bounds changes nothing.
  abbrev pub set : List A → ℕ → A → List A
  set [] i v = []
  set (x ∷ xs) zero v = v ∷ xs
  set (x ∷ xs) (suc i) v = x ∷ set xs i v

  abbrev pub replicate : ℕ → A → List A
  replicate zero a = []
  replicate (suc n) a = a ∷ replicate n a

  abbrev pub take : ℕ → List A → List A
  take zero xs = []
  take (suc n) [] = []
  take (suc n) (x ∷ xs) = x ∷ take n xs

  abbrev pub drop : ℕ → List A → List A
  drop zero xs = xs
  drop (suc n) [] = []
  drop (suc n) (x ∷ xs) = drop n xs

  pub take-append : (xs ys : List A) → take (length xs) (xs ++ ys) ≡ xs
  take-append [] ys = refl
  take-append (x ∷ xs) ys = ap (λ zs. x ∷ zs) (take-append xs ys)

  pub drop-append : (xs ys : List A) → drop (length xs) (xs ++ ys) ≡ ys
  drop-append [] ys = refl
  drop-append (x ∷ xs) ys = drop-append xs ys

  pub get_elem?-drop : (k i : ℕ) (xs : List A) → get_elem? (drop k xs) i ≡ get_elem? xs (k + i)
  get_elem?-drop zero i xs = ground arith
  get_elem?-drop (suc k) i [] = ground arith
  get_elem?-drop (suc k) i (x ∷ xs) = grind (arith, get_elem?-drop k i xs)

  pub get_elem?-take : (n i : ℕ) (xs : List A) → i < n → get_elem? (take n xs) i ≡ get_elem? xs i
  get_elem?-take zero i xs h = absurd (omega arith)
  get_elem?-take (suc n) i [] h = refl
  get_elem?-take (suc n) zero (x ∷ xs) h = refl
  get_elem?-take (suc n) (suc i) (x ∷ xs) h = get_elem?-take n i xs (omega arith)

  pub get_elem?-take_beyond : (n i : ℕ) (xs : List A) → n ≤ i → get_elem? (take n xs) i ≡ none
  get_elem?-take_beyond zero i xs h = refl
  get_elem?-take_beyond (suc n) i [] h = refl
  get_elem?-take_beyond (suc n) zero (x ∷ xs) h = absurd (omega arith)
  get_elem?-take_beyond (suc n) (suc i) (x ∷ xs) h = get_elem?-take_beyond n i xs (omega arith)

  pub take-take : (i n : ℕ) (xs : List A) → i ≤ n → take i (take n xs) ≡ take i xs
  take-take zero n xs h = refl
  take-take (suc i) zero xs h = absurd (omega arith)
  take-take (suc i) (suc n) [] h = refl
  take-take (suc i) (suc n) (x ∷ xs) h = ap (λ zs. x ∷ zs) (take-take i n xs (omega arith))

  pub length-take : (n : ℕ) (xs : List A) → length (take n xs) ≡ min n (length xs)
  length-take zero xs = omega arith
  length-take (suc n) [] = omega arith
  length-take (suc n) (x ∷ xs) = omega (arith, length-take n xs)

  pub length-drop : (n : ℕ) (xs : List A) → length (drop n xs) ≡ length xs - n
  length-drop zero xs = omega arith
  length-drop (suc n) [] = omega arith
  length-drop (suc n) (x ∷ xs) = omega (arith, length-drop n xs)

  pub get_elem?-length : (xs : List A) (i : ℕ) {x : A} → get_elem? xs i ≡ some x → i < length xs
  get_elem?-length [] i h = cc
  get_elem?-length (y ∷ xs) zero h = omega arith
  get_elem?-length (y ∷ xs) (suc i) h = omega (arith, get_elem?-length xs i h)

  take-nil : (n : ℕ) → take n [] ≡ []
  take-nil zero = refl
  take-nil (suc n) = refl

  pub drop-take : (k n : ℕ) (xs : List A) → drop k (take n xs) ≡ take (n - k) (drop k xs)
  drop-take zero n xs = grind arith
  drop-take (suc k) zero xs = grind arith
  drop-take (suc k) (suc n) [] = sym (take-nil (suc n - suc k))
  drop-take (suc k) (suc n) (x ∷ xs) = grind (arith, drop-take k n xs)

  pub drop-append_more : (xs ys : List A) (k : ℕ) → drop (length xs + k) (xs ++ ys) ≡ drop k ys
  drop-append_more [] ys k = grind arith
  drop-append_more (x ∷ xs) ys k = grind (arith, drop-append_more xs ys k)

  pub take_all : (n : ℕ) (xs : List A) → length xs ≤ n → take n xs ≡ xs
  take_all zero [] h = refl
  take_all zero (x ∷ xs) h = absurd (omega arith)
  take_all (suc n) [] h = refl
  take_all (suc n) (x ∷ xs) h = ap (λ zs. x ∷ zs) (take_all n xs (omega (arith, h)))

  pub get_elem?-set :
      (xs : List A) (i j : ℕ) (q c : A)
      → get_elem? (set xs i q) j ≡ some c
      → ((i ≡ j) × (c ≡ q)) ⊎ ((i ≢ j) × (get_elem? xs j ≡ some c))
  get_elem?-set [] i j q c h = cc
  get_elem?-set (x ∷ xs) zero zero q c h = inl (refl, cc)
  get_elem?-set (x ∷ xs) zero (suc j) q c h = inr (omega arith, h)
  get_elem?-set (x ∷ xs) (suc i) zero q c h = inr (omega arith, h)
  get_elem?-set (x ∷ xs) (suc i) (suc j) q c h = elim (get_elem?-set xs i j q c h) [
    | inl (e, f) ↦ inl (ap suc e, f)
    | inr (e, f) ↦ inr (omega (arith, e), f)
  ]

  pub get_elem?-set_self :
      (xs : List A) (i : ℕ) (q p : A) → get_elem? xs i ≡ some p → get_elem? (set xs i q) i ≡ some q
  get_elem?-set_self [] i q p h = cc
  get_elem?-set_self (x ∷ xs) zero q p h = refl
  get_elem?-set_self (x ∷ xs) (suc i) q p h = get_elem?-set_self xs i q p h

  pub get_elem?-set_other :
      (xs : List A) (i j : ℕ) (q p : A)
      → i ≢ j
      → get_elem? xs j ≡ some p
      → get_elem? (set xs i q) j ≡ some p
  get_elem?-set_other [] i j q p n h = h
  get_elem?-set_other (x ∷ xs) zero zero q p n h = absurd (n refl)
  get_elem?-set_other (x ∷ xs) zero (suc j) q p n h = h
  get_elem?-set_other (x ∷ xs) (suc i) zero q p n h = h
  get_elem?-set_other (x ∷ xs) (suc i) (suc j) q p n h =
      get_elem?-set_other xs i j q p (λ e. n (ap suc e)) h

  pub length-append : (xs ys : List A) → length (xs ++ ys) ≡ length xs + length ys
  length-append [] ys = omega arith
  length-append (x ∷ xs) ys = omega (arith, length-append xs ys)
