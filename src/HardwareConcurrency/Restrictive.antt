-- ===== src/HardwareConcurrency/Restrictive.antt =====
-- The most restrictive quota of a set of directories, one directory after the other.
use sweater.Prelude.{
  ℕ, zero, suc, ◌≤◌, ◌<◌, ◌≡◌, ◌⊎◌, inl, inr, refl, sym, ap, ◌∙◌, true, arith, ℤ, pos, negsuc,
  minus_one, is_positive, Bool-cases, leb, ltb,
}
use sweater.HardwareConcurrency.Branch.{restrict}

-- A limit below which no directory of a set goes, and that one of them states; -1 where none has a
-- quota.
pub record IsMostRestrictive {A : Type 0} (quota_of : A → ℤ) (InSet : A → Type 0) (limit : ℤ)
    : Type 0 where
  pub lower :
      (dir : A) (n : ℕ)
      → InSet dir
      → quota_of dir ≡ pos n
      → 0 < n
      → (m : ℕ) × (limit ≡ pos m) × (m ≤ n)
  pub stated :
      (limit ≡ minus_one)
      ⊎ ((dir : A) × InSet dir × (quota_of dir ≡ limit) × (is_positive limit ≡ true))

module _ {A : Type 0} (quota_of : A → ℤ) (InSet : A → Type 0) (dir : A) where
  -- The set with one directory more.
  abbrev pub And : A → Type 0
  And p = InSet p ⊎ (p ≡ dir)

  keep :
      (limit quota : ℤ)
      → quota_of dir ≡ quota
      → ((n : ℕ) → quota ≡ pos n → 0 < n → (m : ℕ) × (limit ≡ pos m) × (m ≤ n))
      → IsMostRestrictive quota_of InSet limit
      → IsMostRestrictive quota_of And limit
  keep limit quota e h b = record {
    lower = λ p n i q positive. elim i [
      | inl old ↦ b.lower p n old q positive
      | inr new ↦ h n (sym e ∙ ap quota_of (sym new) ∙ q) positive
    ];
    stated = elim b.stated [
      | inl nothing ↦ inl nothing
      | inr (p, i, q, positive) ↦ inr (p, inl i, q, positive)
    ];
  }

  replace :
      (k : ℕ)
      → quota_of dir ≡ pos (suc k)
      → ((p : A) (n : ℕ) → InSet p → quota_of p ≡ pos n → 0 < n → suc k ≤ n)
      → IsMostRestrictive quota_of And (pos (suc k))
  replace k e h = record {
    lower = λ p n i q positive. (
      suc k,
      refl,
      elim i [
        | inl old ↦ h p n old q positive
        | inr new ↦ let same = sym e ∙ ap quota_of (sym new) ∙ q in ground arith
      ],
    );
    stated = inr (dir, inr refl, e, ground arith);
  }

  zero_lt_suc : (k : ℕ) → ltb 0 (suc k) ≡ true
  zero_lt_suc k = ground arith

  pub restrict_lem :
      (limit quota : ℤ)
      → quota_of dir ≡ quota
      → IsMostRestrictive quota_of InSet limit
      → IsMostRestrictive quota_of And (restrict limit quota)
  unfolding restrict
  restrict_lem limit (negsuc k) e b = keep limit (negsuc k) e (λ n q _. cc) b
  restrict_lem limit (pos zero) e b = keep limit (pos 0) e (λ n q positive. absurd (ground arith)) b
  restrict_lem (negsuc zero) (pos (suc k)) e b =
      rw (zero_lt_suc k)
        (replace k e (λ p n i q positive. let (m, x, _) = b.lower p n i q positive in cc))
  restrict_lem (negsuc (suc l)) (pos (suc k)) e b = elim b.stated [
    | inl x ↦ absurd (ground arith)
    | inr (p, i, q, x) ↦ cc
  ]
  restrict_lem (pos l) (pos (suc k)) e b = elim (Bool-cases (leb l (suc k))) [
    | inl le ↦
        rw (zero_lt_suc k, le) (keep (pos l) (pos (suc k)) e (λ n q _. (l, refl, ground arith)) b)
    | inr gt ↦
        rw (zero_lt_suc k, gt)
          (replace k e
            (λ p n i q positive. let (m, x, le) = b.lower p n i q positive in ground arith))
  ]

module _ {A : Type 0} (quota_of : A → ℤ) where
  pub same_set :
      (B C : A → Type 0) (limit : ℤ)
      → ((p : A) → B p → C p)
      → ((p : A) → C p → B p)
      → IsMostRestrictive quota_of B limit
      → IsMostRestrictive quota_of C limit
  same_set B C limit f g b = record {
    lower = λ p n i. b.lower p n (g p i);
    stated = elim b.stated [
      | inl nothing ↦ inl nothing
      | inr (p, i, q, positive) ↦ inr (p, f p i, q, positive)
    ];
  }
