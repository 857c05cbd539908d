-- ===== src/HardwareConcurrency/Scan.antt =====
-- That scan_branch ends, with the most restrictive quota of the directories it walks through.
use sweater.HardwareConcurrency.Restrictive.{IsMostRestrictive, And, restrict_lem, same_set}
use sweater.Prelude.{
  ℕ, zero, suc, ◌+◌, ◌≤◌, ◌<◌, ◌≡◌, ◌⊎◌, inl, inr, refl, sym, ap, ◌∙◌, Bool, none, some, length,
  take, drop, get_elem?, arith, ℤ, minus_one, Option-cases, Bool-cases, leb, ltb, ◌-◌, ◌==◌,
  get_elem?-drop, get_elem?-length, get_elem?-take, get_elem?-take_beyond, take-take, length-drop,
  length-take,
}
use sweater.HardwareConcurrency.Text.{Text, strrchr, strrchr-none, strrchr_last, get_elem?-strrchr}
use sweater.HardwareConcurrency.Quota.{Files, read_quota}
use sweater.HardwareConcurrency.Branch.{restrict, scan_up, scan_branch}

-- The directories from `dir` up to the root: `dir` cut at one of its separators.
abbrev pub OnBranch : Text → ℕ → Text → Type 0
OnBranch dir root_len p =
    (p ≡ dir) ⊎ ((i : ℕ) × (root_len ≤ i) × (get_elem? dir i ≡ some b'/') × (p ≡ take i dir))

-- A separator at the root's end or behind it.
separator :
    (dir : Text) (root_len i : ℕ)
    → root_len ≤ i
    → get_elem? (drop root_len dir) (i - root_len) ≡ get_elem? dir i
separator dir root_len i h =
    get_elem?-drop root_len (i - root_len) dir ∙ ap (λ j. get_elem? dir j) (omega (arith, h))

OnBranch-none :
    (dir p : Text) (root_len : ℕ)
    → (length dir ≤ root_len) ⊎ (strrchr (drop root_len dir) b'/' ≡ none)
    → OnBranch dir root_len p
    → p ≡ dir
OnBranch-none dir p root_len e (inl same) = same
OnBranch-none dir p root_len (inl short) (inr (i, h, q, x)) =
    absurd (omega (arith, get_elem?-length dir i q, short, h))
OnBranch-none dir p root_len (inr e) (inr (i, h, q, x)) =
    absurd (strrchr-none b'/' (drop root_len dir) (i - root_len) e (separator dir root_len i h ∙ q))

module _ (dir p : Text) (root_len last_separator : ℕ)
    (e : strrchr (drop root_len dir) b'/' ≡ some last_separator) where
  abbrev shorter : Text
  shorter = take (root_len + last_separator) dir

  OnBranch-above : OnBranch dir root_len p → (p ≡ dir) ⊎ OnBranch shorter root_len p
  OnBranch-above (inl same) = inl same
  OnBranch-above (inr (i, h, q, x)) =
      let le =
        strrchr_last b'/' (drop root_len dir) last_separator (i - root_len) e
          (separator dir root_len i h ∙ q) in
      elim (Bool-cases (i == root_len + last_separator)) [
        | inl last ↦ inr (inl (x ∙ ap (λ j. take j dir) (ground (arith, last))))
        | inr before ↦
            let lt : i < root_len + last_separator = ground (arith, before, le, h) in
            inr (
              inr (
                i,
                h,
                get_elem?-take (root_len + last_separator) i dir lt ∙ q,
                x ∙ sym (take-take i (root_len + last_separator) dir (omega (arith, lt))),
              ))
      ]

  OnBranch-below : OnBranch shorter root_len p → OnBranch dir root_len p
  OnBranch-below (inl same) = inr (
    root_len + last_separator,
    omega arith,
    sym (get_elem?-drop root_len last_separator dir)
        ∙ get_elem?-strrchr b'/' (drop root_len dir) last_separator e,
    same,
  )
  OnBranch-below (inr (i, h, q, x)) = elim (Bool-cases (ltb i (root_len + last_separator))) [
    | inl before ↦
        let lt : i < root_len + last_separator = ground (arith, before) in
        inr (
          i,
          h,
          sym (get_elem?-take (root_len + last_separator) i dir lt) ∙ q,
          x ∙ take-take i (root_len + last_separator) dir (omega (arith, lt)),
        )
    | inr behind ↦
        let beyond =
          get_elem?-take_beyond (root_len + last_separator) i dir (ground (arith, behind)) in
        absurd (cc (beyond, q))
  ]

module _ (files : Files) (v2 : Bool) (root_len : ℕ) where
  -- The loop with a limit from the directories it has been through.
  abbrev Scanned : ℕ → Text → ℤ → (Text → Type 0) → Type 0
  Scanned fuel dir limit InSet =
      (r : ℤ) × (scan_up files v2 root_len fuel dir limit ≡ some r)
      × IsMostRestrictive (read_quota files v2) (λ p. InSet p ⊎ OnBranch dir root_len p) r

  scan_up-last :
      (dir : Text) (limit : ℤ) (InSet : Text → Type 0)
      → (length dir ≤ root_len) ⊎ (strrchr (drop root_len dir) b'/' ≡ none)
      → IsMostRestrictive (read_quota files v2) InSet limit
      → IsMostRestrictive
          (read_quota files v2)
          (λ p. InSet p ⊎ OnBranch dir root_len p)
          (restrict limit (read_quota files v2 dir))
  scan_up-last dir limit InSet e b =
      same_set (read_quota files v2) _ _ _
        (λ p i. elim i [ inl old ↦ inl old | inr new ↦ inr (inl new) ])
        (λ p i. elim i [ inl old ↦ inl old | inr new ↦ inr (OnBranch-none dir p root_len e new) ])
        (restrict_lem (read_quota files v2) InSet dir limit _ refl b)

  scan_up-shorter :
      (dir : Text) (k : ℕ) (limit : ℤ) (InSet : Text → Type 0)
      → strrchr (drop root_len dir) b'/' ≡ some k
      → IsMostRestrictive
          (read_quota files v2)
          (λ p.
            And (read_quota files v2) InSet dir p ⊎ OnBranch (take (root_len + k) dir) root_len p)
          limit
      → IsMostRestrictive (read_quota files v2) (λ p. InSet p ⊎ OnBranch dir root_len p) limit
  scan_up-shorter dir k limit InSet e b =
      same_set (read_quota files v2) _ _ limit
        (λ p i. elim i [
          | inl (inl old) ↦ inl old
          | inl (inr same) ↦ inr (inl same)
          | inr above ↦ inr (OnBranch-below dir p root_len k e above)
        ])
        (λ p i. elim i [
          | inl old ↦ inl (inl old)
          | inr on ↦ elim (OnBranch-above dir p root_len k e on) [
            | inl same ↦ inl (inr same)
            | inr above ↦ inr above
          ]
        ])
        b

  shorter_length :
      (dir : Text) (k : ℕ)
      → strrchr (drop root_len dir) b'/' ≡ some k
      → length (take (root_len + k) dir) < length dir
  shorter_length dir k e =
      let lt =
        get_elem?-length (drop root_len dir) k (get_elem?-strrchr b'/' (drop root_len dir) k e) in
      omega (arith, lt, length-drop root_len dir, length-take (root_len + k) dir)

  scan_up-IsMostRestrictive :
      (fuel : ℕ) (dir : Text) (limit : ℤ) (InSet : Text → Type 0)
      → length dir < fuel
      → IsMostRestrictive (read_quota files v2) InSet limit
      → Scanned fuel dir limit InSet
  unfolding scan_up
  scan_up-IsMostRestrictive zero dir limit InSet f b = absurd (omega (arith, f))
  scan_up-IsMostRestrictive (suc fuel) dir limit InSet f b =
      elim (Bool-cases (leb (length dir) root_len)) [
        | inl short ↦
            rw short (_, refl, scan_up-last dir limit InSet (inl (ground (arith, short))) b)
        | inr long ↦ elim (Option-cases (strrchr (drop root_len dir) b'/')) [
          | inl e ↦ rw (long, e) (_, refl, scan_up-last dir limit InSet (inr e) b)
          | inr (k, e) ↦
              let (r, q, c) =
                scan_up-IsMostRestrictive fuel (take (root_len + k) dir) _ _
                  (omega (arith, shorter_length dir k e, f))
                  (restrict_lem (read_quota files v2) InSet dir limit _ refl b) in
              rw (long, e) (r, q, scan_up-shorter dir k r InSet e c)
        ]
      ]

-- On every file system and for every directory the loop ends within its fuel, and returns the most
-- restrictive quota of the directories from `dir` up to its first `root_len` characters, -1 where
-- none of them has a quota.
pub scan_branch-IsMostRestrictive :
    (files : Files) (dir : Text) (root_len : ℕ) (v2 : Bool)
    → (limit : ℤ) × (scan_branch files dir root_len v2 ≡ some limit)
      × IsMostRestrictive (read_quota files v2) (OnBranch dir root_len) limit
scan_branch-IsMostRestrictive files dir root_len v2 =
    let nothing_seen : IsMostRestrictive (read_quota files v2) (λ p. ⊥) minus_one = record {
      lower = λ p n i. absurd i;
      stated = inl refl;
    } in
    let (limit, e, b) =
      scan_up-IsMostRestrictive files v2 root_len (suc (length dir)) dir minus_one (λ p. ⊥)
        (omega arith) nothing_seen in
    (
      limit,
      e,
      same_set (read_quota files v2) _ _ limit
          (λ p i. elim i [ inl none_there ↦ absurd none_there | inr on ↦ on ]) (λ p on. inr on) b,
    )
