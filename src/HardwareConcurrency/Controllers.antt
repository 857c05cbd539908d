-- ===== src/HardwareConcurrency/Controllers.antt =====
-- has_cpu_controller of threading/hardware_concurrency.cpp, and what it is to find: an entry of the
-- list that the commas separate.
use mathlib.Core.List.{append-nil, append_assoc}
use sweater.Prelude.{
  ℕ, zero, suc, ◌+◌, ◌-◌, ◌≤◌, ◌≡◌, refl, Bool, true, false, ◌&&◌, ◌||◌, List, [], ◌∷◌, ◌++◌,
  Option, none, some, length, take, drop, ltb, ◌==◌, if◌then◌else◌, arith, not, Bool-cases,
  Option-cases, inl, inr, length-take, length-drop, ap, ◌<◌, drop-take, take-take, ◌∙◌,
}
use sweater.HardwareConcurrency.Text.{Text, codes, strchr, strncmp_eq, is_text, is_text-length}

abbrev pub cpu : Text
cpu = codes "cpu"

-- Where the entry ends: at the first comma, unless that lies behind the end of the list.
abbrev pub entry_end : Option ℕ → ℕ → ℕ
entry_end none end = end
entry_end (some comma) end = if ltb end comma then end else comma

-- The rounds of the loop, on fuel, as many as the list has characters: `entry` is what is left of
-- the text and `end` the end of the list in it.
unfoldable pub scan_entries : ℕ → Text → ℕ → Bool
scan_entries zero entry end = false
scan_entries (suc fuel) entry end =
    let n = entry_end (strchr entry b',') end in
    let later = scan_entries fuel (drop (n + 1) entry) (end - (n + 1)) in
    if not (ltb 0 end) then false else if n == 3 && strncmp_eq entry cpu 3 then true else later

abbrev pub has_cpu_controller : Text → ℕ → Bool
has_cpu_controller entry end = scan_entries end entry end

-- The entries of a comma separated list.
abbrev pub entries : Text → Text → List Text
entries [] entry = entry ∷ []
entries (c ∷ s) entry = if c == b',' then entry ∷ entries s [] else entries s (entry ++ c ∷ [])

abbrev pub is_listed : List Text → Bool
is_listed [] = false
is_listed (e ∷ es) = is_text e cpu || is_listed es

-- The list is its first entry, and what is behind the comma.
entries_at_comma :
    (s : Text) (k : ℕ) (entry : Text)
    → strchr s b',' ≡ some k
    → entries s entry ≡ (entry ++ take k s) ∷ entries (drop (suc k) s) []
unfolding strchr
entries_at_comma [] k entry e = absurd (cc)
entries_at_comma (c ∷ s) zero entry e = grind (arith, append-nil)
entries_at_comma (c ∷ s) (suc k) entry e =
    grind (arith, append_assoc, entries_at_comma s k (entry ++ c ∷ []))

entries_one : (s : Text) (entry : Text) → strchr s b',' ≡ none → entries s entry ≡ (entry ++ s) ∷ []
unfolding strchr
entries_one [] entry e = grind (arith, append-nil)
entries_one (c ∷ s) entry e = grind (arith, append_assoc, entries_one s (entry ++ c ∷ []))

strchr-take :
    (s : Text) (c n : ℕ)
    → strchr (take n s) c
      ≡ elim (strchr s c) [ none ↦ none | some k ↦ if ltb k n then some k else none ]
unfolding strchr
strchr-take s c zero = elim (Option-cases (strchr s c)) [
  | inl e ↦ rw e refl
  | inr (k, e) ↦ rw e (ground arith)
]
strchr-take [] c (suc n) = refl
strchr-take (x ∷ s) c (suc n) = ground (arith, strchr-take s c n)

is_cpu : (s : Text) (k : ℕ) → k ≤ length s → is_text (take k s) cpu ≡ (k == 3 && strncmp_eq s cpu 3)
is_cpu s k h = elim (Bool-cases (k == 3)) [
  | inl three ↦ let e : k ≡ 3 = ground (arith, three) in rw e (ground arith)
  | inr other ↦ ground (arith, is_text-length (take k s) cpu, length-take k s, other)
]

scan_entries_end : (fuel : ℕ) (s : Text) → scan_entries fuel s 0 ≡ false
unfolding scan_entries
scan_entries_end zero s = refl
scan_entries_end (suc fuel) s = refl

scan_entries_past : (fuel : ℕ) (s : Text) (n k : ℕ) → n ≤ k → scan_entries fuel s (n - k) ≡ false
scan_entries_past fuel s n k h =
    ap (λ m. scan_entries fuel s m) (omega (arith, h)) ∙ scan_entries_end fuel s

-- The entry that a round looks at, and the rest of the list.
entries-last :
    (s : Text) (n : ℕ)
    → strchr (take n s) b',' ≡ none
    → entry_end (strchr s b',') n ≡ n
    → n ≤ length s
    → is_listed (entries (take n s) []) ≡ (entry_end (strchr s b',') n == 3 && strncmp_eq s cpu 3)
entries-last s n e m h = rw (entries_one (take n s) [] e, m, is_cpu s n h) (ground arith)

entries-comma :
    (s : Text) (n k : ℕ)
    → strchr s b',' ≡ some k
    → k < n
    → n ≤ length s
    → is_listed (entries (take n s) []) ≡ (
        (k == 3 && strncmp_eq s cpu 3)
        || is_listed (entries (take (n - suc k) (drop (suc k) s)) []))
entries-comma s n k e lt h =
    rw
      (
        entries_at_comma (take n s) k [] (strchr-take s b',' n ∙ rw e (ground (arith, lt))),
        take-take k n s (omega (arith, lt)),
        drop-take (suc k) n s,
        is_cpu s k (omega (arith, lt, h)),
      )
      refl

-- Every round but the last ends at a comma.
scan_entries-is_listed :
    (fuel : ℕ) (s : Text) (n : ℕ)
    → n ≤ fuel
    → n ≤ length s
    → scan_entries fuel s n ≡ is_listed (entries (take n s) [])
unfolding scan_entries
scan_entries-is_listed fuel s zero f h = scan_entries_end fuel s
scan_entries-is_listed zero s (suc n) f h = absurd (omega arith)
scan_entries-is_listed (suc fuel) s (suc n) f h = elim (Option-cases (strchr s b',')) [
  | inl e ↦ ground (
    arith,
    entries-last s (suc n) (strchr-take s b',' (suc n) ∙ rw e refl) (rw e refl) h,
    e,
    scan_entries_past fuel (drop (suc n + 1) s) (suc n) (suc n + 1) (omega arith),
  )
  | inr (k, e) ↦ elim (Bool-cases (ltb k (suc n))) [
    | inl inside ↦
        let lt : k < suc n = ground (arith, inside) in
        ground (
          arith,
          entries-comma s (suc n) k e lt h,
          e,
          scan_entries-is_listed fuel (drop (suc k) s) (suc n - suc k) (omega (arith, f, lt))
              (omega (arith, length-drop (suc k) s, h)),
        )
    | inr beyond ↦ ground (
      arith,
      e,
      entries-last s (suc n) (strchr-take s b',' (suc n) ∙ rw (e, beyond) refl)
          (rw e (ground (arith, beyond))) h,
      scan_entries_past fuel (drop (suc n + 1) s) (suc n) (suc n + 1) (omega arith),
    )
  ]
]

-- has_cpu_controller holds just if `cpu` is one of the entries that the commas separate, for every
-- text and every end of the list within it.
pub has_cpu_controller-is_listed :
    (s : Text) (n : ℕ) → n ≤ length s → has_cpu_controller s n ≡ is_listed (entries (take n s) [])
has_cpu_controller-is_listed s n h = scan_entries-is_listed n s n (omega arith) h
