-- ===== src/HardwareConcurrency/Lines.antt =====
-- What self_cgroup finds in a file of lines.
use sweater.HardwareConcurrency.SelfCgroup.{
  field3_of, matches, path_of_line, line_end_of, scan_lines, self_cgroup, Membership, IsLine, line,
  lines, in_hierarchy, own_path, AreLines,
}
use sweater.Prelude.{
  ℕ, zero, suc, ◌+◌, ◌-◌, ◌≤◌, ◌<◌, min, ◌≡◌, refl, Bool, true, false, List, [], ◌∷◌, ◌++◌, none,
  some, length, take, drop, ◌==◌, ◌&&◌, if◌then◌else◌, arith, Option-cases, inl, inr,
  drop-append_more, take-append, ap, ◌∙◌, length-append, Bool-cases,
}
use sweater.HardwareConcurrency.Text.{Text, codes, strchr, is_text, is_text-length}
use sweater.HardwareConcurrency.Controllers.{has_cpu_controller-is_listed}

strchr-append :
    (s t : Text) (c : ℕ)
    → strchr s c ≡ none
    → strchr (s ++ t) c ≡ elim (strchr t c) [ none ↦ none | some i ↦ some (length s + i) ]
unfolding strchr
strchr-append [] t c e = elim (Option-cases (strchr t c)) [
  | inl f ↦ rw f refl
  | inr (i, f) ↦ rw f (ground arith)
]
strchr-append (x ∷ s) t c e = ground (arith, strchr-append s t c)

strchr-found : (s t : Text) (c : ℕ) → strchr s c ≡ none → strchr (s ++ c ∷ t) c ≡ some (length s)
strchr-found s t c e = rw (strchr-append s (c ∷ t) c e) (unfold strchr in ground arith)

strchr-later :
    (s t : Text) (x c i : ℕ)
    → strchr s c ≡ none
    → (x == c) ≡ false
    → strchr t c ≡ some i
    → strchr (s ++ x ∷ t) c ≡ some (length s + suc i)
strchr-later s t x c i e other f =
    rw (strchr-append s (x ∷ t) c e) (unfold strchr in rw (other, f) refl)

root_path : (s : Text) → (length s == 1 && is_text s (codes "/")) ≡ is_text s (codes "/")
root_path s = elim (Bool-cases (is_text s (codes "/"))) [
  | inl root ↦ rw root (ground (arith, is_text-length s (codes "/") root))
  | inr other ↦ rw other (ground arith)
]

module _ (size : ℕ) (m : Membership) (rest : Text) (w : IsLine size m) where
  abbrev behind_id : Text
  behind_id = m.controllers ++ b':' ∷ (m.path ++ b'\n' ∷ rest)

  abbrev eol : ℕ
  eol = length m.id + suc (length m.controllers + suc (length m.path))

  eol_lem : strchr (line m rest) b'\n' ≡ some eol
  eol_lem = strchr-later m.id behind_id b':' b'\n' _ w.id_eol refl (
      strchr-later m.controllers _ b':' b'\n' _ w.controllers_eol refl
        (strchr-found m.path rest b'\n' w.path_eol))

  behind_colon : drop (length m.id + 1) (line m rest) ≡ behind_id
  behind_colon = drop-append_more m.id (b':' ∷ behind_id) 1

  field3_lem :
      field3_of (line m rest) eol (length m.id) ≡ some (length m.id + 1 + length m.controllers)
  field3_lem =
      unfold field3_of in
      rw
        (behind_colon, strchr-found m.controllers (m.path ++ b'\n' ∷ rest) b':' w.controllers_colon)
        (ground arith)

  matches_lem :
      (v2 : Bool)
      → matches v2 (line m rest) (length m.id) (length m.id + 1 + length m.controllers)
        ≡ in_hierarchy v2 m
  unfolding matches
  matches_lem true = ground arith
  matches_lem false =
      let n : length m.id + 1 + length m.controllers - (length m.id + 1) ≡ length m.controllers =
        omega arith in
      rw
        (
          behind_colon,
          n,
          has_cpu_controller-is_listed behind_id (length m.controllers)
              (omega (arith, length-append m.controllers (b':' ∷ (m.path ++ b'\n' ∷ rest)))),
          take-append m.controllers (b':' ∷ (m.path ++ b'\n' ∷ rest)),
        )
        refl

  behind_controllers :
      drop (length m.id + 1 + length m.controllers + 1) (line m rest) ≡ m.path ++ b'\n' ∷ rest
  behind_controllers =
      ap (λ n. drop n (line m rest)) (omega arith)
      ∙ drop-append_more m.id (b':' ∷ behind_id) (suc (length m.controllers + 1))
      ∙ drop-append_more m.controllers (b':' ∷ (m.path ++ b'\n' ∷ rest)) 1

  path_length : min (eol - (length m.id + 1 + length m.controllers) - 1) (size - 1) ≡ length m.path
  path_length = omega (arith, w.path_fits)

  path_lem :
      take (length m.path) (drop (length m.id + 1 + length m.controllers + 1) (line m rest))
      ≡ m.path
  path_lem = rw behind_controllers (take-append m.path (b'\n' ∷ rest))

  -- The path without the root's slash.
  abbrev shown : Text
  shown = if is_text m.path (codes "/") then [] else m.path

  path_of_line_lem :
      (v2 : Bool)
      → path_of_line v2 size (line m rest) eol ≡ (if in_hierarchy v2 m then some shown else none)
  unfolding path_of_line
  path_of_line_lem v2 =
      rw
        (
          strchr-found m.id behind_id b':' w.id_colon,
          field3_lem,
          path_length,
          path_lem,
          matches_lem v2,
          root_path m.path,
          path_of_line,
        )
        refl

  after_line : drop (eol + 1) (line m rest) ≡ rest
  after_line =
      ap (λ n. drop n (line m rest)) (omega arith)
      ∙ drop-append_more m.id (b':' ∷ behind_id)
          (suc (length m.controllers + suc (length m.path + 1)))
      ∙ drop-append_more m.controllers (b':' ∷ (m.path ++ b'\n' ∷ rest)) (suc (length m.path + 1))
      ∙ drop-append_more m.path (b'\n' ∷ rest) 1

length-line : (m : Membership) (rest : Text) → length rest < length (line m rest)
length-line m rest = omega (
  arith,
  length-append m.id (b':' ∷ (m.controllers ++ b':' ∷ (m.path ++ b'\n' ∷ rest))),
  length-append m.controllers (b':' ∷ (m.path ++ b'\n' ∷ rest)),
  length-append m.path (b'\n' ∷ rest),
)

-- One round, at a line that has a colon.
scan_lines_round :
    (fuel : ℕ) (v2 : Bool) (size colon : ℕ) (s : Text)
    → strchr s b':' ≡ some colon
    → scan_lines (suc fuel) v2 size s
      ≡ elim (path_of_line v2 size s (line_end_of (strchr s b'\n') s)) [
        | none ↦ scan_lines fuel v2 size (drop (line_end_of (strchr s b'\n') s + 1) s)
        | some path ↦ path
      ]
unfolding scan_lines
scan_lines_round fuel v2 size colon [] e = absurd (unfold strchr in cc)
scan_lines_round fuel v2 size colon (c ∷ s) e = refl

scan_lines-lines :
    (fuel : ℕ) (v2 : Bool) (size : ℕ) (ms : List Membership)
    → length (lines ms) ≤ fuel
    → AreLines size ms
    → scan_lines fuel v2 size (lines ms) ≡ own_path v2 ms
scan_lines-lines zero v2 size [] f w = unfold scan_lines in refl
scan_lines-lines (suc fuel) v2 size [] f w = unfold scan_lines in refl
scan_lines-lines zero v2 size (m ∷ ms) f (w, ws) =
    absurd (omega (arith, f, length-line m (lines ms)))
scan_lines-lines (suc fuel) v2 size (m ∷ ms) f (w, ws) =
    let round =
      scan_lines_round fuel v2 size _ (line m (lines ms)) (strchr-found m.id _ b':' w.id_colon) in
    let eol_here = eol_lem size m (lines ms) w in
    let path_here = path_of_line_lem size m (lines ms) w v2 in
    elim (Bool-cases (in_hierarchy v2 m)) [
      | inl own ↦ rw (round, eol_here, path_here, own) refl
      | inr other ↦
          rw (round, eol_here, path_here, other, eol_here, after_line size m (lines ms) w)
            (scan_lines-lines fuel v2 size ms (omega (arith, f, length-line m (lines ms))) ws)
    ]

-- The path that self_cgroup finds in a file of lines is that of the first line of its hierarchy, and
-- empty for the hierarchy's root and where there is no such line. Each line has three fields: the
-- first two have no colon and no line's end, the path has no line's end and fits the buffer.
pub self_cgroup-lines :
    (size : ℕ) (v2 : Bool) (ms : List Membership)
    → AreLines size ms
    → self_cgroup (lines ms) v2 size ≡ own_path v2 ms
self_cgroup-lines size v2 ms w = scan_lines-lines (length (lines ms)) v2 size ms (omega arith) w
