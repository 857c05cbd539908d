-- ===== src/HardwareConcurrency/SelfCgroup.antt =====
-- self_cgroup of threading/hardware_concurrency.cpp, and what it is to find in a /proc/self/cgroup.
use sweater.Prelude.{
  ℕ, zero, suc, ◌+◌, ◌-◌, ◌<◌, min, ◌≡◌, Bool, true, false, List, [], ◌∷◌, ◌++◌, Option, none, some,
  length, take, drop, ltb, ◌==◌, ◌&&◌, if◌then◌else◌,
}
use sweater.HardwareConcurrency.Text.{Text, codes, strchr, is_text}
use sweater.HardwareConcurrency.Controllers.{has_cpu_controller, entries, is_listed}

-- The third field of a line, if it has three: where its colon is.
unfoldable pub field3_of : Text → ℕ → ℕ → Option ℕ
field3_of line line_end field2 =
    if ltb field2 line_end
    then elim (strchr (drop (field2 + 1) line) b':') [
      | none ↦ none
      | some i ↦ if ltb (field2 + 1 + i) line_end then some (field2 + 1 + i) else none
    ]
    else none

unfoldable pub matches : Bool → Text → ℕ → ℕ → Bool
matches v2 line field2 field3 =
    if v2
    then field2 + 1 == field3
    else has_cpu_controller (drop (field2 + 1) line) (field3 - (field2 + 1))

-- What the line gives, where it is the one looked for.
unfoldable pub path_of_line : Bool → ℕ → Text → ℕ → Option Text
path_of_line v2 size line line_end = elim (strchr line b':') [
  | none ↦ none
  | some field2 ↦ elim (field3_of line line_end field2) [
    | none ↦ none
    | some field3 ↦
        let length = min (line_end - field3 - 1) (size - 1) in
        let out = take length (drop (field3 + 1) line) in
        if matches v2 line field2 field3
        then some (if length == 1 && is_text out (codes "/") then [] else out)
        else none
  ]
]

abbrev pub line_end_of : Option ℕ → Text → ℕ
line_end_of none line = length line
line_end_of (some eol) line = eol

-- The rounds of the loop, on fuel: each takes a line.
unfoldable pub scan_lines : ℕ → Bool → ℕ → Text → Text
scan_lines zero v2 size line = []
scan_lines (suc fuel) v2 size [] = []
scan_lines (suc fuel) v2 size (c ∷ s) =
    let line = c ∷ s in
    let eol = strchr line b'\n' in
    let later = scan_lines fuel v2 size (drop (line_end_of eol line + 1) line) in
    elim (path_of_line v2 size line (line_end_of eol line)) [ none ↦ later | some path ↦ path ]

abbrev pub self_cgroup : Text → Bool → ℕ → Text
self_cgroup proc_self_cgroup v2 size = scan_lines (length proc_self_cgroup) v2 size proc_self_cgroup

-- A line of the file.
pub record Membership : Type 0 where
  pub id : Text
  pub controllers : Text
  pub path : Text

abbrev pub Lacks : ℕ → Text → Type 0
Lacks c s = strchr s c ≡ none

pub record IsLine (size : ℕ) (m : Membership) : Type 0 where
  pub id_colon : Lacks b':' m.id
  pub id_eol : Lacks b'\n' m.id
  pub controllers_colon : Lacks b':' m.controllers
  pub controllers_eol : Lacks b'\n' m.controllers
  pub path_eol : Lacks b'\n' m.path
  pub path_fits : length m.path < size

abbrev pub line : Membership → Text → Text
line m rest = m.id ++ b':' ∷ (m.controllers ++ b':' ∷ (m.path ++ b'\n' ∷ rest))

abbrev pub lines : List Membership → Text
lines [] = []
lines (m ∷ ms) = line m (lines ms)

-- The unified hierarchy has no controllers, and `cpu` is among those of the one looked for in v1.
abbrev pub in_hierarchy : Bool → Membership → Bool
in_hierarchy true m = length m.controllers == 0
in_hierarchy false m = is_listed (entries m.controllers [])

abbrev pub own_path : Bool → List Membership → Text
own_path v2 [] = []
own_path v2 (m ∷ ms) =
    if in_hierarchy v2 m
    then (if is_text m.path (codes "/") then [] else m.path)
    else own_path v2 ms

abbrev pub AreLines : ℕ → List Membership → Type 0
AreLines size [] = Unit
AreLines size (m ∷ ms) = IsLine size m × AreLines size ms
