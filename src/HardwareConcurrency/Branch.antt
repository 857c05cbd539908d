-- ===== src/HardwareConcurrency/Branch.antt =====
-- scan_branch of threading/hardware_concurrency.cpp: the walk from a cgroup's directory up to the
-- hierarchy's root.
use sweater.Prelude.{
  ℕ, zero, suc, ◌+◌, Bool, Option, none, some, length, take, drop, leb, if◌then◌else◌, ℤ, minus_one,
  is_positive, is_minus_one, min_int,
}
use sweater.HardwareConcurrency.Text.{Text, strrchr}
use sweater.HardwareConcurrency.Quota.{Files, read_quota}

-- What one directory's quota does to the limit.
unfoldable pub restrict : ℤ → ℤ → ℤ
restrict limit quota =
    if is_positive quota then (if is_minus_one limit then quota else min_int limit quota) else limit

module _ (files : Files) (v2 : Bool) (root_len : ℕ) where
  -- The rounds of the loop, on fuel.
  unfoldable pub scan_up : ℕ → Text → ℤ → Option ℤ
  scan_up zero dir limit = none
  scan_up (suc fuel) dir limit =
      let restricted = restrict limit (read_quota files v2 dir) in
      if leb (length dir) root_len
      then some restricted
      else elim (strrchr (drop root_len dir) b'/') [
        | none ↦ some restricted
        | some last_separator ↦ scan_up fuel (take (root_len + last_separator) dir) restricted
      ]

-- Each round shortens `dir`.
abbrev pub scan_branch : Files → Text → ℕ → Bool → Option ℤ
scan_branch files dir root_len v2 = scan_up files v2 root_len (suc (length dir)) dir minus_one
