-- ===== src/HardwareConcurrency/Quota.antt =====
-- The CPU quota that one cgroup directory states: read_text, read_int, cpus_from_quota,
-- read_quota_v2 and read_quota_v1 of threading/hardware_concurrency.cpp.
use sweater.Prelude.{
  ℕ, ◌+◌, ◌-◌, ◌/◌, Bool, ◌||◌, [], ◌∷◌, ◌++◌, Option, none, some, ◌==◌, if◌then◌else◌, drop, ℤ,
  pos, negsuc, minus_one, cast_int, max_int,
}
use sweater.HardwareConcurrency.Text.{Text, codes, c_str, snprintf, strtol, atoi}

-- The file system: what open and one read of at most so many bytes deliver from the file of a path,
-- `none` where either fails.
abbrev pub Files : Type 0
Files = Text → ℕ → Option Text

abbrev pub path_size : ℕ
path_size = 512

module _ (files : Files) where
  unfoldable pub read_text : Text → ℕ → Option Text
  read_text file_path size = elim (files file_path (size - 1)) [
    | none ↦ none
    | some [] ↦ none
    | some (c ∷ s) ↦ some (c_str (c ∷ s))
  ]

  unfoldable pub read_int : Text → ℤ
  read_int file_path = elim (read_text file_path 64) [ none ↦ minus_one | some value ↦ atoi value ]

-- A `long` that 64 bits do not hold is undefined in C: here `quota + period / 2` is exact.
unfoldable pub cpus_from_quota : ℤ → ℤ → ℤ
cpus_from_quota (pos quota) (pos period) =
    if quota == 0 || period == 0
    then minus_one
    else max_int (cast_int (pos ((quota + period / 2) / period))) (pos 1)
cpus_from_quota (pos quota) (negsuc period) = minus_one
cpus_from_quota (negsuc quota) (pos period) = minus_one
cpus_from_quota (negsuc quota) (negsuc period) = minus_one

-- The two numbers of a cpu.max
unfoldable pub quota_of_pair : Text → ℤ
quota_of_pair value_pair =
    let quota = strtol value_pair in
    if quota.end == 0
    then minus_one
    else cpus_from_quota quota.value (strtol (drop quota.end value_pair)).value

module _ (files : Files) where
  unfoldable pub read_quota_v2 : Text → ℤ
  read_quota_v2 dir = elim (read_text files (snprintf path_size (dir ++ codes "/cpu.max")) 128) [
    | none ↦ minus_one
    | some value_pair ↦ quota_of_pair value_pair
  ]

  unfoldable pub read_quota_v1 : Text → ℤ
  read_quota_v1 dir =
      let quota = read_int files (snprintf path_size (dir ++ codes "/cpu.cfs_quota_us")) in
      let period = read_int files (snprintf path_size (dir ++ codes "/cpu.cfs_period_us")) in
      cpus_from_quota quota period

  unfoldable pub read_quota : Bool → Text → ℤ
  read_quota v2 dir = if v2 then read_quota_v2 dir else read_quota_v1 dir
