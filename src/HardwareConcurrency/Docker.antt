-- ===== src/HardwareConcurrency/Docker.antt =====
-- get_docker_limit and what the numbers of hardware threads are with it, of
-- threading/hardware_concurrency.cpp.
use sweater.Prelude.{
  ℕ, ◌+◌, ◌-◌, ◌%◌, Bool, true, false, [], ◌++◌, Option, none, some, length, if◌then◌else◌, ℤ, pos,
  negsuc, is_minus_one, min_int,
}
use sweater.HardwareConcurrency.Text.{Text, codes, snprintf}
use sweater.HardwareConcurrency.Quota.{Files, path_size, read_text}
use sweater.HardwareConcurrency.Branch.{scan_branch}
use sweater.HardwareConcurrency.SelfCgroup.{self_cgroup}

abbrev pub proc_self_cgroup : Text
proc_self_cgroup = codes "/proc/self/cgroup"

-- v2_root and v1_root
abbrev pub root_of : Bool → Text
root_of true = codes "/sys/fs/cgroup"
root_of false = codes "/sys/fs/cgroup/cpu"

-- Which of the limits of the hierarchies wins.
unfoldable pub lower_limit : ℤ → ℤ → ℤ
lower_limit v2_limit v1_limit =
    if is_minus_one v2_limit
    then v1_limit
    else if is_minus_one v1_limit
    then v2_limit
    else min_int v2_limit v1_limit

module _ (files : Files) where
  unfoldable pub proc_self : Text
  proc_self = elim (read_text files proc_self_cgroup 1024) [ none ↦ [] | some text ↦ text ]

  -- The directory of the process's own cgroup: `dir`
  unfoldable pub own_dir : Bool → Text
  own_dir v2 =
      snprintf (path_size + (length (root_of false) + 1))
        (root_of v2 ++ self_cgroup proc_self v2 path_size)

  unfoldable pub get_docker_limit : Option ℤ
  get_docker_limit = elim (scan_branch files (own_dir true) (length (root_of true)) true) [
    | none ↦ none
    | some v2_limit ↦ elim (scan_branch files (own_dir false) (length (root_of false)) false) [
      | none ↦ none
      | some v1_limit ↦ some (lower_limit v2_limit v1_limit)
    ]
  ]

-- A cast to hardware_concurrency_t.
abbrev pub cast_hc : ℕ → ℤ → ℕ
cast_hc hc_values (pos n) = n % hc_values
cast_hc hc_values (negsuc n) = hc_values - 1 - n % hc_values

-- get_hardware_concurrency_max and hardware_concurrency_current differ in the operating system's
-- function that counts the processors: get_nprocs_conf, get_nprocs.
unfoldable pub get_hardware_concurrency : ℕ → ℤ → ℤ → ℕ
get_hardware_concurrency hc_values docker_quota nprocs =
    cast_hc hc_values (if is_minus_one docker_quota then nprocs else docker_quota)
