-- ===== src/Examples/HardwareConcurrency.antt =====
-- A nested control group of a host with both hierarchies, on which the theorems of
-- HardwareConcurrency hold.
use sweater.HardwareConcurrency.Lines.{self_cgroup-lines}
use sweater.Prelude.{
  ℕ, ◌≡◌, refl, true, [], ◌∷◌, Option, none, some, if◌then◌else◌, List, arith, ℤ, pos, take, ◌<◌,
  ◌≤◌, Bool, false, ◌⊎◌, inr,
}
use sweater.Shop.Config.{Config, number_of_workers, new_shop}
use sweater.Shop.Sizing.{number_of_workers-get_docker_limit}
use sweater.HardwareConcurrency.Text.{
  Text, codes, strchr, is_text, decimal, strrchr, strtol, atoi, span,
}
use sweater.HardwareConcurrency.Quota.{
  Files, read_quota, cpus_from_quota, read_text, read_quota_v1, read_quota_v2, quota_of_pair,
  read_int,
}
use sweater.HardwareConcurrency.Branch.{scan_branch, scan_up, restrict}
use sweater.HardwareConcurrency.Restrictive.{IsMostRestrictive}
use sweater.HardwareConcurrency.Scan.{OnBranch, scan_branch-IsMostRestrictive}
use sweater.HardwareConcurrency.Controllers.{scan_entries}
use sweater.HardwareConcurrency.SelfCgroup.{
  Membership, AreLines, lines, self_cgroup, own_path, scan_lines, path_of_line, field3_of, matches,
}
use sweater.HardwareConcurrency.Docker.{
  get_docker_limit, get_hardware_concurrency, own_dir, proc_self, lower_limit,
}
use sweater.HardwareConcurrency.Limit.{
  Shows, quota_at, OnBranches, expected_dir, get_docker_limit-HasQuota,
}
use sweater.HardwareConcurrency.Reading.{IsNumber, IsRounded}
use sweater.HardwareConcurrency.Agreement.{States, HasQuota, read_quota-States}

abbrev memberships : List Membership
memberships =
    record { id = codes "7"; controllers = codes "cpuset,cpu"; path = codes "/" }
    ∷ record { id = codes "0"; controllers = []; path = codes "/a/b" }
    ∷ []

abbrev look_up : List (Text × Text) → Text → Option Text
look_up [] path = none
look_up ((p, s) ∷ rest) path = if is_text p path then some s else look_up rest path

-- The group /a allows 2 CPUs, /a/b 4, and the root of the other hierarchy 3.
abbrev host : Files
host path limit =
    elim (look_up
      ((codes "/proc/self/cgroup", lines memberships)
        ∷ (codes "/sys/fs/cgroup/a/cpu.max", codes "200000 100000\n")
        ∷ (codes "/sys/fs/cgroup/a/b/cpu.max", codes "400000 100000\n")
        ∷ (codes "/sys/fs/cgroup/a/cpu.cfs_quota_us", codes "200000\n")
        ∷ (codes "/sys/fs/cgroup/a/cpu.cfs_period_us", codes "100000\n")
        ∷ (codes "/sys/fs/cgroup/cpu/cpu.cfs_quota_us", codes "300000\n")
        ∷ (codes "/sys/fs/cgroup/cpu/cpu.cfs_period_us", codes "100000\n")
        ∷ [])
      path) [ none ↦ none | some s ↦ some (take limit s) ]

memberships-AreLines : AreLines 512 memberships
unfolding strchr
memberships-AreLines = (
  record {
    id_colon = refl;
    id_eol = refl;
    controllers_colon = refl;
    controllers_eol = refl;
    path_eol = refl;
    path_fits = omega arith;
  },
  (
    record {
      id_colon = refl;
      id_eol = refl;
      controllers_colon = refl;
      controllers_eol = refl;
      path_eol = refl;
      path_fits = omega arith;
    },
    tt,
  ),
)

host-Shows : Shows host memberships
unfolding strchr
host-Shows = record { read = refl; no_nul = refl; are_lines = memberships-AreLines }

limit_2 : get_docker_limit host ≡ some (pos 2)
unfolding get_docker_limit own_dir proc_self read_text scan_lines path_of_line field3_of matches
    strchr strrchr scan_entries lower_limit scan_up restrict read_quota read_quota_v1 read_quota_v2
    quota_of_pair read_int cpus_from_quota strtol atoi span
limit_2 = refl

scan_branch-IsMostRestrictive_example :
    (limit : ℤ) × (scan_branch host (codes "/sys/fs/cgroup/a/b") 14 true ≡ some limit)
    × IsMostRestrictive (read_quota host true) (OnBranch (codes "/sys/fs/cgroup/a/b") 14) limit
scan_branch-IsMostRestrictive_example =
    scan_branch-IsMostRestrictive host (codes "/sys/fs/cgroup/a/b") 14 true

self_cgroup-lines_example : self_cgroup (lines memberships) true 512 ≡ own_path true memberships
self_cgroup-lines_example = self_cgroup-lines 512 true memberships memberships-AreLines

IsNumber-200000 : IsNumber (codes "200000")
IsNumber-200000 = record {
  some_digit = omega arith;
  all_digits = (refl, (refl, (refl, (refl, (refl, (refl, tt))))));
  is_long = omega arith;
}

IsNumber-100000 : IsNumber (codes "100000")
IsNumber-100000 = record {
  some_digit = omega arith;
  all_digits = (refl, (refl, (refl, (refl, (refl, (refl, tt))))));
  is_long = omega arith;
}

States-2 : States host (codes "/sys/fs/cgroup/a") (codes "200000") (codes "100000")
States-2 = record {
  named = omega arith;
  quota_digits = IsNumber-200000;
  period_digits = IsNumber-100000;
  quota_int = omega arith;
  period_int = omega arith;
  cpu_max = refl;
  cfs_quota = refl;
  cfs_period = refl;
}

read_quota-States_example :
    (cpus : ℕ) × ((v2 : Bool) → read_quota host v2 (codes "/sys/fs/cgroup/a") ≡ pos cpus)
    × (1 ≤ cpus)
    × IsRounded (decimal (codes "200000")) (decimal (codes "100000")) cpus
read_quota-States_example =
    read_quota-States host (codes "/sys/fs/cgroup/a") (codes "200000") (codes "100000") States-2
      (omega arith) (omega arith)

HasQuota-2 : HasQuota host true (codes "/sys/fs/cgroup/a") (codes "200000") (codes "100000")
HasQuota-2 = record {
  named = omega arith;
  quota_digits = IsNumber-200000;
  period_digits = IsNumber-100000;
  quota_int = omega arith;
  period_int = omega arith;
  content = refl;
}

a-OnBranch : OnBranch (expected_dir memberships true) 14 (codes "/sys/fs/cgroup/a")
a-OnBranch = inr (16, omega arith, refl, refl)

get_docker_limit-HasQuota_example :
    (limit : ℕ) × (cpus : ℕ) × (get_docker_limit host ≡ some (pos limit))
    × (1 ≤ limit)
    × (limit ≤ cpus)
    × IsRounded (decimal (codes "200000")) (decimal (codes "100000")) cpus
    × IsMostRestrictive (quota_at host) (OnBranches (expected_dir memberships)) (pos limit)
get_docker_limit-HasQuota_example =
    get_docker_limit-HasQuota host memberships true (codes "/sys/fs/cgroup/a") (codes "200000")
      (codes "100000") host-Shows a-OnBranch HasQuota-2 (omega arith) (omega arith)

-- At most 6 workers, one of them the caller.
abbrev phone : Config
phone = record {
  hc_values = 256;
  use_caller_thread = true;
  exact_worker_selection = true;
  use_parallelization_cost = false;
  slow_thread_signals = false;
  single_core_fallback = true;
}

number_of_workers-get_docker_limit_example :
    let workers =
      number_of_workers phone (new_shop phone 6 (get_hardware_concurrency 256 (pos 2) (pos 8))) in
    (cpus : ℕ) × (0 < workers)
    × ((◌≡◌ {A = ℕ} 6 0) ⊎ (workers ≤ 6))
    × (workers ≤ cpus)
    × IsRounded (decimal (codes "200000")) (decimal (codes "100000")) cpus
number_of_workers-get_docker_limit_example =
    number_of_workers-get_docker_limit phone 6 host memberships 8 (pos 2) true
      (codes "/sys/fs/cgroup/a") (codes "200000") (codes "100000") host-Shows a-OnBranch HasQuota-2
      (omega arith) (omega arith) limit_2 (omega arith) (omega arith) refl
