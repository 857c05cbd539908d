-- ===== src/Shop/Sizing.antt =====
-- The number of workers of a shop that its constructor has just made.
use native.Mathlib.Nat.{mod-eq_of_lt}
use sweater.HardwareConcurrency.Agreement.{HasQuota, read_quota-HasQuota}
use sweater.HardwareConcurrency.Reading.{IsRounded}
use sweater.HardwareConcurrency.Scan.{OnBranch}
use sweater.HardwareConcurrency.Text.{Text, decimal}
use sweater.HardwareConcurrency.Bound.{get_hardware_concurrency-get_docker_limit}
use sweater.HardwareConcurrency.Docker.{root_of, get_docker_limit, get_hardware_concurrency}
use sweater.HardwareConcurrency.Limit.{Shows, Cgroup, quota_at, OnBranches, expected_dir}
use sweater.HardwareConcurrency.Quota.{Files}
use sweater.HardwareConcurrency.SelfCgroup.{Membership}
use sweater.Prelude.{
  ℕ, ◌+◌, ◌-◌, ◌%◌, ◌≤◌, ◌<◌, ◌≡◌, true, false, List, some, arith, ℤ, pos, le_int, Bool, to_int,
  subst, sym, ◌⊎◌, inl, inr, length, ◌==◌, Bool-cases,
}
use sweater.Shop.Config.{Config, number_of_workers, new_shop, local_hardware_concurrency}

-- What a shop for n hardware threads is to satisfy.
module _ (hc_values most n : ℕ) where
  abbrev Sized : ℕ → Type 0
  Sized workers = (0 < workers) × (workers ≤ n) × (0 < most → workers ≤ most)

  -- The caller's place is taken off and put back.
  number_of_workers_lem :
      (k : ℕ) (t : Bool) → k < hc_values → Sized k → Sized ((k - to_int t + to_int t) % hc_values)
  number_of_workers_lem k t fits s =
      let back : k - to_int t + to_int t ≡ k = restored t in
      subst Sized (sym (rw back (mod-eq_of_lt fits))) s
    where
      restored : (t : Bool) → k - to_int t + to_int t ≡ k
      restored true = omega (arith, s.1)
      restored false = omega arith

local_hardware_concurrency-Sized :
    (hc_values most n : ℕ) → 0 < n → Sized hc_values most n (local_hardware_concurrency most n)
unfolding local_hardware_concurrency
local_hardware_concurrency-Sized hc_values most n p = ground arith

number_of_workers-new_shop :
    (cfg : Config) (most n : ℕ)
    → 0 < n
    → n < cfg.hc_values
    → Sized cfg.hc_values most n (number_of_workers cfg (new_shop cfg most n))
number_of_workers-new_shop cfg most n p fits =
    let (lo, le, up) = local_hardware_concurrency-Sized cfg.hc_values most n p in
    number_of_workers_lem cfg.hc_values most n (local_hardware_concurrency most n)
      cfg.use_caller_thread (omega (arith, le, fits)) (lo, le, up)

-- By the quotas that are read.
number_of_workers_by_limit :
    (cfg : Config) (most : ℕ) (files : Files) (ms : List Membership) (nprocs : ℕ) (limit : ℤ)
    → Shows files ms
    → get_docker_limit files ≡ some limit
    → 0 < nprocs
    → nprocs < cfg.hc_values
    → le_int limit (pos (cfg.hc_values - 1)) ≡ true
    → let workers =
        number_of_workers cfg
          (new_shop cfg most (get_hardware_concurrency cfg.hc_values limit (pos nprocs))) in
      (0 < workers)
      × (0 < most → workers ≤ most)
      × ((c : Cgroup) (quota : ℕ)
          → OnBranches (expected_dir ms) c
          → quota_at files c ≡ pos quota
          → 0 < quota
          → workers ≤ quota)
number_of_workers_by_limit cfg most files ms nprocs limit w e lo hi fits =
    let (positive, small, obeys) =
      get_hardware_concurrency-get_docker_limit files ms cfg.hc_values nprocs limit w e lo hi
        fits in
    let n = get_hardware_concurrency cfg.hc_values limit (pos nprocs) in
    let (some_worker, at_most, bounded) = number_of_workers-new_shop cfg most n positive small in
    (some_worker, bounded, λ c q i r p. omega (arith, at_most, obeys c q i r p))

-- A shop that its constructor has just made has at least one worker, its own threads and the caller
-- counted where the configuration counts it, no more workers than PSI_SWEATER_MAX_HARDWARE_CONCURRENCY
-- where that is set, and no more than the nearest number of CPUs, from one up, to the quota that the
-- files of one directory hold, the process's own control group or an ancestor in either hierarchy.
-- Here /proc/self/cgroup has these lines, which the buffer holds, the directory's files hold a
-- positive quota and period that an `int` can hold, under paths that the buffer holds, the operating
-- system counts a processor or more, and hardware_concurrency_t can hold that count and the limit.
pub number_of_workers-get_docker_limit :
    (cfg : Config) (most : ℕ) (files : Files) (ms : List Membership) (nprocs : ℕ) (limit : ℤ)
    (v2 : Bool) (dir quota period : Text)
    → Shows files ms
    → OnBranch (expected_dir ms v2) (length (root_of v2)) dir
    → HasQuota files v2 dir quota period
    → 0 < decimal quota
    → 0 < decimal period
    → get_docker_limit files ≡ some limit
    → 0 < nprocs
    → nprocs < cfg.hc_values
    → le_int limit (pos (cfg.hc_values - 1)) ≡ true
    → let workers =
        number_of_workers cfg
          (new_shop cfg most (get_hardware_concurrency cfg.hc_values limit (pos nprocs))) in
      (cpus : ℕ) × (0 < workers)
      × ((most ≡ 0) ⊎ (workers ≤ most))
      × (workers ≤ cpus)
      × IsRounded (decimal quota) (decimal period) cpus
number_of_workers-get_docker_limit cfg most files ms nprocs limit v2 dir quota period w on has hq hp
      e lo hi fits =
    let (cpus, read, at_least, rounded) = read_quota-HasQuota files v2 dir quota period has hq hp in
    let (some_worker, bounded, obeys) =
      number_of_workers_by_limit cfg most files ms nprocs limit w e lo hi fits in
    (
      cpus,
      some_worker,
      elim (Bool-cases (most == 0)) [
        | inl unset ↦ inl (ground (arith, unset))
        | inr given ↦ inr (bounded (ground (arith, given)))
      ],
      obeys (v2, dir) cpus on read (omega (arith, at_least)),
      rounded,
    )
