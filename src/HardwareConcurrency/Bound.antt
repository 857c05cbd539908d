-- ===== src/HardwareConcurrency/Bound.antt =====
-- The number of hardware threads that comes of the limit.
use sweater.HardwareConcurrency.Limit.{
  Shows, Cgroup, quota_at, OnBranches, expected_dir, get_docker_limit-IsMostRestrictive,
}
use native.Mathlib.Nat.{mod-eq_of_lt}
use sweater.Prelude.{
  ℕ, zero, suc, ◌-◌, ◌≤◌, ◌<◌, ◌≡◌, true, List, some, arith, ℤ, pos, negsuc, subst, le_int,
}
use sweater.HardwareConcurrency.Quota.{Files}
use sweater.HardwareConcurrency.Restrictive.{IsMostRestrictive}
use sweater.HardwareConcurrency.SelfCgroup.{Membership}
use sweater.HardwareConcurrency.Docker.{get_docker_limit, get_hardware_concurrency}

module _ {A : Type 0} (quota_of : A → ℤ) (InSet : A → Type 0) (hc_values nprocs : ℕ) where
  -- The number of hardware threads by the limit.
  abbrev Obeys : ℕ → Type 0
  Obeys n =
      (0 < n)
      × (n < hc_values)
      × ((c : A) (quota : ℕ) → InSet c → quota_of c ≡ pos quota → 0 < quota → n ≤ quota)

  get_hardware_concurrency_lem :
      (limit : ℤ)
      → IsMostRestrictive quota_of InSet limit
      → 0 < nprocs
      → nprocs < hc_values
      → le_int limit (pos (hc_values - 1)) ≡ true
      → Obeys (get_hardware_concurrency hc_values limit (pos nprocs))
  unfolding get_hardware_concurrency
  get_hardware_concurrency_lem (negsuc zero) b lo hi fits = rw (mod-eq_of_lt hi) (
    lo,
    hi,
    λ c q i e positive. let (m, f, le) = b.lower c q i e positive in absurd (ground arith),
  )
  get_hardware_concurrency_lem (negsuc (suc k)) b lo hi fits = absurd (ground (arith, b.stated))
  get_hardware_concurrency_lem (pos zero) b lo hi fits = absurd (ground (arith, b.stated))
  get_hardware_concurrency_lem (pos (suc k)) b lo hi fits =
      let small : suc k < hc_values = ground (arith, fits, hi) in
      rw (mod-eq_of_lt small) (
        omega arith,
        small,
        λ c q i e positive. let (m, f, le) = b.lower c q i e positive in ground arith,
      )

-- The number of hardware threads is positive and fits hardware_concurrency_t, and no quota of the
-- process's own control group or its ancestors in either hierarchy is below it. Here /proc/self/cgroup
-- has these lines, which the buffer holds, the operating system counts a processor or more, and
-- hardware_concurrency_t can hold that count and the limit.
pub get_hardware_concurrency-get_docker_limit :
    (files : Files) (ms : List Membership) (hc_values nprocs : ℕ) (limit : ℤ)
    → Shows files ms
    → get_docker_limit files ≡ some limit
    → 0 < nprocs
    → nprocs < hc_values
    → le_int limit (pos (hc_values - 1)) ≡ true
    → let n = get_hardware_concurrency hc_values limit (pos nprocs) in
      (0 < n)
      × (n < hc_values)
      × ((c : Cgroup) (quota : ℕ)
          → OnBranches (expected_dir ms) c
          → quota_at files c ≡ pos quota
          → 0 < quota
          → n ≤ quota)
get_hardware_concurrency-get_docker_limit files ms hc_values nprocs limit w e lo hi fits =
    let (found, f, b) = get_docker_limit-IsMostRestrictive files ms w in
    let same : found ≡ limit = cc (e, f) in
    get_hardware_concurrency_lem (quota_at files) (OnBranches (expected_dir ms)) hc_values nprocs
      limit
      (subst (λ l. IsMostRestrictive (quota_at files) (OnBranches (expected_dir ms)) l) same b) lo
      hi fits
