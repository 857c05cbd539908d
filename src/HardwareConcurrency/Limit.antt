-- ===== src/HardwareConcurrency/Limit.antt =====
-- The limit over both hierarchies.
use sweater.HardwareConcurrency.Lines.{self_cgroup-lines}
use sweater.Prelude.{
  ℕ, zero, suc, ◌+◌, ◌-◌, ◌≤◌, ◌<◌, ◌≡◌, ◌⊎◌, inl, inr, refl, sym, ap, ◌∙◌, Bool, true, false, List,
  [], ◌∷◌, ◌++◌, none, some, length, arith, ℤ, pos, negsuc, minus_one, is_positive, leb, Bool-cases,
  subst, length-append, take_all,
}
use sweater.HardwareConcurrency.Text.{Text, strchr, c_str, decimal}
use sweater.HardwareConcurrency.Agreement.{HasQuota, read_quota-HasQuota}
use sweater.HardwareConcurrency.Reading.{IsRounded}
use sweater.HardwareConcurrency.Quota.{Files, path_size, read_text, read_quota}
use sweater.HardwareConcurrency.Restrictive.{IsMostRestrictive, same_set}
use sweater.HardwareConcurrency.Scan.{OnBranch, scan_branch-IsMostRestrictive}
use sweater.HardwareConcurrency.SelfCgroup.{Membership, lines, AreLines, own_path}
use sweater.HardwareConcurrency.Docker.{
  proc_self_cgroup, root_of, lower_limit, proc_self, own_dir, get_docker_limit,
}

-- A directory of either hierarchy.
abbrev pub Cgroup : Type 0
Cgroup = Bool × Text

abbrev pub quota_at : Files → Cgroup → ℤ
quota_at files (v2, dir) = read_quota files v2 dir

abbrev pub OnBranches : (Bool → Text) → Cgroup → Type 0
OnBranches dirs (v2, p) = OnBranch (dirs v2) (length (root_of v2)) p

abbrev IsLimit : ℤ → Type 0
IsLimit limit = (limit ≡ minus_one) ⊎ (is_positive limit ≡ true)

record IsLower (a b c : ℤ) : Type 0 where
  one : (c ≡ a) ⊎ (c ≡ b)
  left : (m : ℕ) → a ≡ pos m → (k : ℕ) × (c ≡ pos k) × (k ≤ m)
  right : (m : ℕ) → b ≡ pos m → (k : ℕ) × (c ≡ pos k) × (k ≤ m)

lower_limit_lem : (a b : ℤ) → IsLimit a → IsLimit b → IsLower a b (lower_limit a b)
unfolding lower_limit
lower_limit_lem (negsuc zero) b ha hb = record {
  one = inr refl;
  left = λ m e. absurd (ground arith);
  right = λ m e. (m, e, omega arith);
}
lower_limit_lem (negsuc (suc a)) b ha hb = absurd (ground arith)
lower_limit_lem (pos a) (negsuc zero) ha hb = record {
  one = inl refl;
  left = λ m e. (m, e, omega arith);
  right = λ m e. absurd (ground arith);
}
lower_limit_lem (pos a) (negsuc (suc b)) ha hb = absurd (ground arith)
lower_limit_lem (pos a) (pos b) ha hb = elim (Bool-cases (leb a b)) [
  | inl le ↦ rw le (record {
    one = inl refl;
    left = λ m e. (a, refl, ground arith);
    right = λ m e. (a, refl, ground arith);
  })
  | inr gt ↦ rw gt (record {
    one = inr refl;
    left = λ m e. (b, refl, ground arith);
    right = λ m e. (b, refl, ground arith);
  })
]

module _ (files : Files) (dirs : Bool → Text) where
  abbrev OneBranch : Bool → ℤ → Type 0
  OneBranch v2 = IsMostRestrictive (read_quota files v2) (OnBranch (dirs v2) (length (root_of v2)))

  OneBranch-IsLimit : (v2 : Bool) (limit : ℤ) → OneBranch v2 limit → IsLimit limit
  OneBranch-IsLimit v2 limit b = elim b.stated [
    | inl nothing ↦ inl nothing
    | inr (p, i, q, positive) ↦ inr positive
  ]

  lower_limit-IsMostRestrictive :
      (a b : ℤ)
      → OneBranch true a
      → OneBranch false b
      → IsMostRestrictive (quota_at files) (OnBranches dirs) (lower_limit a b)
  lower_limit-IsMostRestrictive a b ha hb =
      let l = lower_limit_lem a b (OneBranch-IsLimit true a ha) (OneBranch-IsLimit false b hb) in
      record {
        lower = lower_of l;
        stated = elim l.one [
          | inl e ↦ elim ha.stated [
            | inl nothing ↦ inl (e ∙ nothing)
            | inr (p, i, q, positive) ↦
                inr ((true, p), i, q ∙ sym e, ap (λ x. is_positive x) e ∙ positive)
          ]
          | inr e ↦ elim hb.stated [
            | inl nothing ↦ inl (e ∙ nothing)
            | inr (p, i, q, positive) ↦
                inr ((false, p), i, q ∙ sym e, ap (λ x. is_positive x) e ∙ positive)
          ]
        ];
      }
    where
      lower_of :
          IsLower a b (lower_limit a b)
          → (c : Cgroup) (n : ℕ) → OnBranches dirs c
          → quota_at files c ≡ pos n
          → 0 < n
          → (m : ℕ) × (lower_limit a b ≡ pos m) × (m ≤ n)
      lower_of l (true, p) n i q positive =
          let (m, e, le) = ha.lower p n i q positive in
          let (k, f, le') = l.left m e in (k, f, omega (arith, le, le'))
      lower_of l (false, p) n i q positive =
          let (m, e, le) = hb.lower p n i q positive in
          let (k, f, le') = l.right m e in (k, f, omega (arith, le, le'))

get_docker_limit_lem :
    (files : Files)
    → (limit : ℤ) × (get_docker_limit files ≡ some limit)
      × IsMostRestrictive (quota_at files) (OnBranches (own_dir files)) limit
unfolding get_docker_limit
get_docker_limit_lem files =
    let (a, e, ha) =
      scan_branch-IsMostRestrictive files (own_dir files true) (length (root_of true)) true in
    let (b, f, hb) =
      scan_branch-IsMostRestrictive files (own_dir files false) (length (root_of false)) false in
    rw (e, f, get_docker_limit)
      (lower_limit a b, refl, lower_limit-IsMostRestrictive files (own_dir files) a b ha hb)

c_str_all : (s : Text) → strchr s 0 ≡ none → c_str s ≡ s
unfolding strchr
c_str_all [] e = refl
c_str_all (c ∷ s) e = grind (arith, c_str_all s)

length-own_path :
    (v2 : Bool) (ms : List Membership) → AreLines path_size ms → length (own_path v2 ms) < path_size
length-own_path v2 [] w = omega arith
length-own_path v2 (m ∷ ms) (w, ws) = ground (arith, w.path_fits, length-own_path v2 ms ws)

-- The file system shows these lines in /proc/self/cgroup, which the buffer holds.
pub record Shows (files : Files) (ms : List Membership) : Type 0 where
  pub read : files proc_self_cgroup 1023 ≡ some (lines ms)
  pub no_nul : strchr (lines ms) 0 ≡ none
  pub are_lines : AreLines path_size ms

proc_self_lem :
    (files : Files) (s : Text)
    → files proc_self_cgroup 1023 ≡ some s
    → strchr s 0 ≡ none
    → proc_self files ≡ s
unfolding proc_self read_text
proc_self_lem files [] e h = rw (e, proc_self, read_text) refl
proc_self_lem files (c ∷ s) e h = rw (e, proc_self, read_text) (c_str_all (c ∷ s) h)

-- The directory of the process's own control group.
abbrev pub expected_dir : List Membership → Bool → Text
expected_dir ms v2 = root_of v2 ++ own_path v2 ms

own_dir_lem :
    (files : Files) (ms : List Membership) (v2 : Bool)
    → Shows files ms
    → own_dir files v2 ≡ expected_dir ms v2
unfolding own_dir
own_dir_lem files ms v2 w =
    rw
      (
        proc_self_lem files (lines ms) w.read w.no_nul,
        self_cgroup-lines path_size v2 ms w.are_lines,
      )
      (take_all _ (expected_dir ms v2) (fits v2))
  where
    fits : (v : Bool) → length (expected_dir ms v) ≤ path_size + (length (root_of false) + 1) - 1
    fits true = omega (
      arith,
      length-append (root_of true) (own_path true ms),
      length-own_path true ms w.are_lines,
    )
    fits false = omega (
      arith,
      length-append (root_of false) (own_path false ms),
      length-own_path false ms w.are_lines,
    )

-- Where /proc/self/cgroup has these lines, which the buffer holds, get_docker_limit ends, and its
-- result is the most restrictive of what read_quota gives for the process's own control group and its
-- ancestors in both hierarchies.
pub get_docker_limit-IsMostRestrictive :
    (files : Files) (ms : List Membership)
    → Shows files ms
    → (limit : ℤ) × (get_docker_limit files ≡ some limit)
      × IsMostRestrictive (quota_at files) (OnBranches (expected_dir ms)) limit
get_docker_limit-IsMostRestrictive files ms w =
    let (limit, e, b) = get_docker_limit_lem files in
    (limit, e, same_set (quota_at files) _ _ limit (λ c i. there c i) (λ c i. back c i) b)
  where
    there : (c : Cgroup) → OnBranches (own_dir files) c → OnBranches (expected_dir ms) c
    there (v2, p) i =
        subst (λ dir. OnBranch dir (length (root_of v2)) p) (own_dir_lem files ms v2 w) i

    back : (c : Cgroup) → OnBranches (expected_dir ms) c → OnBranches (own_dir files) c
    back (v2, p) i =
        subst (λ dir. OnBranch dir (length (root_of v2)) p) (sym (own_dir_lem files ms v2 w)) i

positive_limit :
    {A : Type 0} {quota_of : A → ℤ} {InSet : A → Type 0} (m : ℕ)
    → IsMostRestrictive quota_of InSet (pos m)
    → 1 ≤ m
positive_limit m b = ground (arith, b.stated)

-- Where /proc/self/cgroup has these lines, which the buffer holds, and the files of one directory, the
-- process's own control group or an ancestor in either hierarchy, hold a positive quota and period
-- that an `int` can hold, under paths that the buffer holds: get_docker_limit ends with a positive
-- limit, which is no more than the nearest number of CPUs to that quota from one up, and which is
-- the least that read_quota gives for a directory from the own one up to the root.
pub get_docker_limit-HasQuota :
    (files : Files) (ms : List Membership) (v2 : Bool) (dir quota period : Text)
    → Shows files ms
    → OnBranch (expected_dir ms v2) (length (root_of v2)) dir
    → HasQuota files v2 dir quota period
    → 0 < decimal quota
    → 0 < decimal period
    → (limit : ℕ) × (cpus : ℕ) × (get_docker_limit files ≡ some (pos limit))
      × (1 ≤ limit)
      × (limit ≤ cpus)
      × IsRounded (decimal quota) (decimal period) cpus
      × IsMostRestrictive (quota_at files) (OnBranches (expected_dir ms)) (pos limit)
get_docker_limit-HasQuota files ms v2 dir quota period w on has hq hp =
    let (limit, e, b) = get_docker_limit-IsMostRestrictive files ms w in
    let (cpus, read, at_least, rounded) = read_quota-HasQuota files v2 dir quota period has hq hp in
    let (m, f, le) = b.lower (v2, dir) cpus on read (omega (arith, at_least)) in
    let found =
      subst (λ l. IsMostRestrictive (quota_at files) (OnBranches (expected_dir ms)) l) f b in
    (m, cpus, e ∙ ap (λ l. some l) f, positive_limit m found, le, rounded, found)
