-- ===== src/HardwareConcurrency/Agreement.antt =====
-- One quota, as either hierarchy's files state it.
use native.Mathlib.Nat.{div-lt_iff_lt-mul}
use sweater.Prelude.{
  ℕ, ◌+◌, ◌^◌, ◌≤◌, ◌<◌, ◌≡◌, refl, ap, Bool, true, false, [], ◌∷◌, ◌++◌, some, length, arith, pos,
  cast_int, take_all, length-append, ◌-◌, ◌∙◌, ◌/◌,
}
use sweater.HardwareConcurrency.Text.{Text, codes, c_str, is_digit, decimal, atoi, snprintf}
use sweater.HardwareConcurrency.Quota.{
  Files, path_size, read_text, read_int, read_quota_v1, read_quota_v2, read_quota, cpus_from_quota,
}
use sweater.HardwareConcurrency.Reading.{
  All, IsNumber, pair, digits_after, quota_of_pair-pair, IsRounded, cpus_from_quota-IsRounded,
}

c_str-digits : (s t : Text) → All is_digit s → c_str (s ++ t) ≡ s ++ c_str t
c_str-digits [] t h = refl
c_str-digits (c ∷ s) t (h, hs) = ground (arith, c_str-digits s t hs)

-- A file of one number.
abbrev pub single : Text → Text
single s = s ++ b'\n' ∷ []

read_text-number :
    (files : Files) (path s t : Text) (size : ℕ)
    → IsNumber s
    → files path (size - 1) ≡ some (s ++ t)
    → read_text files path size ≡ some (s ++ c_str t)
unfolding read_text
read_text-number files path [] t size w e = absurd (omega (arith, w.some_digit))
read_text-number files path (c ∷ s) t size w e =
    rw (e, read_text) (ap (λ x. some x) (c_str-digits (c ∷ s) t w.all_digits))

cast_int_lem : (n : ℕ) → n < 2 ^ 31 → cast_int (pos n) ≡ pos n
cast_int_lem n h = ground (arith, h)

read_int-number :
    (files : Files) (path s : Text)
    → IsNumber s
    → decimal s < 2 ^ 31
    → files path 63 ≡ some (single s)
    → read_int files path ≡ pos (decimal s)
unfolding read_int atoi
read_int-number files path s w fits e =
    let read = read_text-number files path s (b'\n' ∷ []) 64 w e in
    let scanned = digits_after [] s (b'\n' ∷ []) tt w refl in
    rw (read, read_int, atoi, scanned) (cast_int_lem (decimal s) fits)

-- What the files of a directory of either hierarchy hold for a quota and a period.
abbrev pub Holds : (files : Files) (v2 : Bool) (dir quota period : Text) → Type 0
Holds files true dir quota period = files (dir ++ codes "/cpu.max") 127 ≡ some (pair quota period)
Holds files false dir quota period =
    (files (dir ++ codes "/cpu.cfs_quota_us") 63 ≡ some (single quota))
    × (files (dir ++ codes "/cpu.cfs_period_us") 63 ≡ some (single period))

-- They hold two numbers that an `int` can hold, and the buffer for the paths can name them.
pub record HasQuota (files : Files) (v2 : Bool) (dir quota period : Text) : Type 0 where
  pub named : length dir + 19 < path_size
  pub quota_digits : IsNumber quota
  pub period_digits : IsNumber period
  pub quota_int : decimal quota < 2 ^ 31
  pub period_int : decimal period < 2 ^ 31
  pub content : Holds files v2 dir quota period

-- The files of a directory, which the buffer for the paths can name.
pub record States (files : Files) (dir quota period : Text) : Type 0 where
  pub named : length dir + 19 < path_size
  pub quota_digits : IsNumber quota
  pub period_digits : IsNumber period
  pub quota_int : decimal quota < 2 ^ 31
  pub period_int : decimal period < 2 ^ 31
  pub cpu_max : files (dir ++ codes "/cpu.max") 127 ≡ some (pair quota period)
  pub cfs_quota : files (dir ++ codes "/cpu.cfs_quota_us") 63 ≡ some (single quota)
  pub cfs_period : files (dir ++ codes "/cpu.cfs_period_us") 63 ≡ some (single period)

path_lem :
    (dir name : Text)
    → length dir + 19 < path_size
    → length name ≤ 18
    → snprintf path_size (dir ++ name) ≡ dir ++ name
path_lem dir name h k =
    take_all (path_size - 1) (dir ++ name) (omega (arith, length-append dir name, h, k))

read_quota_lem :
    (files : Files) (dir quota period : Text) (v2 : Bool)
    → HasQuota files v2 dir quota period
    → read_quota files v2 dir ≡ cpus_from_quota (pos (decimal quota)) (pos (decimal period))
unfolding read_quota read_quota_v1 read_quota_v2
read_quota_lem files dir quota period true w =
    rw
      (
        path_lem dir (codes "/cpu.max") w.named (omega arith),
        read_quota,
        read_quota_v2,
        read_text-number files (dir ++ codes "/cpu.max") quota (b' ' ∷ (period ++ b'\n' ∷ [])) 128
            w.quota_digits w.content,
        c_str-digits period (b'\n' ∷ []) w.period_digits.all_digits,
      )
      (quota_of_pair-pair quota period w.quota_digits w.period_digits)
read_quota_lem files dir quota period false w =
    rw
      (
        path_lem dir (codes "/cpu.cfs_quota_us") w.named (omega arith),
        path_lem dir (codes "/cpu.cfs_period_us") w.named (omega arith),
        read_quota,
        read_quota_v1,
        read_int-number files (dir ++ codes "/cpu.cfs_quota_us") quota w.quota_digits w.quota_int
            w.content.0,
        read_int-number files (dir ++ codes "/cpu.cfs_period_us") period w.period_digits
            w.period_int w.content.1,
      )
      refl

quotient_fits :
    (quota period : ℕ)
    → 0 < period
    → quota < 2 ^ 31
    → period < 2 ^ 31
    → (quota + period / 2) / period < 2 ^ 31
quotient_fits quota period h q p = (div-lt_iff_lt-mul h).1 (omega (arith, h, q))

HasQuota-States :
    (files : Files) (dir quota period : Text) (v2 : Bool)
    → States files dir quota period
    → HasQuota files v2 dir quota period
HasQuota-States files dir quota period v2 w = record {
  named = w.named;
  quota_digits = w.quota_digits;
  period_digits = w.period_digits;
  quota_int = w.quota_int;
  period_int = w.period_int;
  content = held v2;
}
  where
    held : (v2 : Bool) → Holds files v2 dir quota period
    held true = w.cpu_max
    held false = (w.cfs_quota, w.cfs_period)

-- What reading such a directory gives.
pub read_quota-HasQuota :
    (files : Files) (v2 : Bool) (dir quota period : Text)
    → HasQuota files v2 dir quota period
    → 0 < decimal quota
    → 0 < decimal period
    → (cpus : ℕ) × (read_quota files v2 dir ≡ pos cpus)
      × (1 ≤ cpus)
      × IsRounded (decimal quota) (decimal period) cpus
read_quota-HasQuota files v2 dir quota period w hq hp =
    let (cpus, e, at_least, rounded) =
      cpus_from_quota-IsRounded (decimal quota) (decimal period) hq hp
        (quotient_fits (decimal quota) (decimal period) hp w.quota_int w.period_int) in
    (cpus, read_quota_lem files dir quota period v2 w ∙ e, at_least, rounded)

-- Where cpu.max holds a quota and a period and cpu.cfs_quota_us and cpu.cfs_period_us hold the same
-- two numbers, which are positive and which an `int` can hold, reading the directory as one of
-- either hierarchy gives the same number of CPUs: one or more, and the nearest to the quota from one
-- up. The directory's path and the longest file name fit the buffer.
pub read_quota-States :
    (files : Files) (dir quota period : Text)
    → States files dir quota period
    → 0 < decimal quota
    → 0 < decimal period
    → (cpus : ℕ) × ((v2 : Bool) → read_quota files v2 dir ≡ pos cpus)
      × (1 ≤ cpus)
      × IsRounded (decimal quota) (decimal period) cpus
read_quota-States files dir quota period w hq hp =
    let (cpus, e, at_least, rounded) =
      cpus_from_quota-IsRounded (decimal quota) (decimal period) hq hp
        (quotient_fits (decimal quota) (decimal period) hp w.quota_int w.period_int) in
    (
      cpus,
      λ v2.
          read_quota_lem files dir quota period v2 (HasQuota-States files dir quota period v2 w)
          ∙ e,
      at_least,
      rounded,
    )
