-- ===== src/HardwareConcurrency/Reading.antt =====
-- What the quotas in the files come to.
use sweater.Prelude.{
  ℕ, zero, suc, ◌+◌, ◌-◌, ◌*◌, ◌/◌, ◌%◌, ◌^◌, ◌≤◌, ◌<◌, ◌≡◌, ◌⊎◌, inl, inr, refl, ap, ◌∙◌, Bool,
  true, false, [], ◌∷◌, ◌++◌, length, arith, pos, minus_one, drop-append, take-append, max, sym,
  ◌==◌, min, suc-==-zero,
}
use native.Mathlib.Nat.{div-add-mod, mod-lt, mul_comm}
use sweater.HardwareConcurrency.Text.{Text, codes, span, is_digit, is_space, strtol, decimal}
use sweater.HardwareConcurrency.Quota.{cpus_from_quota, quota_of_pair}

-- Half a CPU or less away from the quota, where that is no less than a CPU.
abbrev pub IsRounded : ℕ → ℕ → ℕ → Type 0
IsRounded quota period cpus =
    ((2 * (cpus * period) ≤ 2 * quota + period) ⊎ (cpus ≡ 1))
    × (2 * quota ≤ 2 * (cpus * period) + period)

cpus_from_quota_lem :
    (quota period : ℕ)
    → 0 < quota
    → 0 < period
    → (quota + period / 2) / period < 2 ^ 31
    → cpus_from_quota (pos quota) (pos period) ≡ pos (max ((quota + period / 2) / period) 1)
unfolding cpus_from_quota
cpus_from_quota_lem quota period hq hp h = ground (arith, h)

max-suc : (k : ℕ) → max (suc k) 1 ≡ suc k
max-suc k = omega arith

rounding :
    (quota period cpus : ℕ)
    → 0 < period
    → (quota + period / 2) / period ≡ cpus
    → IsRounded quota period (max cpus 1)
rounding quota period cpus hp e =
    let n = quota + period / 2 in
    let whole : cpus * period + n % period ≡ n =
      ap (λ x. x + n % period) (mul_comm cpus period ∙ ap (λ x. period * x) (sym e))
      ∙ div-add-mod n period in
    let part : n % period < period = mod-lt n hp in
    by_cases cpus (cpus * period) refl (omega (arith, whole, part)) (omega (arith, whole, part))
  where
    by_cases :
        (k p : ℕ)
        → p ≡ k * period
        → p ≤ quota + period / 2
        → quota + period / 2 < p + period
        → IsRounded quota period (max k 1)
    by_cases zero p f lo hi = (inr refl, omega (arith, f, lo, hi))
    by_cases (suc k) p f lo hi = rw (max-suc k, sym f) (inl (omega (arith, lo)), omega (arith, hi))

-- A positive quota over a positive period comes to at least one CPU, and to the nearest number of
-- CPUs from one up, if that is an `int`.
pub cpus_from_quota-IsRounded :
    (quota period : ℕ)
    → 0 < quota
    → 0 < period
    → (quota + period / 2) / period < 2 ^ 31
    → (cpus : ℕ) × (cpus_from_quota (pos quota) (pos period) ≡ pos cpus)
      × (1 ≤ cpus)
      × IsRounded quota period cpus
cpus_from_quota-IsRounded quota period hq hp h = (
  max ((quota + period / 2) / period) 1,
  cpus_from_quota_lem quota period hq hp h,
  omega arith,
  rounding quota period _ hp refl,
)

abbrev pub All : (ℕ → Bool) → Text → Type 0
All p [] = Unit
All p (c ∷ s) = (p c ≡ true) × All p s

abbrev pub Stops : (ℕ → Bool) → Text → Type 0
Stops p [] = Unit
Stops p (c ∷ s) = p c ≡ false

span_lem : (p : ℕ → Bool) (s rest : Text) → All p s → Stops p rest → span p (s ++ rest) ≡ length s
unfolding span
span_lem p [] [] w h = refl
span_lem p [] (c ∷ rest) w h = rw h refl
span_lem p (c ∷ s) rest (w, ws) h = rw (w, span_lem p s rest ws h) refl

-- A number in decimal digits.
pub record IsNumber (s : Text) : Type 0 where
  pub some_digit : 0 < length s
  pub all_digits : All is_digit s
  pub is_long : decimal s < 2 ^ 63

pub digits_after :
    (spaces s rest : Text)
    → All is_space spaces
    → IsNumber s
    → Stops is_digit rest
    → strtol (spaces ++ (s ++ rest))
      ≡ record { value = pos (decimal s); end = length spaces + 0 + length s }
unfolding strtol
digits_after spaces [] rest h w e = absurd (omega (arith, w.some_digit))
digits_after spaces (c ∷ s) rest h w e =
    let (digit, digits) = w.all_digits in
    let no_space : is_space c ≡ false = ground (arith, digit) in
    let no_minus : (c == b'-') ≡ false = ground (arith, digit) in
    let no_plus : (c == b'+') ≡ false = ground (arith, digit) in
    let fits : min (decimal (c ∷ s)) (2 ^ 63 - 1) ≡ decimal (c ∷ s) = omega (arith, w.is_long) in
    rw
      (
        span_lem is_space spaces (c ∷ s ++ rest) h no_space,
        drop-append spaces (c ∷ s ++ rest),
        no_minus,
        no_plus,
        span_lem is_digit (c ∷ s) rest (digit, digits) e,
        take-append s rest,
        fits,
        suc-==-zero (length s),
      )
      refl

-- A cpu.max of two numbers.
abbrev pub pair : Text → Text → Text
pair quota period = quota ++ b' ' ∷ (period ++ b'\n' ∷ [])

pub quota_of_pair-pair :
    (quota period : Text)
    → IsNumber quota
    → IsNumber period
    → quota_of_pair (pair quota period)
      ≡ cpus_from_quota (pos (decimal quota)) (pos (decimal period))
unfolding quota_of_pair
quota_of_pair-pair quota period q p =
    let from_start : 0 + length quota ≡ length quota = omega arith in
    let any : (length quota == 0) ≡ false = ground (arith, q.some_digit) in
    rw
      (
        digits_after [] quota (b' ' ∷ (period ++ b'\n' ∷ [])) tt q refl,
        from_start,
        any,
        drop-append quota (b' ' ∷ (period ++ b'\n' ∷ [])),
        digits_after (b' ' ∷ []) period (b'\n' ∷ []) (refl, tt) p refl,
      )
      refl

no_quota : quota_of_pair (codes "max 100000\n") ≡ minus_one
unfolding quota_of_pair strtol span
no_quota = refl
