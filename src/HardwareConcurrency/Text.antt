-- ===== src/HardwareConcurrency/Text.antt =====
-- C strings, as the lists of their bytes before the NUL, with what the standard library's functions
-- do to them. A pointer into a string is the offset from its start.
use Prim.Native.Char.{code}
use Prim.Native.String.{String}
use mathlib.Core.List.{foldl}
use sweater.Prelude.{
  ℕ, zero, suc, ◌+◌, ◌-◌, ◌*◌, ◌^◌, min, ◌≡◌, refl, Bool, true, false, ◌&&◌, ◌||◌, List, [], ◌∷◌,
  Option, none, some, leb, ◌==◌, if◌then◌else◌, to_int, take, drop, ℤ, pos, negsuc, cast_int,
  get_elem?, ◌≢◌, ◌≤◌, arith, length,
}

abbrev pub Text : Type 0
Text = List ℕ

-- The bytes of a literal, which is ASCII.
abbrev pub codes : String → Text
codes String.[] = []
codes (String.◌∷◌ c s) = code c ∷ codes s

-- The part before the first NUL.
abbrev pub c_str : Text → Text
c_str [] = []
c_str (c ∷ s) = if c == 0 then [] else c ∷ c_str s

-- The first `c` of the text.
unfoldable pub strchr : Text → ℕ → Option ℕ
strchr [] c = none
strchr (x ∷ s) c =
    if x == c then some 0 else elim (strchr s c) [ none ↦ none | some i ↦ some (suc i) ]

-- The last one.
unfoldable pub strrchr : Text → ℕ → Option ℕ
strrchr [] c = none
strrchr (x ∷ s) c = elim (strrchr s c) [
  | some i ↦ some (suc i)
  | none ↦ if x == c then some 0 else none
]

-- Whether the texts are the same.
abbrev pub is_text : Text → Text → Bool
is_text [] [] = true
is_text [] (y ∷ t) = false
is_text (x ∷ s) [] = false
is_text (x ∷ s) (y ∷ t) = x == y && is_text s t

-- strncmp( s, t, n ) == 0
abbrev pub strncmp_eq : Text → Text → ℕ → Bool
strncmp_eq s t n = is_text (take n s) (take n t)

-- snprintf into `size` bytes, of which the NUL takes one.
abbrev pub snprintf : ℕ → Text → Text
snprintf size s = take (size - 1) s

abbrev pub is_space : ℕ → Bool
is_space c = c == b' ' || (leb 9 c && leb c 13)

abbrev pub is_digit : ℕ → Bool
is_digit c = leb b'0' c && leb c b'9'

-- How many characters from the start pass a test.
unfoldable pub span : (ℕ → Bool) → Text → ℕ
span p [] = 0
span p (c ∷ s) = if p c then suc (span p s) else 0

abbrev pub starts_with : Text → ℕ → Bool
starts_with [] c = false
starts_with (x ∷ s) c = x == c

-- The number that digits spell, in base 10.
abbrev pub decimal : Text → ℕ
decimal s = foldl (λ n c. n * 10 + (c - b'0')) 0 s

-- A number that 64 bits do not hold becomes the nearest that they do.
abbrev pub clamp_long : Bool → ℕ → ℤ
clamp_long true zero = pos 0
clamp_long true (suc n) = negsuc (min n (2 ^ 63 - 1))
clamp_long false n = pos (min n (2 ^ 63 - 1))

-- What strtol returns, and the offset it stores through its second argument: where the number ends,
-- or 0 if there is none.
pub record Conversion : Type 0 where
  pub value : ℤ
  pub end : ℕ

unfoldable pub strtol : Text → Conversion
strtol s =
    let spaces = span is_space s in
    let signed = drop spaces s in
    let sign = to_int (starts_with signed b'-' || starts_with signed b'+') in
    let unsigned = drop sign signed in
    let digits = span is_digit unsigned in
    if digits == 0 then record { value = pos 0; end = 0 } else record {
      value = clamp_long (starts_with signed b'-') (decimal (take digits unsigned));
      end = spaces + sign + digits;
    }

-- C leaves a number beyond `int` undefined; the libraries cast what strtol returns.
unfoldable pub atoi : Text → ℤ
atoi s = cast_int (strtol s).value

number_with_sign : strtol (codes " -17 25") ≡ record { value = negsuc 16; end = 4 }
unfolding strtol span
number_with_sign = refl

no_number : strtol (codes "max 100000") ≡ record { value = pos 0; end = 0 }
unfolding strtol span
no_number = refl

pub is_text-length : (s t : Text) → is_text s t ≡ true → length s ≡ length t
is_text-length [] [] h = refl
is_text-length [] (y ∷ t) h = absurd (cc)
is_text-length (x ∷ s) [] h = absurd (cc)
is_text-length (x ∷ s) (y ∷ t) h = ground (arith, is_text-length s t)

module _ (c : ℕ) where
  pub strrchr-none : (s : Text) (j : ℕ) → strrchr s c ≡ none → get_elem? s j ≢ some c
  unfolding strrchr
  strrchr-none [] j e h = cc
  strrchr-none (x ∷ s) zero e h = ground arith
  strrchr-none (x ∷ s) (suc j) e h = ground (arith, strrchr-none s j)

  pub get_elem?-strrchr : (s : Text) (i : ℕ) → strrchr s c ≡ some i → get_elem? s i ≡ some c
  unfolding strrchr
  get_elem?-strrchr [] i e = cc
  get_elem?-strrchr (x ∷ s) zero e = ground arith
  get_elem?-strrchr (x ∷ s) (suc i) e = ground (arith, get_elem?-strrchr s i)

  pub strrchr_last : (s : Text) (i j : ℕ) → strrchr s c ≡ some i → get_elem? s j ≡ some c → j ≤ i
  unfolding strrchr
  strrchr_last [] i j e h = cc
  strrchr_last (x ∷ s) i zero e h = omega arith
  strrchr_last (x ∷ s) zero (suc j) e h = ground (arith, strrchr-none s j)
  strrchr_last (x ∷ s) (suc i) (suc j) e h = ground (arith, strrchr_last s i j)
