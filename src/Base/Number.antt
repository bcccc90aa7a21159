-- ===== src/Base/Number.antt =====
-- `strconv.ParseUint` in base 10 with 64 bits, and that it reads what `%d` prints.
use Prim.Native.Nat.{ℕ, zero, suc, ◌+◌, ◌-◌, ◌*◌, ◌/◌, ◌%◌, ◌<◌}
use Prim.Native.Char.{Char, code}
use Prim.Native.String
use Prim.Native.String.append
use Prim.Native.String.{String}
use mathlib.Core.Path.{◌≡◌, refl, ap, ◌∙◌}
use mathlib.Core.Logic.{inl, inr}
use mathlib.Core.Bool.{true, false, ◌&&◌}
use mathlib.Core.Option.{Option, none, some}
use native.Mathlib.Omega.{arith}
use activemq_artemis_operato.Base.Tests.{ltb, leb, if◌then◌else◌, if_true, Bool-cases}
use activemq_artemis_operato.Base.Int.{two_to_64}
use activemq_artemis_operato.Base.Text.{digit, digits, decimal, is_blank}
use activemq_artemis_operato.Base.Cut.{lacks}

-- The value of digits that follow those of `n`; nothing where another character stands.
unfoldable pub read_digits : ℕ → String → Option ℕ
read_digits n String.[] = some n
read_digits n (String.◌∷◌ c s) =
    let rest = read_digits (n * 10 + (code c - 48)) s in
    if leb 48 (code c) && leb (code c) 57 then rest else none

abbrev in_range : Option ℕ → Option ℕ
in_range none = none
in_range (some n) = if ltb n two_to_64 then some n else none

-- `strconv.ParseUint(s, 10, 64)`, with nothing for an error.
unfoldable pub parse_uint : String → Option ℕ
unfolding read_digits
parse_uint s = if is_blank s then none else in_range (read_digits 0 s)

-- A digit is one character.
digit_char : (d : ℕ) → d < 10 → (c : Char) × (digit d ≡ String.◌∷◌ c "") × (code c ≡ 48 + d)
digit_char zero h = ("0", refl, refl)
digit_char (suc zero) h = ("1", refl, refl)
digit_char (suc (suc zero)) h = ("2", refl, refl)
digit_char (suc (suc (suc zero))) h = ("3", refl, refl)
digit_char (suc (suc (suc (suc zero)))) h = ("4", refl, refl)
digit_char (suc (suc (suc (suc (suc zero))))) h = ("5", refl, refl)
digit_char (suc (suc (suc (suc (suc (suc zero)))))) h = ("6", refl, refl)
digit_char (suc (suc (suc (suc (suc (suc (suc zero))))))) h = ("7", refl, refl)
digit_char (suc (suc (suc (suc (suc (suc (suc (suc zero)))))))) h = ("8", refl, refl)
digit_char (suc (suc (suc (suc (suc (suc (suc (suc (suc zero))))))))) h = ("9", refl, refl)
digit_char (suc (suc (suc (suc (suc (suc (suc (suc (suc (suc d)))))))))) h =
    absurd (omega (arith, h))

digit_then :
    (d : ℕ) (s : String)
    → d < 10
    → (c : Char) × (String.◌++◌ (digit d) s ≡ String.◌∷◌ c s) × (code c ≡ 48 + d)
digit_then d s h =
    let (c, e, v) = digit_char d h in
    (
      c,
      ap (λ t. String.◌++◌ t s) e ∙ (append.cons c "" s ∙ ap (λ t. String.◌∷◌ c t) (append.nil s)),
      v,
    )

read_digits-digit :
    (k d : ℕ) (s : String)
    → d < 10
    → read_digits k (String.◌++◌ (digit d) s) ≡ read_digits (k * 10 + d) s
unfolding read_digits
read_digits-digit k d s h =
    let (c, e, v) = digit_then d s h in
    let same : code c - 48 ≡ d = omega (arith, v) in
    rw e (
      rw same (
        if_true (leb 48 (code c) && leb (code c) 57) (read_digits (k * 10 + d) s) none
          (ground (arith, v, h))))

read_digits-digits : (f n : ℕ) (s : String) → n < f → read_digits 0 (digits f n s) ≡ read_digits n s
unfolding digits
read_digits-digits zero n s h = absurd (omega (arith, h))
read_digits-digits (suc f) n s h = elim (Bool-cases (ltb n 10)) [
  | inl e ↦ rw e (read_digits-digit 0 n s (ground arith) ∙ ap (λ m. read_digits m s) (omega arith))
  | inr e ↦
      let low : n % 10 < 10 = omega arith in
      let sum : n / 10 * 10 + n % 10 ≡ n = omega arith in
      rw e (
        read_digits-digits f (n / 10) (String.◌++◌ (digit (n % 10)) s) (ground arith)
        ∙ (read_digits-digit (n / 10) (n % 10) s low ∙ ap (λ m. read_digits m s) sum))
]

is_blank-digit : (d : ℕ) (s : String) → d < 10 → is_blank (String.◌++◌ (digit d) s) ≡ false
is_blank-digit d s h = let (c, e, v) = digit_then d s h in ap is_blank e

is_blank-digits : (f n : ℕ) (s : String) → n < f → is_blank (digits f n s) ≡ false
unfolding digits
is_blank-digits zero n s h = absurd (omega (arith, h))
is_blank-digits (suc f) n s h = elim (Bool-cases (ltb n 10)) [
  | inl e ↦ rw e (is_blank-digit n s (ground arith))
  | inr e ↦ rw e (is_blank-digits f (n / 10) (String.◌++◌ (digit (n % 10)) s) (ground arith))
]

-- A number in range comes back from its decimal digits.
pub parse_uint-decimal : (n : ℕ) → n < two_to_64 → parse_uint (decimal n) ≡ some n
unfolding parse_uint decimal
parse_uint-decimal n h =
    rw (is_blank-digits (suc n) n "" (omega arith))
      (rw (read_digits-digits (suc n) n "" (omega arith)) (ground arith))

digit-lacks :
    (d n : ℕ) (s : String)
    → n < 10
    → d < 48
    → lacks d s ≡ true
    → lacks d (String.◌++◌ (digit n) s) ≡ true
digit-lacks d n s low h k = let (c, e, v) = digit_then n s low in rw e (ground (arith, v, h, k))

digits-lacks : (d f n : ℕ) (s : String) → d < 48 → lacks d s ≡ true → lacks d (digits f n s) ≡ true
unfolding digits
digits-lacks d zero n s h k = k
digits-lacks d (suc f) n s h k =
    let low : n % 10 < 10 = omega arith in
    elim (Bool-cases (ltb n 10)) [
      | inl e ↦ rw e (digit-lacks d n s (ground arith) h k)
      | inr e ↦ rw e (
          digits-lacks d f (n / 10) (String.◌++◌ (digit (n % 10)) s) h
            (digit-lacks d (n % 10) s low h k))
    ]

-- The digits of a number are no point.
pub lacks-decimal : (n : ℕ) → lacks 46 (decimal n) ≡ true
unfolding decimal
lacks-decimal n = digits-lacks 46 (suc n) n "" (omega arith) refl

parsed : parse_uint "18446744073709551615" ≡ some 18446744073709551615
unfolding parse_uint
parsed = refl

overflown : parse_uint "18446744073709551616" ≡ none
unfolding parse_uint
overflown = refl
