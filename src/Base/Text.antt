-- ===== src/Base/Text.antt =====
-- Go's `strings` and `fmt` over texts: tests on substrings, cutting, and numbers in decimal.
use Prim.Native.Nat.{ℕ, zero, suc, ◌/◌, ◌%◌}
use Prim.Native.Char.{Char, code}
use Prim.Native.String
use Prim.Native.String.{String}
use mathlib.Core.Path.{◌≡◌, refl}
use mathlib.Core.Logic.{inl, inr}
use mathlib.Core.Bool.{Bool, true, false, false≢true, ◌&&◌, ◌||◌}
use mathlib.Core.List.{List, [], ◌∷◌}
use native.Mathlib.Omega.{arith}
use activemq_artemis_operato.Base.Tests.{◌=?◌, ltb, leb, if◌then◌else◌, Bool-cases}
use activemq_artemis_operato.Base.Int.{ℤ, pos, negsuc}

-- A text put together from its parts, as `fmt.Sprintf` and `+` do.
abbrev pub concat : List String → String
concat [] = ""
concat (s ∷ ss) = String.◌++◌ s (concat ss)

-- `strings.Join`.
abbrev pub join : List String → String → String
join [] sep = ""
join (s ∷ []) sep = s
join (s ∷ t ∷ ts) sep = String.◌++◌ s (String.◌++◌ sep (join (t ∷ ts) sep))

-- `strings.HasPrefix`.
unfoldable pub has_prefix : String → String → Bool
has_prefix s String.[] = true
has_prefix String.[] (String.◌∷◌ d t) = false
has_prefix (String.◌∷◌ c s) (String.◌∷◌ d t) = (code c =? code d) && has_prefix s t

-- `strings.Contains`.
unfoldable pub contains : String → String → Bool
unfolding has_prefix
contains String.[] t = has_prefix String.[] t
contains (String.◌∷◌ c s) t = has_prefix (String.◌∷◌ c s) t || contains s t

-- The part of a text before the first occurrence of `t`: the first part that `strings.SplitN` gives.
unfoldable pub before : String → String → String
unfolding has_prefix
before String.[] t = String.[]
before (String.◌∷◌ c s) t =
    if has_prefix (String.◌∷◌ c s) t then String.[] else String.◌∷◌ c (before s t)

-- The decimal digits of a number; `suc n` rounds are enough, since each divides by ten.
abbrev pub digit : ℕ → String
digit n =
    if n =? 0
    then "0"
    else if n =? 1
    then "1"
    else if n =? 2
    then "2"
    else if n =? 3
    then "3"
    else if n =? 4
    then "4"
    else if n =? 5
    then "5"
    else if n =? 6
    then "6"
    else if n =? 7
    then "7"
    else if n =? 8
    then "8"
    else "9"

unfoldable pub digits : ℕ → ℕ → String → String
digits zero n acc = acc
digits (suc f) n acc =
    let more = digits f (n / 10) (String.◌++◌ (digit (n % 10)) acc) in
    if ltb n 10 then String.◌++◌ (digit n) acc else more

-- `%d` of a number.
unfoldable pub decimal : ℕ → String
unfolding digits
decimal n = digits (suc n) n ""

-- `%d` of an int64.
unfoldable pub decimal_int : ℤ → String
unfolding decimal
decimal_int (pos n) = decimal n
decimal_int (negsuc n) = String.◌++◌ "-" (decimal (suc n))

has_prefix_step :
    (c d : Char) (s t : String) {b : Bool}
    → (b ≡ true → has_prefix s t ≡ true)
    → ((code c =? code d) && b) ≡ true
    → ((code c =? code d) && has_prefix s t) ≡ true
has_prefix_step c d s t {b} f h = ground arith

has_prefix-before : (s t u : String) → has_prefix (before s u) t ≡ true → has_prefix s t ≡ true
unfolding has_prefix before
has_prefix-before s String.[] u h = refl
has_prefix-before String.[] (String.◌∷◌ d t) u h = h
has_prefix-before (String.◌∷◌ c s) (String.◌∷◌ d t) u h =
    elim (Bool-cases (has_prefix (String.◌∷◌ c s) u)) [
      | inl cut ↦ absurd (false≢true (rw cut at h))
      | inr on ↦ has_prefix_step c d s t (has_prefix-before s t u) (rw on at h)
    ]

-- What stands before the first occurrence of a nonempty text does not contain it.
pub contains-before :
    (s : String) (d : Char) (t : String)
    → contains (before s (String.◌∷◌ d t)) (String.◌∷◌ d t) ≡ false
unfolding contains before
contains-before String.[] d t = refl
contains-before (String.◌∷◌ c s) d t = elim (Bool-cases ((code c =? code d) && has_prefix s t)) [
  | inl cut ↦ rw cut refl
  | inr on ↦ rw on (ground (arith, contains-before s d t, has_prefix-before s t (String.◌∷◌ d t)))
]

decimals : decimal 61616 ≡ "61616"
unfolding decimal
decimals = refl

-- `unicode.IsSpace` of a code point.
abbrev is_space : ℕ → Bool
is_space c =
    (leb 9 c && leb c 13)
    || c =? 32
    || c =? 0x85
    || c =? 0xA0
    || c =? 0x1680
    || (leb 0x2000 c && leb c 0x200A)
    || c =? 0x2028
    || c =? 0x2029
    || c =? 0x202F
    || c =? 0x205F
    || c =? 0x3000

trim_left : String → String
trim_left String.[] = String.[]
trim_left (String.◌∷◌ c s) = if is_space (code c) then trim_left s else String.◌∷◌ c s

abbrev pub is_blank : String → Bool
is_blank String.[] = true
is_blank (String.◌∷◌ c s) = false

trim_right : String → String
trim_right String.[] = String.[]
trim_right (String.◌∷◌ c s) =
    let rest = trim_right s in
    if is_blank rest && is_space (code c) then String.[] else String.◌∷◌ c rest

-- `strings.TrimSpace`.
unfoldable pub trim_space : String → String
unfolding trim_left trim_right
trim_space s = trim_right (trim_left s)

trimmed : trim_space " a b\n" ≡ "a b"
unfolding trim_space
trimmed = refl
