-- ===== src/Base/Cut.antt =====
-- `strings.Split`, `strings.SplitN` and `strings.Replace`.
use Prim.Native.Nat.{ℕ}
use Prim.Native.Char.{Char, code}
use Prim.Native.String
use Prim.Native.String.append
use Prim.Native.String.{String}
use mathlib.Core.Path.{◌≡◌, refl, ap, ◌∙◌}
use mathlib.Core.Logic.{inl, inr}
use mathlib.Core.Bool.{Bool, true, not, ◌&&◌}
use mathlib.Core.List.{List, [], ◌∷◌}
use native.Mathlib.Omega.{arith}
use activemq_artemis_operato.Base.Tests.{◌=?◌, =?_iff, if◌then◌else◌, Bool-cases}
use activemq_artemis_operato.Base.Lists.{All}
use activemq_artemis_operato.Base.Text.{join, has_prefix, contains, before}

unfoldable pub drop_prefix : String → String → String
drop_prefix s String.[] = s
drop_prefix String.[] (String.◌∷◌ d t) = String.[]
drop_prefix (String.◌∷◌ c s) (String.◌∷◌ d t) = drop_prefix s t

-- The part of a text after the first occurrence of `t`: the second part of `strings.SplitN(s, t, 2)`.
unfoldable pub after : String → String → String
unfolding drop_prefix has_prefix
after String.[] t = String.[]
after (String.◌∷◌ c s) t =
    if has_prefix (String.◌∷◌ c s) t then drop_prefix (String.◌∷◌ c s) t else after s t

-- `strings.Replace(s, t, u, 1)`.
unfoldable pub replace_first : String → String → String → String
unfolding after before contains
replace_first s t u =
    if contains s t then String.◌++◌ (before s t) (String.◌++◌ u (after s t)) else s

-- `strings.ReplaceAll` of a character, given by its code point.
unfoldable pub replace_all : String → ℕ → String → String
replace_all String.[] d u = String.[]
replace_all (String.◌∷◌ c s) d u =
    if code c =? d then String.◌++◌ u (replace_all s d u) else String.◌∷◌ c (replace_all s d u)

onto_first : Char → List String → List String
onto_first c [] = String.◌∷◌ c "" ∷ []
onto_first c (s ∷ ss) = String.◌∷◌ c s ∷ ss

-- `strings.Split` at a character.
unfoldable pub split : String → ℕ → List String
unfolding onto_first
split String.[] d = "" ∷ []
split (String.◌∷◌ c s) d = if code c =? d then "" ∷ split s d else onto_first c (split s d)

-- No character of the text is the given one.
abbrev pub lacks : ℕ → String → Bool
lacks d String.[] = true
lacks d (String.◌∷◌ c s) = not (code c =? d) && lacks d s

split_last : (c : Char) (s : String) → lacks (code c) s ≡ true → split s (code c) ≡ s ∷ []
unfolding split
split_last c String.[] h = refl
split_last c (String.◌∷◌ d s) h = elim (Bool-cases (code d =? code c)) [
  | inl e ↦ absurd (ground arith)
  | inr e ↦ rw e (rw (split_last c s (ground arith)) refl)
]

split_next :
    (c : Char) (s t : String)
    → lacks (code c) s ≡ true
    → split (String.◌++◌ s (String.◌∷◌ c t)) (code c) ≡ s ∷ split t (code c)
unfolding split
split_next c String.[] t h =
    rw (append.nil (String.◌∷◌ c t)) (rw ((=?_iff (code c) (code c)).1 refl) refl)
split_next c (String.◌∷◌ d s) t h = elim (Bool-cases (code d =? code c)) [
  | inl e ↦ absurd (ground arith)
  | inr e ↦ rw (append.cons d s (String.◌∷◌ c t)) (rw e (rw (split_next c s t (ground arith)) refl))
]

comma_next : (c : Char) (t : String) → String.◌++◌ (String.◌∷◌ c "") t ≡ String.◌∷◌ c t
comma_next c t = append.cons c "" t ∙ ap (λ r. String.◌∷◌ c r) (append.nil t)

-- Texts that lack the separator come back from their join, if there is one at least.
pub split-join :
    (c : Char) (s : String) (ss : List String)
    → All (λ t. lacks (code c) t ≡ true) (s ∷ ss)
    → split (join (s ∷ ss) (String.◌∷◌ c "")) (code c) ≡ s ∷ ss
split-join c s [] h = split_last c s h.0
split-join c s (t ∷ ts) h =
    let rest = join (t ∷ ts) (String.◌∷◌ c "") in
    ap (λ r. split (String.◌++◌ s r) (code c)) (comma_next c rest)
    ∙ split_next c s rest h.0
    ∙ ap (λ r. s ∷ r) (split-join c t ts h.1)

cuts : split "a,b," b',' ≡ ("a" ∷ "b" ∷ "" ∷ [])
unfolding split
cuts = refl

parts : after "a::b::c" "::" ≡ "b::c"
unfolding after
parts = refl

replaced : replace_first "a::b" "::" "-" ≡ "a-b"
unfolding replace_first
replaced = refl
