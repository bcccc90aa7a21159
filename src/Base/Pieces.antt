-- ===== src/Base/Pieces.antt =====
-- `strings.SplitN` and `strings.Split` on texts that are put together from pieces and separators.
use Prim.Native.Nat.{ℕ, zero, suc}
use Prim.Native.Char.{Char, code}
use Prim.Native.String
use Prim.Native.String.append
use Prim.Native.String.{String}
use mathlib.Core.Path.{◌≡◌, refl, ap}
use mathlib.Core.Bool.{true, false}
use mathlib.Core.List.{List, [], ◌∷◌}
use native.Mathlib.Omega.{arith}
use activemq_artemis_operato.Base.Tests.{=?_iff, if◌then◌else◌}
use activemq_artemis_operato.Base.Text.{has_prefix, contains, before}
use activemq_artemis_operato.Base.Cut.{after, drop_prefix, lacks}

-- `strings.SplitN(s, sep, n)`: at most n pieces, the last of them not split.
unfoldable pub split_n : ℕ → String → String → List String
unfolding contains before after
split_n zero s sep = []
split_n (suc zero) s sep = s ∷ []
split_n (suc (suc n)) s sep =
    let rest = split_n (suc n) (after s sep) sep in
    if contains s sep then before s sep ∷ rest else s ∷ []

module _ (c : Char) where
  abbrev sep : String
  sep = String.◌∷◌ c ""

  -- No piece of the text starts at a separator.
  contains-lacks : (s : String) → lacks (code c) s ≡ true → contains s sep ≡ false
  unfolding contains has_prefix
  contains-lacks String.[] h = refl
  contains-lacks (String.◌∷◌ d s) h = rw (contains-lacks s (ground arith)) (ground (arith, h))

  contains-next : (s t : String) → contains (String.◌++◌ s (String.◌∷◌ c t)) sep ≡ true
  unfolding contains has_prefix
  contains-next String.[] t =
      rw (append.nil (String.◌∷◌ c t)) (rw ((=?_iff (code c) (code c)).1 refl) refl)
  contains-next (String.◌∷◌ d s) t =
      rw (append.cons d s (String.◌∷◌ c t)) (rw (contains-next s t) (ground arith))

  has_prefix-other :
      (d : Char) (s r : String)
      → lacks (code c) (String.◌∷◌ d s) ≡ true
      → has_prefix (String.◌∷◌ d r) sep ≡ false
  unfolding has_prefix
  has_prefix-other d s r h = ground (arith, h)

  has_prefix-here : (t : String) → has_prefix (String.◌∷◌ c t) sep ≡ true
  unfolding has_prefix
  has_prefix-here t = rw ((=?_iff (code c) (code c)).1 refl) refl

  before-next :
      (s t : String) → lacks (code c) s ≡ true → before (String.◌++◌ s (String.◌∷◌ c t)) sep ≡ s
  unfolding before
  before-next String.[] t h = rw (append.nil (String.◌∷◌ c t)) (rw (has_prefix-here t) refl)
  before-next (String.◌∷◌ d s) t h = rw (append.cons d s (String.◌∷◌ c t)) (
      rw (has_prefix-other d s (String.◌++◌ s (String.◌∷◌ c t)) h)
        (ap (λ r. String.◌∷◌ d r) (before-next s t (ground arith))))

  after-next :
      (s t : String) → lacks (code c) s ≡ true → after (String.◌++◌ s (String.◌∷◌ c t)) sep ≡ t
  unfolding after drop_prefix
  after-next String.[] t h = rw (append.nil (String.◌∷◌ c t)) (rw (has_prefix-here t) refl)
  after-next (String.◌∷◌ d s) t h =
      rw (append.cons d s (String.◌∷◌ c t)) (
        rw (has_prefix-other d s (String.◌++◌ s (String.◌∷◌ c t)) h)
          (after-next s t (ground arith)))

  pub split_n-last : (n : ℕ) (s : String) → lacks (code c) s ≡ true → split_n (suc n) s sep ≡ s ∷ []
  unfolding split_n
  split_n-last zero s h = refl
  split_n-last (suc n) s h = rw (contains-lacks s h) refl

  pub split_n-next :
      (n : ℕ) (s t : String)
      → lacks (code c) s ≡ true
      → split_n (suc (suc n)) (String.◌++◌ s (String.◌∷◌ c t)) sep ≡ s ∷ split_n (suc n) t sep
  unfolding split_n
  split_n-next n s t h =
      rw (contains-next s t) (rw (before-next s t h) (rw (after-next s t h) refl))

pieces : split_n 3 "2.27.1.x" "." ≡ ("2" ∷ "27" ∷ "1.x" ∷ [])
unfolding split_n
pieces = refl
