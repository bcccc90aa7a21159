-- ===== src/Versions/Pins.antt =====
-- What the desired version of a spec pins: nothing, x, x.y or x.y.z.
use Prim.Native.String
use Prim.Native.String.append
use activemq_artemis_operato.Versions.{
  Version, Components, components_of, resolve_version_components, locks_down,
}
use activemq_artemis_operato.Base.{
  ℕ, suc, ◌<◌, String, Bool, true, false, ◌&&◌, some, none, List, [], ◌∷◌, not, ◌==◌, eq_iff, sym,
  is_none, inl, inr, Bool-cases, false≢true, ◌≡◌, refl, ap, ◌∙◌, ◌=?◌, arith, join, decimal,
  two_to_64, split_n, split_n-last, split_n-next, parse_uint-decimal, lacks-decimal,
}

pub data Pin : Type 0 where
  pin_none : Pin
  pin_major : ℕ → Pin
  pin_minor : ℕ → ℕ → Pin
  pin_patch : ℕ → ℕ → ℕ → Pin

-- The text of the spec.
abbrev pub pin_text : Pin → String
pin_text pin_none = ""
pin_text (pin_major a) = decimal a
pin_text (pin_minor a b) = join (decimal a ∷ decimal b ∷ []) "."
pin_text (pin_patch a b c) = join (decimal a ∷ decimal b ∷ decimal c ∷ []) "."

-- The version has the components that are pinned.
abbrev pub has_pin : Pin → Version → Bool
has_pin pin_none v = true
has_pin (pin_major a) v = a =? v.major
has_pin (pin_minor a b) v = a =? v.major && b =? v.minor
has_pin (pin_patch a b c) v = a =? v.major && (b =? v.minor && c =? v.patch)

-- The components are 64-bit numbers.
abbrev pub IsPin : Pin → Type 0
IsPin pin_none = Unit
IsPin (pin_major a) = a < two_to_64
IsPin (pin_minor a b) = (a < two_to_64) × (b < two_to_64)
IsPin (pin_patch a b c) = (a < two_to_64) × ((b < two_to_64) × (c < two_to_64))

-- The components that the code reads of the text.
abbrev pub pinned : Pin → Components
pinned pin_none = record { major = none; minor = none; patch = none }
pinned (pin_major a) = record { major = some a; minor = none; patch = none }
pinned (pin_minor a b) = record { major = some a; minor = some b; patch = none }
pinned (pin_patch a b c) = record { major = some a; minor = some b; patch = some c }

point_next : (t : String) → String.◌++◌ "." t ≡ String.◌∷◌ "." t
point_next t = append.cons "." "" t ∙ ap (λ r. String.◌∷◌ "." r) (append.nil t)

split_one : (n a : ℕ) → split_n (suc n) (decimal a) "." ≡ decimal a ∷ []
split_one n a = split_n-last "." n (decimal a) (lacks-decimal a)

split_more :
    (n a : ℕ) (t : String)
    → split_n (suc (suc n)) (String.◌++◌ (decimal a) (String.◌++◌ "." t)) "."
      ≡ decimal a ∷ split_n (suc n) t "."
split_more n a t =
    ap (λ r. split_n (suc (suc n)) (String.◌++◌ (decimal a) r) ".") (point_next t)
    ∙ split_n-next "." n (decimal a) t (lacks-decimal a)

parts : Pin → List String
parts pin_none = "" ∷ []
parts (pin_major a) = decimal a ∷ []
parts (pin_minor a b) = decimal a ∷ decimal b ∷ []
parts (pin_patch a b c) = decimal a ∷ decimal b ∷ decimal c ∷ []

split_n-pin_text : (p : Pin) → split_n 3 (pin_text p) "." ≡ parts p
unfolding split_n parts
split_n-pin_text pin_none = refl
split_n-pin_text (pin_major a) = split_one 2 a
split_n-pin_text (pin_minor a b) = split_more 1 a (decimal b) ∙ rw (split_one 1 b) refl
split_n-pin_text (pin_patch a b c) =
    split_more 1 a (join (decimal b ∷ decimal c ∷ []) ".")
    ∙ rw (split_more 0 b (decimal c)) (rw (split_one 0 c) refl)

components_of-parts : (p : Pin) → IsPin p → components_of (parts p) ≡ pinned p
unfolding components_of parts
components_of-parts pin_none h = refl
components_of-parts (pin_major a) h = rw (parse_uint-decimal a h) refl
components_of-parts (pin_minor a b) h =
    rw (parse_uint-decimal a h.0) (rw (parse_uint-decimal b h.1) refl)
components_of-parts (pin_patch a b c) h =
    rw (parse_uint-decimal a h.0)
      (rw (parse_uint-decimal b h.1.0) (rw (parse_uint-decimal c h.1.1) refl))

pub resolve_version_components-pin_text :
    (p : Pin) → IsPin p → resolve_version_components (pin_text p) ≡ pinned p
unfolding resolve_version_components
resolve_version_components-pin_text p h =
    ap components_of (split_n-pin_text p) ∙ components_of-parts p h

-- Something is pinned.
abbrev pub pins : Pin → Bool
pins pin_none = false
pins (pin_major a) = true
pins (pin_minor a b) = true
pins (pin_patch a b c) = true

pins-major : (p : Pin) → pins p ≡ not (is_none (pinned p).major)
pins-major pin_none = refl
pins-major (pin_major a) = refl
pins-major (pin_minor a b) = refl
pins-major (pin_patch a b c) = refl

pins-blank : (p : Pin) → IsPin p → pin_text p ≡ "" → pins p ≡ false
pins-blank p h e =
    let same : pinned p ≡ pinned pin_none =
      sym (resolve_version_components-pin_text p h)
      ∙ (ap resolve_version_components e ∙ resolve_version_components-pin_text pin_none tt) in
    pins-major p ∙ ap (λ (c : Components). not (is_none c.major)) same

blank-pins : (p : Pin) → (pin_text p == "") ≡ false → false ≡ not (pins p)
blank-pins pin_none e = absurd (false≢true (sym e))
blank-pins (pin_major a) e = refl
blank-pins (pin_minor a b) e = refl
blank-pins (pin_patch a b c) e = refl

-- The text of a pin is empty only where nothing is pinned.
pub pin_text-blank : (p : Pin) → IsPin p → (pin_text p == "") ≡ not (pins p)
pin_text-blank p h = elim (Bool-cases (pin_text p == "")) [
  | inl e ↦ rw e (rw (pins-blank p h ((eq_iff (pin_text p) "").0 e)) refl)
  | inr e ↦ rw e (blank-pins p e)
]

pub locks_down-pinned :
    (p : Pin) (v : Version) → pins p ≡ true → locks_down (pinned p) v ≡ has_pin p v
unfolding locks_down
locks_down-pinned pin_none v h = absurd (false≢true h)
locks_down-pinned (pin_major a) v h = ground arith
locks_down-pinned (pin_minor a b) v h = ground arith
locks_down-pinned (pin_patch a b c) v h = ground arith
