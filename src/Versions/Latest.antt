-- ===== src/Versions/Latest.antt =====
-- The version that a spec resolves to is the latest supported one that has the pinned components.
use mathlib.Core.Path.{fun_ext}
use activemq_artemis_operato.Versions.{
  Version, resolve_broker_version, walk_back, locks_down, last_of, resolve_version_components,
}
use activemq_artemis_operato.Versions.Ascending.{
  IsAscending, IsLatest, walk_back-IsLatest, walk_back-all,
}
use activemq_artemis_operato.Versions.Pins.{
  Pin, pin_none, pin_major, pin_minor, pin_patch, IsPin, pin_text, has_pin, pins,
  resolve_version_components-pin_text, pin_text-blank, locks_down-pinned,
}
use activemq_artemis_operato.Base.{
  Bool, true, false, not, if_true, if_false, false≢true, ◌==◌, some, List, [], ◌∷◌, ◌≡◌, refl, ap,
  sym, ◌∙◌, inl, inr, Bool-cases,
}

walk_back-same :
    (s t : Version → Bool) (vs : List Version)
    → ((v : Version) → s v ≡ t v)
    → walk_back s vs ≡ walk_back t vs
walk_back-same s t vs h = ap (λ f. walk_back f vs) (fun_ext h)

has_pin-nothing : (p : Pin) (v : Version) → pins p ≡ false → has_pin p v ≡ true
has_pin-nothing pin_none v h = refl
has_pin-nothing (pin_major a) v h = absurd (false≢true (sym h))
has_pin-nothing (pin_minor a b) v h = absurd (false≢true (sym h))
has_pin-nothing (pin_patch a b c) v h = absurd (false≢true (sym h))

abbrev read : Pin → Version → Bool
read p = locks_down (resolve_version_components (pin_text p))

resolve_broker_version-walk_back :
    (vs : List Version) (p : Pin)
    → IsPin p
    → resolve_broker_version vs (pin_text p) ≡ walk_back (has_pin p) vs
unfolding resolve_broker_version walk_back
resolve_broker_version-walk_back [] p h = refl
resolve_broker_version-walk_back (v ∷ vs) p h = elim (Bool-cases (pins p)) [
  | inl e ↦
      if_false (pin_text p == "") (some (last_of v vs)) (walk_back (read p) (v ∷ vs))
        (pin_text-blank p h ∙ ap not e)
      ∙ walk_back-same (read p) (has_pin p) (v ∷ vs) (λ w.
        ap (λ c. locks_down c w) (resolve_version_components-pin_text p h)
        ∙ locks_down-pinned p w e)
  | inr e ↦
      if_true (pin_text p == "") (some (last_of v vs)) (walk_back (read p) (v ∷ vs))
        (pin_text-blank p h ∙ ap not e)
      ∙ (sym (walk_back-all v vs)
          ∙ walk_back-same (λ _. true) (has_pin p) (v ∷ vs) (λ w. sym (has_pin-nothing p w e)))
]

-- Of versions in ascending order, the one that a spec resolves to is the latest that has the major, minor
-- and patch numbers that the spec pins, as far as it pins them; there is none exactly where no version of
-- the list has them. The numbers are 64-bit ones.
pub resolve_broker_version-IsLatest :
    (versions : List Version) (p : Pin)
    → IsAscending versions
    → IsPin p
    → IsLatest (has_pin p) versions (resolve_broker_version versions (pin_text p))
resolve_broker_version-IsLatest versions p a h =
    rw (resolve_broker_version-walk_back versions p h) (walk_back-IsLatest (has_pin p) versions a)
