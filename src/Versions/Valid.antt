-- ===== src/Versions/Valid.antt =====
-- When the image and the version of a broker's spec are accepted.
use activemq_artemis_operato.Versions.{
  Semver, supported_versions, resolve_broker_version_from_cr, is_supported_version,
}
use activemq_artemis_operato.Versions.Images.{
  is_locked_down, image_condition, validated, validate_broker_image_version,
}
use activemq_artemis_operato.Base.{
  String, true, false, none, ◌≡◌, refl, sym, ap, ◌∙◌, ◌↔◌, arith, inl, inr, Bool-cases, false≢true,
  Memᴰ, has, Memᴰ-has, has-Memᴰ, ◌==◌, eq_iff,
}
use activemq_artemis_operato.Errors.{Result, ok, err}

supported_iff : (s : String) → (is_supported_version s ≡ true) ↔ Memᴰ s supported_versions
unfolding is_supported_version
supported_iff s = (has-Memᴰ s supported_versions, λ i. Memᴰ-has i)

-- The empty text is no version.
blank_unsupported : is_supported_version "" ≡ false
unfolding is_supported_version supported_versions has
blank_unsupported = refl

image_condition-none :
    (image version : String)
    → image_condition image version ≡ none
    → is_locked_down image ≡ true
    → is_supported_version version ≡ true
image_condition-none image version h l = elim (Bool-cases (is_supported_version version)) [
  | inl s ↦ s
  | inr s ↦ absurd (ground (arith, h, l, s))
]

none-image_condition :
    (image version : String)
    → (is_locked_down image ≡ true → is_supported_version version ≡ true)
    → image_condition image version ≡ none
none-image_condition image version h = elim (Bool-cases (is_locked_down image)) [
  | inr l ↦ rw l refl
  | inl l ↦ elim (Bool-cases (version == "")) [
    | inl b ↦ absurd (
        false≢true
          (sym blank_unsupported ∙ (ap is_supported_version (sym ((eq_iff version "").0 b)) ∙ h l)))
    | inr b ↦ rw l (rw b (rw (h l) refl))
  ]
]

validated-none_iff :
    (image version : String) (r : Result String)
    → (validated image version r ≡ none) ↔ (
        ((text : String) × (r ≡ ok text))
        × (is_locked_down image ≡ true → Memᴰ version supported_versions))
validated-none_iff image version (ok t) = (
  λ h. ((t, refl), λ l. (supported_iff version).0 (image_condition-none image version h l)),
  λ r. none-image_condition image version (λ l. (supported_iff version).1 (r.1 l)),
)
validated-none_iff image version (err e) =
    (λ h. absurd (ground (arith, h)), λ r. absurd (ground (arith, r.0.1)))

-- A spec gives no condition exactly when its version resolves to a supported one and, where the spec sets
-- an image of its own, the version is spelled out as one of the supported versions.
pub validate_broker_image_version-none_iff :
    (semver : Semver) (image version : String)
    → (validate_broker_image_version semver image version ≡ none) ↔ (
        ((text : String) × (resolve_broker_version_from_cr semver version ≡ ok text))
        × (is_locked_down image ≡ true → Memᴰ version supported_versions))
unfolding validate_broker_image_version
validate_broker_image_version-none_iff semver image version =
    validated-none_iff image version (resolve_broker_version_from_cr semver version)
