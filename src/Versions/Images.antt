-- ===== src/Versions/Images.antt =====
-- pkg/broker/version/version.go and version/version.go: the image of the broker, from its spec, the
-- variables of the operator's environment, or the default, and the validation of both.
use activemq_artemis_operato.Versions.{
  Semver, compact_version, resolve_broker_version_from_cr, is_supported_version,
}
use activemq_artemis_operato.Base.{
  String, Bool, not, ◌&&◌, ◌||◌, Option, none, some, [], ◌∷◌, ◌==◌, if◌then◌else◌, concat, contains,
}
use activemq_artemis_operato.Errors.{Result, ok, err, error_text}
use activemq_artemis_operato.Api.{Condition, status_false, status_unknown, valid_condition_type}

-- The operator's process: `runtime.GOARCH`, and `os.LookupEnv`.
pub record Process : Type 0 where
  pub goarch : String
  pub lookup_env : String → Option String

-- `os.Getenv`, and the default where it gives the empty text.
abbrev getenv_or : Process → String → String → String
getenv_or process name default = elim (process.lookup_env name) [
  | none ↦ default
  | some value ↦ if value == "" then default else value
]

abbrev pub latest_kube_image : String
latest_kube_image = "quay.io/arkmq-org/arkmq-org-broker-kubernetes:artemis.2.54.0"

abbrev pub latest_init_image : String
latest_init_image = "quay.io/arkmq-org/arkmq-org-broker-init:artemis.2.54.0"

abbrev get_default_kube_image : Process → String
get_default_kube_image process = getenv_or process "DEFAULT_BROKER_KUBE_IMAGE" latest_kube_image

abbrev get_default_init_image : Process → String
get_default_init_image process = getenv_or process "DEFAULT_BROKER_INIT_IMAGE" latest_init_image

unfoldable pub default_image_name : Process → String → String
unfolding contains
default_image_name process name =
    if contains name "_INIT_"
    then get_default_init_image process
    else get_default_kube_image process

abbrev pub image_name_prefix : String
image_name_prefix = "RELATED_IMAGE_BROKER_"

abbrev pub broker_image_key : String
broker_image_key = "KUBERNETES"

abbrev or_no_text : Result String → String
or_no_text (ok s) = s
or_no_text (err e) = ""

-- `DetermineCompactVersionToUse`, whose error the caller drops: it then uses the empty text.
unfoldable pub determine_compact_version_to_use : Semver → String → Result String
unfolding compact_version resolve_broker_version_from_cr
determine_compact_version_to_use semver version =
    elim (resolve_broker_version_from_cr semver version) [
      | err e ↦ err e
      | ok full ↦ ok (compact_version full)
    ]

abbrev generic_name : Semver → String → String → String
generic_name semver version key = concat (
    image_name_prefix
    ∷ key
    ∷ "_"
    ∷ or_no_text (determine_compact_version_to_use semver version)
    ∷ [])

abbrev arch_specific_name : Process → String → String
arch_specific_name process generic =
    if process.goarch == "arm64" || (process.goarch == "s390x" || process.goarch == "ppc64le")
    then concat (generic ∷ "_" ∷ process.goarch ∷ [])
    else generic

unfoldable pub determine_image_to_use : Semver → Process → String → String → String
unfolding determine_compact_version_to_use default_image_name
determine_image_to_use semver process version key =
    let generic = generic_name semver version key in
    let specific = arch_specific_name process generic in
    elim (process.lookup_env specific) [
      | some image ↦ image
      | none ↦ elim (process.lookup_env generic) [
        | some image ↦ image
        | none ↦ default_image_name process specific
      ]
    ]

unfoldable pub is_locked_down : String → Bool
is_locked_down image = not (image == "placeholder") && not (image == "")

unfoldable pub resolve_image : Semver → Process → String → String → String → String
unfolding is_locked_down determine_image_to_use
resolve_image semver process image version key =
    if key == broker_image_key && is_locked_down image
    then image
    else determine_image_to_use semver process version key

abbrev pub valid_unknown_reason : String
valid_unknown_reason = "NonFatalValidationFailure"

abbrev pub valid_invalid_version_reason : String
valid_invalid_version_reason = "SpecVersionInvalid"

abbrev unknown : String → Condition
unknown message = record {
  type = valid_condition_type;
  status = status_unknown;
  observed_generation = 0;
  reason = valid_unknown_reason;
  message = message;
}

abbrev pub image_condition : String → String → Option Condition
image_condition image version =
    if is_locked_down image
    then if not (version == "")
      then if not (is_supported_version version)
        then some (
            unknown
              "Invalid image version, set a supported broker version in spec.version when images are specified")
        else none
      else some (
          unknown
            "Unknown image version, set a supported broker version in spec.version when images are specified")
    else none

abbrev pub validated : String → String → Result String → Option Condition
validated image version (ok _) = image_condition image version
validated image version (err e) = some (record {
  type = valid_condition_type;
  status = status_false;
  observed_generation = 0;
  reason = valid_invalid_version_reason;
  message =
      concat (
        ".Spec.Version does not resolve to a supported broker version, reason "
        ∷ error_text e
        ∷ []);
})

unfoldable pub validate_broker_image_version : Semver → String → String → Option Condition
unfolding resolve_broker_version_from_cr is_locked_down is_supported_version
validate_broker_image_version semver image version =
    validated image version (resolve_broker_version_from_cr semver version)
