-- ===== src/Versions.antt =====
-- version/version.go, pkg/utils/common/common.go (ResolveBrokerVersion, resolveVersionComponents) and
-- pkg/broker/version/version.go (ResolveBrokerVersionFromCR): the version of the broker that a spec asks
-- for. The library github.com/blang/semver is a parameter.
pub mod Ascending
pub mod Pins
pub mod Latest
pub mod Images
pub mod Status
pub mod Kept
pub mod Supported
pub mod Valid
use activemq_artemis_operato.Base.{
  ℕ, String, Bool, true, false, ◌&&◌, Option, none, some, List, [], ◌∷◌, map, ◌==◌, if◌then◌else◌,
  concat, split_n, parse_uint, ◌=?◌, replace_all, has,
}
use activemq_artemis_operato.Errors.{Result, ok, err, plain}

-- `semver.Version` of a version without a pre-release and a build, as all the supported ones are.
pub record Version : Type 0 where
  pub major : ℕ
  pub minor : ℕ
  pub patch : ℕ

-- The functions of the library that are called: `ParseTolerant`, `MustParse`, `Sort` and `String`.
pub record Semver : Type 0 where
  pub parse_tolerant : String → Result Version
  pub must_parse : String → Version
  pub sort : List Version → List Version
  pub text : Version → String

abbrev pub latest_version : String
latest_version = "2.54.0"

-- `SupportedActiveMQArtemisVersions`.
unfoldable pub supported_versions : List String
supported_versions =
    "2.21.0" ∷ "2.22.0" ∷ "2.23.0" ∷ "2.25.0" ∷ "2.26.0" ∷ "2.27.0" ∷ "2.27.1" ∷ "2.28.0" ∷ "2.29.0"
    ∷ "2.30.0" ∷ "2.31.0" ∷ "2.31.2" ∷ "2.32.0" ∷ "2.33.0" ∷ "2.34.0" ∷ "2.35.0" ∷ "2.36.0"
    ∷ "2.37.0" ∷ "2.38.0" ∷ "2.39.0" ∷ "2.40.0" ∷ "2.41.0" ∷ "2.42.0" ∷ "2.43.0" ∷ "2.44.0"
    ∷ "2.50.0" ∷ "2.51.0" ∷ "2.52.0" ∷ "2.53.0" ∷ "2.54.0" ∷ []

unfoldable pub supported_semantic_versions : Semver → List Version
unfolding supported_versions
supported_semantic_versions semver = semver.sort (map semver.must_parse supported_versions)

unfoldable pub is_supported_version : String → Bool
unfolding supported_versions has
is_supported_version version = has version supported_versions

unfoldable pub compact_version : String → String
unfolding replace_all
compact_version version = replace_all version b'.' ""

-- The components of a desired version; nothing stands for a nil pointer.
pub record Components : Type 0 where
  pub major : Option ℕ
  pub minor : Option ℕ
  pub patch : Option ℕ

-- The switch on the number of parts, each case of which falls through to the next.
unfoldable pub components_of : List String → Components
unfolding parse_uint
components_of [] = record { major = none; minor = none; patch = none }
components_of (a ∷ []) = record { major = parse_uint a; minor = none; patch = none }
components_of (a ∷ b ∷ []) = record { major = parse_uint a; minor = parse_uint b; patch = none }
components_of (a ∷ b ∷ c ∷ []) = record {
  major = parse_uint a;
  minor = parse_uint b;
  patch = parse_uint c;
}
components_of (a ∷ b ∷ c ∷ d ∷ rest) = record { major = none; minor = none; patch = none }

unfoldable pub resolve_version_components : String → Components
unfolding components_of split_n
resolve_version_components desired = components_of (split_n 3 desired ".")

abbrev agrees : Option ℕ → ℕ → Bool → Bool
agrees none n rest = true
agrees (some m) n rest = m =? n && rest

-- The tests of a round of the loop, which lead to a break where they pass.
unfoldable pub locks_down : Components → Version → Bool
locks_down desired v = elim desired.major [
  | none ↦ false
  | some major ↦
      major =? v.major && agrees desired.minor v.minor (agrees desired.patch v.patch true)
]

-- The walk from the end of the list to its start, to the first version that passes.
unfoldable pub walk_back : (Version → Bool) → List Version → Option Version
walk_back test [] = none
walk_back test (v ∷ vs) = elim (walk_back test vs) [
  | none ↦ if test v then some v else none
  | some w ↦ some w
]

abbrev pub last_of : Version → List Version → Version
last_of v [] = v
last_of v (w ∷ ws) = last_of w ws

unfoldable pub resolve_broker_version : List Version → String → Option Version
unfolding resolve_version_components locks_down walk_back
resolve_broker_version [] desired = none
resolve_broker_version (v ∷ vs) desired =
    if desired == ""
    then some (last_of v vs)
    else walk_back (locks_down (resolve_version_components desired)) (v ∷ vs)

abbrev version_text : Semver → String → Option Version → Result String
version_text semver version none =
    err
      (plain (concat ("did not find a matching broker in the supported list for " ∷ version ∷ [])))
version_text semver version (some v) = ok (semver.text v)

abbrev parsed_first : Semver → String → Result Version → Result String
parsed_first semver version (err e) = err e
parsed_first semver version (ok _) =
    version_text semver version
      (resolve_broker_version (supported_semantic_versions semver) version)

unfoldable pub resolve_broker_version_from_cr : Semver → String → Result String
unfolding resolve_broker_version supported_semantic_versions
resolve_broker_version_from_cr semver version =
    if version == ""
    then version_text semver version
        (resolve_broker_version (supported_semantic_versions semver) version)
    else parsed_first semver version (semver.parse_tolerant version)
