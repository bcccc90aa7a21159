-- ===== src/Versions/Status.antt =====
-- pkg/broker/status/status.go, updateVersionStatus: the version, the image and the upgrades that a
-- broker's status reports. All of the version and of the upgrades is written.
use activemq_artemis_operato.Versions.{Semver, resolve_broker_version_from_cr}
use activemq_artemis_operato.Versions.Images.{
  Process, resolve_image, is_locked_down, broker_image_key,
}
use activemq_artemis_operato.Base.{
  String, Bool, true, false, List, [], ◌∷◌, ◌==◌, if◌then◌else◌, split,
}
use activemq_artemis_operato.Errors.{Result, ok, err}

pub record VersionStatus : Type 0 where
  pub broker_version : String
  pub image : String
  pub init_image : String

pub record UpgradeStatus : Type 0 where
  pub security_updates : Bool
  pub major_updates : Bool
  pub minor_updates : Bool
  pub patch_updates : Bool

pub record Reported : Type 0 where
  pub version : VersionStatus
  pub upgrade : UpgradeStatus

abbrev pub upgrades : Bool → Bool → Bool → Bool → UpgradeStatus
upgrades security major minor patch = record {
  security_updates = security;
  major_updates = major;
  minor_updates = minor;
  patch_updates = patch;
}

-- The switch on the number of parts, the first case of which falls through to the second.
abbrev pub upgrades_of_parts : List String → UpgradeStatus
upgrades_of_parts [] = upgrades true false false false
upgrades_of_parts (a ∷ []) = upgrades true false true true
upgrades_of_parts (a ∷ b ∷ []) = upgrades true false false true
upgrades_of_parts (a ∷ b ∷ c ∷ rest) = upgrades true false false false

unfoldable pub upgrade_status : String → String → UpgradeStatus
unfolding is_locked_down split
upgrade_status image version =
    if is_locked_down image
    then upgrades false false false false
    else if version == ""
    then upgrades true true true true
    else upgrades_of_parts (split version b'.')

abbrev or_no_text : Result String → String
or_no_text (ok s) = s
or_no_text (err e) = ""

unfoldable pub update_version_status : Semver → Process → String → String → Reported
unfolding resolve_image resolve_broker_version_from_cr upgrade_status
update_version_status semver process image version = record {
  version = record {
    broker_version = or_no_text (resolve_broker_version_from_cr semver version);
    image = resolve_image semver process image version broker_image_key;
    init_image = "";
  };
  upgrade = upgrade_status image version;
}
