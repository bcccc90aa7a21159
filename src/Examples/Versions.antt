-- ===== src/Examples/Versions.antt =====
-- Versions of brokers on examples: a semver library over the components that the operator reads, with an
-- insertion sort.
use activemq_artemis_operato.Versions.{
  Version, Semver, Components, supported_versions, resolve_version_components,
  resolve_broker_version, compact_version, resolve_broker_version_from_cr,
}
use activemq_artemis_operato.Versions.Ascending.{at_most, IsAscending, IsLatest}
use activemq_artemis_operato.Versions.Pins.{
  pin_major, pin_patch, IsPin, pin_text, has_pin, resolve_version_components-pin_text,
}
use activemq_artemis_operato.Versions.Latest.{resolve_broker_version-IsLatest}
use activemq_artemis_operato.Versions.Images.{
  Process, is_locked_down, resolve_image, validate_broker_image_version,
}
use activemq_artemis_operato.Versions.Status.{upgrade_status}
use activemq_artemis_operato.Versions.Kept.{IsUpdated, IsKept, upgrade_status-IsKept}
use activemq_artemis_operato.Versions.Supported.{
  version, or_zero, IsSemver, resolve_broker_version_from_cr-supported,
}
use activemq_artemis_operato.Versions.Valid.{validate_broker_image_version-none_iff}
use activemq_artemis_operato.Base.{
  ℕ, String, true, false, none, some, List, [], ◌∷◌, ◌≡◌, refl, ap, ◌↔◌, arith, inl, inr,
  Bool-cases, Memᴰ, All-imp, All-Memᴰ, All-of-Memᴰ, decimal, if◌then◌else◌, has, has-Memᴰ,
}
use activemq_artemis_operato.Errors.{ok}

insert_version : Version → List Version → List Version
insert_version v [] = v ∷ []
insert_version v (w ∷ ws) = if at_most v w then v ∷ w ∷ ws else w ∷ insert_version v ws

sort_versions : List Version → List Version
unfolding insert_version
sort_versions [] = []
sort_versions (v ∷ vs) = insert_version v (sort_versions vs)

same_from :
    {u v : Version} {vs ws : List Version}
    → (Memᴰ u vs → Memᴰ u ws)
    → Memᴰ u (v ∷ vs)
    → Memᴰ u (v ∷ ws)
same_from f (Memᴰ.head q) = Memᴰ.head q
same_from f (Memᴰ.tail j) = Memᴰ.tail (f j)

swap : {u v w : Version} {ws : List Version} → Memᴰ u (v ∷ w ∷ ws) → Memᴰ u (w ∷ v ∷ ws)
swap (Memᴰ.head q) = Memᴰ.tail (Memᴰ.head q)
swap (Memᴰ.tail (Memᴰ.head q)) = Memᴰ.head q
swap (Memᴰ.tail (Memᴰ.tail j)) = Memᴰ.tail (Memᴰ.tail j)

insert_version-Memᴰ :
    (u v : Version) (vs : List Version) → Memᴰ u (v ∷ vs) → Memᴰ u (insert_version v vs)
unfolding insert_version
insert_version-Memᴰ u v [] i = i
insert_version-Memᴰ u v (w ∷ ws) i = elim (Bool-cases (at_most v w)) [
  | inl e ↦ rw e i
  | inr e ↦ rw e (same_from (insert_version-Memᴰ u v ws) (swap i))
]

Memᴰ-insert_version :
    (u v : Version) (vs : List Version) → Memᴰ u (insert_version v vs) → Memᴰ u (v ∷ vs)
unfolding insert_version
Memᴰ-insert_version u v [] i = i
Memᴰ-insert_version u v (w ∷ ws) i = elim (Bool-cases (at_most v w)) [
  | inl e ↦ rw e at i
  | inr e ↦ swap (same_from (Memᴰ-insert_version u v ws) (rw e at i))
]

at_most_total : (v w : Version) → at_most v w ≡ false → at_most w v ≡ true
at_most_total v w h = ground arith

at_most_trans : (u v w : Version) → at_most u v ≡ true → at_most v w ≡ true → at_most u w ≡ true
at_most_trans u v w h k = ground arith

insert_version-IsAscending :
    (v : Version) (vs : List Version) → IsAscending vs → IsAscending (insert_version v vs)
unfolding insert_version
insert_version-IsAscending v [] h = (tt, tt)
insert_version-IsAscending v (w ∷ ws) h = elim (Bool-cases (at_most v w)) [
  | inl e ↦ rw e (
    (
      e,
      All-imp (λ u. at_most w u ≡ true) (λ u. at_most v u ≡ true) (λ u k. at_most_trans v w u e k)
          ws h.0,
    ),
    h,
  )
  | inr e ↦ rw e (
    All-of-Memᴰ (λ u. at_most w u ≡ true) (insert_version v ws) (least e),
    insert_version-IsAscending v ws h.1,
  )
]
  where
    of_both : at_most v w ≡ false → (u : Version) → Memᴰ u (v ∷ ws) → at_most w u ≡ true
    of_both e u (Memᴰ.head q) = rw q (at_most_total v w e)
    of_both e u (Memᴰ.tail j) = All-Memᴰ (λ x. at_most w x ≡ true) u j h.0

    least : at_most v w ≡ false → (u : Version) → Memᴰ u (insert_version v ws) → at_most w u ≡ true
    least e u i = of_both e u (Memᴰ-insert_version u v ws i)

sort_versions-IsAscending : (vs : List Version) → IsAscending (sort_versions vs)
unfolding sort_versions
sort_versions-IsAscending [] = tt
sort_versions-IsAscending (v ∷ vs) =
    insert_version-IsAscending v (sort_versions vs) (sort_versions-IsAscending vs)

Memᴰ-sort_versions : (u : Version) (vs : List Version) → Memᴰ u vs → Memᴰ u (sort_versions vs)
unfolding sort_versions
Memᴰ-sort_versions u [] i = i
Memᴰ-sort_versions u (v ∷ vs) i =
    insert_version-Memᴰ u v (sort_versions vs) (same_from (Memᴰ-sort_versions u vs) i)

sort_versions-Memᴰ : (u : Version) (vs : List Version) → Memᴰ u (sort_versions vs) → Memᴰ u vs
unfolding sort_versions
sort_versions-Memᴰ u [] i = i
sort_versions-Memᴰ u (v ∷ vs) i =
    same_from (sort_versions-Memᴰ u vs) (Memᴰ-insert_version u v (sort_versions vs) i)

abbrev of_components : Components → Version
of_components c = version (or_zero c.major) (or_zero c.minor) (or_zero c.patch)

parsed : String → Version
parsed s = of_components (resolve_version_components s)

abbrev pub semver : Semver
unfolding parsed sort_versions
semver = record {
  parse_tolerant = λ s. ok (parsed s);
  must_parse = parsed;
  sort = sort_versions;
  text = λ v. pin_text (pin_patch v.major v.minor v.patch);
}

parsed_triple :
    (a b c : ℕ) → IsPin (pin_patch a b c) → parsed (pin_text (pin_patch a b c)) ≡ version a b c
unfolding parsed
parsed_triple a b c h = ap of_components (resolve_version_components-pin_text (pin_patch a b c) h)

semver-IsSemver : IsSemver semver
unfolding semver
semver-IsSemver = record {
  parse_tolerant_lem = λ a b c h. ap ok (parsed_triple a b c h);
  must_parse_lem = parsed_triple;
  text_lem = λ a b c. refl;
  sort_keeps = λ v vs. (Memᴰ-sort_versions v vs, sort_versions-Memᴰ v vs);
  sort-IsAscending = sort_versions-IsAscending;
}

abbrev listed : List Version
listed = version 2 27 0 ∷ version 2 27 1 ∷ version 2 28 0 ∷ version 3 0 0 ∷ []

abbrev listed_later : List Version
listed_later = version 2 27 0 ∷ version 2 28 3 ∷ []

resolve_broker_version-IsLatest_example :
    IsLatest (has_pin (pin_major 2)) listed (resolve_broker_version listed (pin_text (pin_major 2)))
resolve_broker_version-IsLatest_example =
    resolve_broker_version-IsLatest listed (pin_major 2)
      ((refl, (refl, (refl, tt))), ((refl, (refl, tt)), ((refl, tt), (tt, tt)))) (omega arith)

abbrev unlocked : is_locked_down "" ≡ false
unfolding is_locked_down
unlocked = refl

resolved : resolve_broker_version listed (pin_text (pin_major 2)) ≡ some (version 2 28 0)
unfolding resolve_broker_version decimal
resolved = refl

resolved_later :
    resolve_broker_version listed_later (pin_text (pin_major 2)) ≡ some (version 2 28 3)
unfolding resolve_broker_version decimal
resolved_later = refl

upgrade_status-IsKept_example :
    IsUpdated (upgrade_status "" (pin_text (pin_major 2))) listed (version 2 28 0)
    × IsKept (upgrade_status "" (pin_text (pin_major 2))) (version 2 28 0) (version 2 28 3)
upgrade_status-IsKept_example =
    upgrade_status-IsKept "" (pin_major 2) unlocked (omega arith) listed listed_later
      ((refl, (refl, (refl, tt))), ((refl, (refl, tt)), ((refl, tt), (tt, tt))))
      ((refl, tt), (tt, tt)) resolved resolved_later

listed_version : Memᴰ "2.27.0" supported_versions
unfolding supported_versions has
listed_version = has-Memᴰ "2.27.0" supported_versions refl

resolve_broker_version_from_cr-supported_example :
    resolve_broker_version_from_cr semver "2.27.0" ≡ ok "2.27.0"
resolve_broker_version_from_cr-supported_example =
    resolve_broker_version_from_cr-supported semver semver-IsSemver "2.27.0" listed_version

validate_broker_image_version-none_iff_example :
    (validate_broker_image_version semver "my/image" "2.27" ≡ none) ↔ (
      ((text : String) × (resolve_broker_version_from_cr semver "2.27" ≡ ok text))
      × (is_locked_down "my/image" ≡ true → Memᴰ "2.27" supported_versions))
validate_broker_image_version-none_iff_example =
    validate_broker_image_version-none_iff semver "my/image" "2.27"

abbrev pub process : Process
process = record { goarch = "amd64"; lookup_env = λ name. none }

latest_resolved : resolve_broker_version_from_cr semver "" ≡ ok "2.54.0"
unfolding resolve_broker_version_from_cr insert_version decimal semver
latest_resolved = refl

compacted : compact_version "2.27.1" ≡ "2271"
unfolding compact_version
compacted = refl

default_image :
    resolve_image semver process "placeholder" "2.27" "KUBERNETES"
    ≡ "quay.io/arkmq-org/arkmq-org-broker-kubernetes:artemis.2.54.0"
unfolding resolve_image insert_version decimal semver
default_image = refl

-- The patch of a version with a pre-release is not read: it resolves to the latest patch.
pre_release : resolve_broker_version_from_cr semver "2.27.0-rc1" ≡ ok "2.27.1"
unfolding resolve_broker_version_from_cr insert_version decimal semver
pre_release = refl
