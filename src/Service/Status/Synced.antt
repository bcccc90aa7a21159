-- ===== src/Service/Status/Synced.antt =====
-- When `processStatus` of controllers/brokerservice_controller.go reports the apps as provisioned.
use activemq_artemis_operato.Base.{
  String, Bool, true, false, not, ◌&&◌, List, ◌≡◌, ◌≢◌, refl, sym, ap, ◌∙◌, ◌==◌, eq_iff, inl, inr,
  arith, Bool-cases, lookup, false≢true,
}
use activemq_artemis_operato.Errors.{Result, ok, err}
use activemq_artemis_operato.Api.{BrokerService, BrokerStatus, ready_condition_type, is_status_true}
use activemq_artemis_operato.Cluster.{ConditionOps, is_true_condition}
use activemq_artemis_operato.Service.Acceptor.{app_properties_secret_name}
use activemq_artemis_operato.Service.Provision.{provisioned_apps_annotation}
use activemq_artemis_operato.Service.Status.{
  SecretView, StatusReader, applied_version, listed_apps, Apps, synced, apps_of,
}

-- The broker is ready, and the secret of the apps is read at the version that the broker has applied.
pub record Applied (ops : ConditionOps) (r : StatusReader) (service : BrokerService)
    (broker : BrokerStatus) : Type 0 where
  pub ready :
      is_true_condition (ops.find_status_condition broker.conditions ready_condition_type) ≡ true
  pub secret : SecretView
  pub read : r.get_secret service.namespace (app_properties_secret_name service.name) ≡ ok secret
  pub version :
      secret.resource_version
      ≡ applied_version (app_properties_secret_name service.name) broker.external_configs
  pub known : secret.resource_version ≢ ""

-- The apps are reported as provisioned.
abbrev pub is_synced : Apps → Bool
is_synced apps = is_status_true (apps.0).status

synced_at :
    (version : String) (listed : List String) (secret : SecretView)
    → secret.resource_version ≡ version
    → synced version listed (ok secret) ≡ synced secret.resource_version listed (ok secret)
synced_at version listed secret e = ap (λ v. synced v listed (ok secret)) (sym e)

not_empty : (a b : Bool) → a ≡ true → b ≡ false → (a && not b) ≡ true
not_empty a b h g = ground arith

module _ (r : StatusReader) (service : BrokerService) (ready : Bool) (broker : BrokerStatus)
    (listed : List String) where
  -- With the versions in agreement the apps of the annotation are listed.
  pub apps_synced :
      (secret : SecretView)
      → ready ≡ true
      → r.get_secret service.namespace (app_properties_secret_name service.name) ≡ ok secret
      → secret.resource_version
        ≡ applied_version (app_properties_secret_name service.name) broker.external_configs
      → secret.resource_version ≢ ""
      → (is_synced (apps_of r service ready broker listed) ≡ true)
        × ((apps_of r service ready broker listed).1
            ≡ listed_apps (lookup provisioned_apps_annotation secret.annotations))
  unfolding apps_of synced
  apps_synced secret is_ready read version known =
      let applied =
        applied_version (app_properties_secret_name service.name) broker.external_configs in
      let same : (secret.resource_version == applied) ≡ true =
        (eq_iff secret.resource_version applied).1 version in
      elim (Bool-cases (applied == "")) [
        | inl empty ↦ absurd (known (version ∙ (eq_iff applied "").0 empty))
        | inr full ↦ rw (is_ready, full, read, same) (refl, refl)
      ]

  and_true : (a b : Bool) → (a && not b) ≡ true → (a ≡ true) × (b ≡ false)
  and_true a b h = (ground arith, ground arith)

  synced_secret :
      (version : String) (found : Result SecretView)
      → is_synced (synced version listed found) ≡ true
      → (secret : SecretView) × (found ≡ ok secret) × (secret.resource_version ≡ version)
  unfolding synced
  synced_secret version (err e) h = absurd (ground arith)
  synced_secret version (ok secret) h = elim (Bool-cases (secret.resource_version == version)) [
    | inl same ↦ (secret, refl, (eq_iff secret.resource_version version).0 same)
    | inr other ↦ absurd (false≢true (rw other at h))
  ]

  -- Only then are they listed as provisioned.
  pub synced_parts :
      is_synced (apps_of r service ready broker listed) ≡ true
      → (ready ≡ true)
        × ((secret : SecretView) × (r.get_secret service.namespace
                (app_properties_secret_name service.name)
              ≡ ok secret)
            × (secret.resource_version
                ≡ applied_version (app_properties_secret_name service.name) broker.external_configs)
            × (secret.resource_version ≢ ""))
  unfolding apps_of
  synced_parts h =
      let name = app_properties_secret_name service.name in
      let applied = applied_version name broker.external_configs in
      elim (Bool-cases (ready && not (applied == ""))) [
        | inl go ↦
            let q = synced_secret applied (r.get_secret service.namespace name) (rw go at h) in
            let known = and_true ready (applied == "") go in
            (
              known.0,
              (q.0, q.1, q.2, λ e. false≢true (sym known.1 ∙ (eq_iff applied "").1 (sym q.2 ∙ e))),
            )
        | inr stop ↦ absurd (false≢true (rw stop at h))
      ]

  -- Otherwise the list of apps is left as it was.
  unsynced_listed :
      (version : String) (found : Result SecretView)
      → is_synced (synced version listed found) ≡ false
      → (synced version listed found).1 ≡ listed
  unfolding synced
  unsynced_listed version (err e) h = refl
  unsynced_listed version (ok secret) h = elim (Bool-cases (secret.resource_version == version)) [
    | inl same ↦ absurd (false≢true (sym (rw same at h)))
    | inr other ↦ rw other refl
  ]

  pub kept_list :
      is_synced (apps_of r service ready broker listed) ≡ false
      → (apps_of r service ready broker listed).1 ≡ listed
  unfolding apps_of
  kept_list h =
      let name = app_properties_secret_name service.name in
      let applied = applied_version name broker.external_configs in
      elim (Bool-cases (ready && not (applied == ""))) [
        | inl go ↦
            rw go (unsynced_listed applied (r.get_secret service.namespace name) (rw go at h))
        | inr stop ↦ rw stop refl
      ]
