-- ===== src/Service/Status/Provisioned.antt =====
-- The AppsProvisioned condition and the list of apps that `processStatus` of
-- controllers/brokerservice_controller.go leaves.
use activemq_artemis_operato.Base.{
  String, Bool, true, false, Option, none, some, List, ◌≡◌, refl, sym, ap, ◌∙◌, ◌==◌, ◌↔◌, inl, inr,
  arith, Bool-cases, lookup, not, ◌&&◌,
}
use activemq_artemis_operato.Errors.{Error, ok, err, Result}
use activemq_artemis_operato.Api.{
  BrokerService, BrokerServiceStatus, BrokerStatus, ready_condition_type,
  apps_provisioned_condition_type,
}
use activemq_artemis_operato.Cluster.{ConditionOps, is_true_condition, find_set_same}
use activemq_artemis_operato.Conditions.Ready.{find-set_ready}
use activemq_artemis_operato.Service.Provision.{provisioned_apps_annotation}
use activemq_artemis_operato.Service.Acceptor.{app_properties_secret_name}
use activemq_artemis_operato.Service.Status.{
  SecretView, StatusReader, listed_apps, applied_version, synced, apps_of, of_broker, outcome,
  process_status,
}
use activemq_artemis_operato.Service.Status.Synced.{
  Applied, is_synced, apps_synced, synced_parts, kept_list,
}

synced-type :
    (version : String) (listed : List String) (found : Result SecretView)
    → ((synced version listed found).0).type ≡ apps_provisioned_condition_type
unfolding synced
synced-type version listed (err e) = refl
synced-type version listed (ok secret) = elim (Bool-cases (secret.resource_version == version)) [
  | inl same ↦ rw same refl
  | inr other ↦ rw other refl
]

module _ (ops : ConditionOps) (r : StatusReader) (service : BrokerService) where
  apps_of-type :
      (ready : Bool) (status : BrokerStatus) (listed : List String)
      → ((apps_of r service ready status listed).0).type ≡ apps_provisioned_condition_type
  unfolding apps_of
  apps_of-type ready status listed =
      let name = app_properties_secret_name service.name in
      let version = applied_version name status.external_configs in
      elim (Bool-cases (ready && not (version == ""))) [
        | inl go ↦ rw go (synced-type version listed (r.get_secret service.namespace name))
        | inr stop ↦ rw stop refl
      ]

  outcome-type :
      (e : Option Error) (broker : Option BrokerStatus) (listed : List String)
      → (((outcome ops r service e broker listed).1).0).type ≡ apps_provisioned_condition_type
  unfolding outcome of_broker
  outcome-type (some e) broker listed = refl
  outcome-type none none listed = refl
  outcome-type none (some status) listed = apps_of-type _ status listed

  -- The condition that is found is the one of the outcome.
  found_apps :
      (status : BrokerServiceStatus) (e : Option Error) (broker : Option BrokerStatus)
      → is_true_condition (
          ops.find_status_condition
            (process_status ops r service status e broker).conditions
            apps_provisioned_condition_type)
        ≡ is_synced (outcome ops r service e broker status.provisioned_apps).1
  unfolding process_status
  found_apps status e broker =
      let apps = (outcome ops r service e broker status.provisioned_apps).1 in
      ap is_true_condition (
        find-set_ready ops _ apps_provisioned_condition_type refl
        ∙ find_set_same ops _ apps.0 apps_provisioned_condition_type
            (outcome-type e broker status.provisioned_apps))

  outcome_synced :
      (e : Option Error) (broker : Option BrokerStatus) (listed : List String)
      → is_synced (outcome ops r service e broker listed).1 ≡ true
      → (e ≡ none) × ((b : BrokerStatus) × (broker ≡ some b) × Applied ops r service b)
  unfolding outcome of_broker
  outcome_synced (some e) broker listed h = absurd (ground arith)
  outcome_synced none none listed h = absurd (ground arith)
  outcome_synced none (some b) listed h =
      let ready = is_true_condition (ops.find_status_condition b.conditions ready_condition_type) in
      let parts = synced_parts r service ready b listed h in
      (
        refl,
        (
          b,
          refl,
          record {
            ready = parts.0;
            secret = parts.1.0;
            read = parts.1.1;
            version = parts.1.2;
            known = parts.1.3;
          },
        ),
      )

  applied_outcome :
      (e : Option Error) (broker : Option BrokerStatus) (listed : List String) (b : BrokerStatus)
      → e ≡ none
      → broker ≡ some b
      → (a : Applied ops r service b)
      → (is_synced (outcome ops r service e broker listed).1 ≡ true)
        × (((outcome ops r service e broker listed).1).1
            ≡ listed_apps (lookup provisioned_apps_annotation a.secret.annotations))
  applied_outcome e broker listed b no_error found a =
      let ready = is_true_condition (ops.find_status_condition b.conditions ready_condition_type) in
      rw (no_error, found)
        (unfold outcome of_broker in
          apps_synced r service ready b listed a.secret a.ready a.read a.version a.known)

  outcome_kept :
      (e : Option Error) (broker : Option BrokerStatus) (listed : List String)
      → is_synced (outcome ops r service e broker listed).1 ≡ false
      → ((outcome ops r service e broker listed).1).1 ≡ listed
  unfolding outcome of_broker
  outcome_kept (some e) broker listed h = refl
  outcome_kept none none listed h = refl
  outcome_kept none (some b) listed h =
      let ready = is_true_condition (ops.find_status_condition b.conditions ready_condition_type) in
      kept_list r service ready b listed h

-- The AppsProvisioned condition of a service is true exactly when the reconcile had no error, the broker
-- is deployed and ready, and the secret of the apps is read at the version that the broker has applied.
pub process_status-provisioned_iff :
    (ops : ConditionOps) (r : StatusReader) (service : BrokerService) (status : BrokerServiceStatus)
    (e : Option Error) (broker : Option BrokerStatus)
    → (is_true_condition (
          ops.find_status_condition
            (process_status ops r service status e broker).conditions
            apps_provisioned_condition_type)
        ≡ true)
      ↔ ((e ≡ none) × ((b : BrokerStatus) × (broker ≡ some b) × Applied ops r service b))
process_status-provisioned_iff ops r service status e broker = (
  λ h.
      outcome_synced ops r service e broker status.provisioned_apps
        (sym (found_apps ops r service status e broker) ∙ h),
  λ p.
      found_apps ops r service status e broker
      ∙ (applied_outcome ops r service e broker status.provisioned_apps p.1.0 p.0 p.1.1 p.1.2).0,
)

-- The list of provisioned apps changes only with that condition: where the condition is not true after
-- the reconcile, the list is as it was before.
pub process_status-keeps_apps :
    (ops : ConditionOps) (r : StatusReader) (service : BrokerService) (status : BrokerServiceStatus)
    (e : Option Error) (broker : Option BrokerStatus)
    → is_true_condition (
        ops.find_status_condition
          (process_status ops r service status e broker).conditions
          apps_provisioned_condition_type)
      ≡ false
    → (process_status ops r service status e broker).provisioned_apps ≡ status.provisioned_apps
process_status-keeps_apps ops r service status e broker h =
    let kept =
      outcome_kept ops r service e broker status.provisioned_apps
        (sym (found_apps ops r service status e broker) ∙ h) in
    unfold process_status in kept

-- With it the list is that of the secret.
pub applied_apps :
    (ops : ConditionOps) (r : StatusReader) (service : BrokerService) (status : BrokerServiceStatus)
    (b : BrokerStatus) (a : Applied ops r service b)
    → (process_status ops r service status none (some b)).provisioned_apps
      ≡ listed_apps (lookup provisioned_apps_annotation a.secret.annotations)
applied_apps ops r service status b a =
    let listed =
      applied_outcome ops r service none (some b) status.provisioned_apps b refl refl a in
    unfold process_status in listed.1
