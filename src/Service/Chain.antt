-- ===== src/Service/Chain.antt =====
-- From the provisioning of apps, by controllers/brokerservice_controller.go, to what
-- controllers/brokerapp_controller.go reads of it.
use activemq_artemis_operato.Base.{
  String, Bool, true, none, some, List, ◌≡◌, refl, ap, ◌∙◌, ◌==◌, eq_iff, eq_refl, ◌↔◌, map,
  any-true, Memᴰ-any, Memᴰ, All, lacks, lookup,
}
use activemq_artemis_operato.Api.{BrokerApp, BrokerService, BrokerServiceStatus, BrokerStatus}
use activemq_artemis_operato.Cluster.{ConditionOps}
use activemq_artemis_operato.Loop.{Loop}
use activemq_artemis_operato.App.Status.{app_identity, is_provisioned}
use activemq_artemis_operato.Service.Provision.{
  Platform, nothing_yet, provision_apps, app_secret, provisioned_apps_annotation,
}
use activemq_artemis_operato.Service.Provision.Admitted.{admitted, provision_apps-Sorted}
use activemq_artemis_operato.Service.Provision.Listed.{listed_apps-app_secret}
use activemq_artemis_operato.Service.Status.{StatusReader, listed_apps, process_status}
use activemq_artemis_operato.Service.Status.Synced.{Applied}
use activemq_artemis_operato.Service.Status.Provisioned.{applied_apps}

is_provisioned_iff :
    (app : BrokerApp) (service : BrokerService)
    → (is_provisioned app service ≡ true) ↔ Memᴰ (app_identity app) service.status.provisioned_apps
unfolding is_provisioned
is_provisioned_iff app service =
    let same : String → Bool = λ applied. applied == app_identity app in
    (
      λ h.
          let q = any-true same service.status.provisioned_apps h in
          rw (← (eq_iff q.0 (app_identity app)).0 q.2) q.1,
      λ m. Memᴰ-any same m (eq_refl (app_identity app)),
    )

-- Where the apps of a service were provisioned without an error and the broker has applied the secret
-- that was written then, the app controller takes an app for provisioned exactly when its identity is
-- that of a bound app that passes the service's checks. No identity may hold a comma, and none does
-- that is made of names of Kubernetes.
pub is_provisioned-process_status_iff :
    (u : Platform) (ops : ConditionOps) (r : StatusReader) (service : BrokerService)
    (apps : List BrokerApp) (loop : Loop) (status : BrokerServiceStatus) (broker : BrokerStatus)
    (app : BrokerApp)
    → (provision_apps u service apps nothing_yet).error ≡ none
    → All (λ t. lacks b',' t ≡ true) (map app_identity (admitted u service apps))
    → (a : Applied ops r service broker)
    → a.secret.annotations
      ≡ (app_secret service loop (provision_apps u service apps nothing_yet)).annotations
    → (is_provisioned app
          (record service { status = process_status ops r service status none (some broker) })
        ≡ true)
      ↔ Memᴰ (app_identity app) (map app_identity (admitted u service apps))
is_provisioned-process_status_iff u ops r service apps loop status broker app no_error clean a
      written =
    let s = provision_apps u service apps nothing_yet in
    let sorted : s.identities ≡ map app_identity (admitted u service apps) =
      (provision_apps-Sorted u service apps nothing_yet refl no_error).identities in
    let updated = record service {
      status = process_status ops r service status none (some broker);
    } in
    let read =
      applied_apps ops r service status broker a
      ∙ ap (λ n. listed_apps (lookup provisioned_apps_annotation n)) written in
    let back =
      listed_apps-app_secret service loop s (admitted u service apps) sorted (rw sorted clean)
        (app_identity app) in
    let seen = is_provisioned_iff app updated in
    (
      λ h. rw sorted at (back.0 (rw read at (seen.0 h))),
      λ m. seen.1 (rw read (back.1 (rw sorted m))),
    )
