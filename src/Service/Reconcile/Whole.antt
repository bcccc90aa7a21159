-- ===== src/Service/Reconcile/Whole.antt =====
-- What a reconcile of a service brings to the cluster: `Reconcile` of
-- controllers/brokerservice_controller.go.
use activemq_artemis_operato.Base.{
  none, some, List, ◌≡◌, refl, sym, ap, ◌∙◌, [], ◌∷◌, map, join, sort_strings, concat, lookup,
}
use activemq_artemis_operato.Errors.{Error, ok}
use activemq_artemis_operato.Api.{BrokerApp, BrokerService}
use activemq_artemis_operato.Actions.{Done, Object, OwnerReference}
use activemq_artemis_operato.Loop.{Deployed, Kit, Loop, init_deployed, sync_desired_with_deployed}
use activemq_artemis_operato.Loop.Synced.{AllApply, sync_desired_with_deployed_iff}
use activemq_artemis_operato.Loop.Stored.{ComparesSecrets, desired_secret, Stored}
use activemq_artemis_operato.App.Binding.{secret_kind}
use activemq_artemis_operato.App.Status.{app_identity}
use activemq_artemis_operato.Service.Broker.Apps.{ListsKinds}
use activemq_artemis_operato.App.Checks.{service_key}
use activemq_artemis_operato.Service.Provision.{nothing_yet, provision_apps}
use activemq_artemis_operato.Service.Provision.Admitted.{Sorted, admitted}
use activemq_artemis_operato.Service.Broker.{process_spec}
use activemq_artemis_operato.Service.Reconcile.{
  World, Processed, ordered_types, validate_spec, after_spec, with_deployed, after_validate,
  process,
}

-- The reader of the deployed objects lists them under their types.
abbrev pub ListsAllKinds : Kit → Type 0
ListsAllKinds kit =
    (owner : OwnerReference) (deployed : Deployed)
    → kit.list_all owner ≡ ok deployed
    → ListsKinds deployed

module _ {W : Type 0} (u : World W) (instance : BrokerService) (w : W) where
  -- Nothing is written, and there is an error.
  pub record Refused : Type 0 where
    pub unchanged : (process u instance w).cluster ≡ w
    pub error : Error
    pub reported : (process u instance w).error ≡ some error

  -- All that the service asks for is synced: the spec is valid, the apps were listed, each of them was
  -- provisioned or is reported as rejected, the secret of the apps is asked for with the files and the
  -- identities of those that were provisioned, the cluster and the error are those of the sync, and where
  -- that is no error, the secret has reached the cluster.
  pub record Complete : Type 0 where
    pub valid : validate_spec u instance ≡ none
    pub loop : Loop
    pub deployed : init_deployed u.kit (u.owner_of instance) ≡ ok loop
    pub apps : List BrokerApp
    pub listed : u.platform.cluster.list_bound_apps (service_key instance) ≡ ok apps
    pub no_error : (provision_apps u.platform instance apps nothing_yet).error ≡ none
    pub sorted :
        Sorted u.platform instance apps nothing_yet
          (provision_apps u.platform instance apps nothing_yet)
    pub secret : Object
    pub asked :
        desired_secret
          (process_spec u.platform instance loop).loop.desired
          (concat (instance.name ∷ "-app" ∷ "-bp" ∷ []))
        ≡ some secret
    pub files : secret.content ≡ (provision_apps u.platform instance apps nothing_yet).files
    pub identities :
        lookup "arkmq.org/provisioned-apps" secret.annotations
        ≡ some (join (sort_strings (map app_identity (admitted u.platform instance apps))) ",")
    pub stored :
        (process u instance w).error ≡ none
        → Stored u.client
            (u.owner_of instance)
            (process_spec u.platform instance loop).loop.deployed
            (u.kit.compare
              (process_spec u.platform instance loop).loop.deployed
              (process_spec u.platform instance loop).loop.desired
              secret_kind)
            w
            secret
    pub synced :
        ((process u instance w).cluster, (process u instance w).error)
        ≡ sync_desired_with_deployed u.client u.kit
            (u.owner_of instance)
            ordered_types
            (process_spec u.platform instance loop).loop
            w

  module _ (laws : ComparesSecrets u.kit) (kinds : ListsAllKinds u.kit)
      (valid : validate_spec u instance ≡ none) (loop : Loop)
      (deployed : init_deployed u.kit (u.owner_of instance) ≡ ok loop) where
    process-with_deployed : process u instance w ≡ with_deployed u instance w (ok loop)
    unfolding process after_validate
    process-with_deployed = rw (valid, deployed) refl

    spec-synced :
        (process_spec u.platform instance loop).error ≡ none
        → ((process u instance w).cluster, (process u instance w).error)
          ≡ sync_desired_with_deployed u.client u.kit
              (u.owner_of instance)
              ordered_types
              (process_spec u.platform instance loop).loop
              w
    spec-synced clean =
        ap (λ (p : Processed W). (p.cluster, p.error)) process-with_deployed
        ∙ (unfold with_deployed after_spec in rw clean refl)

    applied :
        (process_spec u.platform instance loop).error ≡ none
        → (process u instance w).error ≡ none
        → AllApply u.client
            (u.owner_of instance)
            (u.kit.compare
              (process_spec u.platform instance loop).loop.deployed
              (process_spec u.platform instance loop).loop.desired)
            ordered_types
            w
    applied clean e =
        (sync_desired_with_deployed_iff W u.client u.kit (u.owner_of instance) ordered_types
            (process_spec u.platform instance loop).loop w).0
          (sym (ap (λ (d : Done W). d.1) (spec-synced clean)) ∙ e)
