-- ===== src/Service/Reconcile/Steps.antt =====
-- What a reconcile of a service writes and reports: `Reconcile` of
-- controllers/brokerservice_controller.go.
use activemq_artemis_operato.Base.{
  String, Bool, true, false, Option, none, some, List, ◌≡◌, refl, inl, inr, arith, Option-cases,
  ◌==◌, if◌then◌else◌,
}
use activemq_artemis_operato.Errors.{Error, ok, is_validation, or_else-some}
use activemq_artemis_operato.Api.{BrokerApp, BrokerService, spec_selector_error}
use activemq_artemis_operato.Loop.{Loop, init_deployed}
use activemq_artemis_operato.App.Checks.{service_key}
use activemq_artemis_operato.App.Validate.{
  as_validation_error, validate_resource_name, resource_name_error,
}
use activemq_artemis_operato.Service.Provision.{nothing_yet, provision_apps}
use activemq_artemis_operato.Service.Provision.Admitted.{rejections, provision_apps-Sorted}
use activemq_artemis_operato.Service.Broker.{
  with_provision, with_apps, process_app_secrets, process_broker, process_spec,
}
use activemq_artemis_operato.Service.Status.{process_status}
use activemq_artemis_operato.Service.Reconcile.{
  World, Processed, validate_spec, with_deployed, after_validate, process, write_status, returned,
  new_status, finish, reconcile_instance,
}

as_validation-some :
    (reason prefix : String) (o : Option Error) (e : Error)
    → as_validation_error reason prefix o ≡ some e
    → is_validation e ≡ true
as_validation-some reason prefix none e h = absurd (ground arith)
as_validation-some reason prefix (some x) e h = ground arith

module _ {W : Type 0} (u : World W) (instance : BrokerService) where
  validate_spec-validation :
      (e : Error) → validate_spec u instance ≡ some e → is_validation e ≡ true
  unfolding validate_spec validate_resource_name
  validate_spec-validation e h = elim (or_else-some _ _ h) [
    | inl name ↦ as_validation-some _ _ (resource_name_error instance.name) e name
    | inr expression ↦ of_expression (instance.spec.app_selector_expression == "") expression
  ]
    where
      of_expression :
          (empty : Bool)
          → (if empty
              then none
              else as_validation_error spec_selector_error "invalid appSelectorExpression: "
                  (u.validate_expression instance.spec.app_selector_expression))
            ≡ some e
          → is_validation e ≡ true
      of_expression true q = absurd (ground arith)
      of_expression false q =
          as_validation-some _ _ (u.validate_expression instance.spec.app_selector_expression) e q

  invalid : W → Error → Processed W
  invalid w e = record { cluster = w; status = instance.status; broker = none; error = some e }

-- A service whose spec is not valid is not retried, and nothing is written but its status.
pub reconcile_invalid_service :
    {W : Type 0} (u : World W) (instance : BrokerService) (w : W) (e : Error)
    → validate_spec u instance ≡ some e
    → reconcile_instance u instance w ≡ (
      (write_status u instance w
          (process_status u.conditions u.reader instance instance.status (some e) none)).0,
      none,
    )
unfolding reconcile_instance process finish new_status
reconcile_invalid_service u instance w e h =
    rw h (unfold after_validate returned in rw (validate_spec-validation u instance e h) refl)

module _ {W : Type 0} (u : World W) (instance : BrokerService) (w : W) (loop : Loop)
    (apps : List BrokerApp) where
  provision_of :
      u.platform.cluster.list_bound_apps (service_key instance) ≡ ok apps
      → (process_spec u.platform instance loop).provision
        ≡ some (provision_apps u.platform instance apps nothing_yet)
  unfolding process_spec process_broker process_app_secrets
  provision_of listed = rw listed (
      unfold with_apps with_provision in
      elim (Option-cases (provision_apps u.platform instance apps nothing_yet).error) [
        | inl good ↦ rw good refl
        | inr bad ↦ rw (bad.1) refl
      ])

-- Where the apps are listed and the loop over them ends without an error, the status reports as rejected
-- exactly the apps that do not pass the checks of the service, each with the reason.
pub new_status-rejected :
    {W : Type 0} (u : World W) (instance : BrokerService) (w : W) (loop : Loop)
    (apps : List BrokerApp)
    → validate_spec u instance ≡ none
    → init_deployed u.kit (u.owner_of instance) ≡ ok loop
    → u.platform.cluster.list_bound_apps (service_key instance) ≡ ok apps
    → (provision_apps u.platform instance apps nothing_yet).error ≡ none
    → (new_status u instance (process u instance w)).rejected_apps
      ≡ rejections u.platform instance apps
unfolding process after_validate new_status
new_status-rejected u instance w loop apps valid deployed listed no_error =
    rw (valid, deployed)
      (unfold with_deployed process_status in
        rw (provision_of u instance w loop apps listed)
          (provision_apps-Sorted u.platform instance apps nothing_yet refl no_error).rejected)
