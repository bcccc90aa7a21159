-- ===== src/App/Resolve.antt =====
-- `resolveBrokerService` of controllers/brokerapp_controller.go: which service an app is bound to.
pub mod Keep
pub mod Assign
pub mod Failures
pub mod Port
pub mod Settled
use activemq_artemis_operato.Base.{
  ℕ, String, Bool, true, false, not, ◌&&◌, ◌||◌, Option, none, some, List, [], ◌∷◌, ◌==◌, is_empty,
  concat, find_first, if◌then◌else◌, is_none,
}
use activemq_artemis_operato.Errors.{
  Error, error_text, validation_error, transient_error, transient_error_with_cause, is_transient,
  Result, ok, err,
}
use activemq_artemis_operato.Api.{
  BrokerServiceBindingStatus, BrokerApp, BrokerAppStatus, BrokerService, spec_selector_error,
  crud_kind_error_reason, no_matching_service_reason, no_service_capacity_reason,
}
use activemq_artemis_operato.Cluster.{Cluster, ConditionOps}
use activemq_artemis_operato.App.Checks.{
  matches_service_selector, check_address_clash_on_service, check_address_ref_capacity,
  is_app_rejected_by_service,
}
use activemq_artemis_operato.App.Find.{find_service_with_capacity}

-- The fields of the instance reconciler that a reconcile changes.
pub record Progress : Type 0 where
  pub status : BrokerAppStatus
  pub service : Option BrokerService

unfoldable pub bindings_secret_name : String → String
bindings_secret_name cr_name = concat (cr_name ∷ "-binding-secret" ∷ [])

abbrev pub is_bound_to : BrokerServiceBindingStatus → BrokerService → Bool
is_bound_to bound candidate = candidate.namespace == bound.namespace && candidate.name == bound.name

abbrev is_match : Result Bool → Bool
is_match (ok matches) = matches
is_match (err e) = false

-- The service of the binding, unless the app is rejected by it or one of the checks fails on it.
unfoldable pub is_still_valid : Cluster → BrokerApp → BrokerService → Bool
is_still_valid k instance service =
    not (is_app_rejected_by_service instance service)
    && is_match (matches_service_selector k instance service)
    && is_none (check_address_ref_capacity k instance service)
    && is_none (check_address_clash_on_service k instance service)

-- What the checks of a binding leave: the binding, the service, and `needsServiceAssignment`.
pub record Binding : Type 0 where
  pub bound : Option BrokerServiceBindingStatus
  pub service : Option BrokerService
  pub needs_assignment : Bool

unfoldable pub check_bound :
    Cluster
    → BrokerApp
    → BrokerServiceBindingStatus
    → List BrokerService
    → Option BrokerService
    → Binding
check_bound k instance bound services none = record {
  bound = some bound;
  service = none;
  needs_assignment = not (is_empty services);
}
check_bound k instance bound services (some service) =
    if is_still_valid k instance service
    then record { bound = some bound; service = some service; needs_assignment = false }
    else record { bound = none; service = none; needs_assignment = true }

unfoldable pub check_binding :
    Cluster → BrokerApp → List BrokerService → Option BrokerServiceBindingStatus → Binding
check_binding k instance services none = record {
  bound = none;
  service = none;
  needs_assignment = true;
}
check_binding k instance services (some bound) =
    check_bound k instance bound services (find_first (is_bound_to bound) services)

-- What is returned: the fields, with the error or nil.
abbrev pub Outcome : Type 0
Outcome = Progress × Option Error

abbrev with_binding :
    BrokerAppStatus → Option BrokerServiceBindingStatus → Option BrokerService → Progress
with_binding status bound service = record {
  status = record status { service = bound };
  service = service;
}

-- A transient error is kept, another is wrapped.
unfoldable pub as_capacity_error : String → Error → Error
as_capacity_error selector e =
    if is_transient e
    then e
    else transient_error no_service_capacity_reason (
        concat (
          "no service with capacity available for selector " ∷ selector ∷ ", " ∷ error_text e ∷ []))

-- `reconciler.status.Service` keeps its value where no service is found.
unfoldable pub assign :
    BrokerApp
    → String
    → BrokerAppStatus
    → Option BrokerServiceBindingStatus
    → Result (BrokerService × ℕ)
    → Outcome
assign instance selector status bound (ok (service, port)) = (
  with_binding status
      (some (record {
        name = service.name;
        namespace = service.namespace;
        secret = bindings_secret_name instance.name;
        assigned_port = port;
      }))
      (some service),
  none,
)
assign instance selector status bound (err e) =
    (with_binding status bound none, some (as_capacity_error selector e))

-- An error that returns early leaves `reconciler.service` as it was.
unfoldable pub bind :
    Cluster → ConditionOps → BrokerApp → String → List BrokerService → Progress → Binding → Outcome
bind k c instance selector services s b =
    let found = find_service_with_capacity k c instance services in
    if not b.needs_assignment
    then (with_binding s.status b.bound b.service, none)
    else if is_empty services
    then (
      with_binding s.status b.bound s.service,
      some (
          transient_error no_matching_service_reason
            (concat ("no matching services available for selector " ∷ selector ∷ []))),
    )
    else assign instance selector s.status b.bound found

unfoldable pub resolve_in :
    Cluster → ConditionOps → BrokerApp → String → Progress → Result (List BrokerService) → Outcome
resolve_in k c instance selector s (ok services) =
    bind k c instance selector services s (check_binding k instance services s.status.service)
resolve_in k c instance selector s (err e) =
    (s, some (transient_error_with_cause crud_kind_error_reason "failed to list BrokerServices" e))

unfoldable pub resolve_with :
    Cluster → ConditionOps → BrokerApp → Progress → Result String → Outcome
resolve_with k c instance s (ok selector) =
    resolve_in k c instance selector s (k.list_services selector)
resolve_with k c instance s (err e) = (
  s,
  some (
      validation_error spec_selector_error
        (concat ("failed to evaluate Spec.Selector: " ∷ error_text e ∷ []))),
)

unfoldable pub resolve_broker_service : Cluster → ConditionOps → BrokerApp → Progress → Outcome
resolve_broker_service k c instance s =
    resolve_with k c instance s (k.label_selector_as_selector instance.spec.service_selector)
