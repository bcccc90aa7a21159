-- ===== src/App/Watch.antt =====
-- Which apps a change of a service or of another app reconciles: the watches of
-- controllers/brokerapp_controller.go.
pub mod Enqueued
pub mod Complete
use activemq_artemis_operato.Base.{
  String, Bool, true, false, not, ◌&&◌, ◌||◌, Option, none, some, List, [], ◌==◌, any, keep, map,
  is_none, if◌then◌else◌,
}
use activemq_artemis_operato.Errors.{Result, ok, err}
use activemq_artemis_operato.Api.{AddressRef, AppCapabilityType, BrokerApp, BrokerService}
use activemq_artemis_operato.Cluster.{Cluster, ConditionOps}
use activemq_artemis_operato.Ports.{same_app}
use activemq_artemis_operato.App.Checks.{service_key}
use activemq_artemis_operato.App.Status.{is_valid_and_deployed}

-- `reconcile.Request`, a namespace and a name.
abbrev pub Request : Type 0
Request = String × String

unfoldable pub request_of : BrokerApp → Request
request_of app = (app.namespace, app.name)

unfoldable pub should_propagate_watch_for_referenced_app : ConditionOps → BrokerApp → Bool
should_propagate_watch_for_referenced_app c app =
    not (is_none app.deletion_timestamp)
    || is_valid_and_deployed c app.status.conditions app.generation

abbrev pub is_ref_to : Request → AddressRef → Bool
is_ref_to target ref = ref.app_namespace == target.0 && ref.app_name == target.1

abbrev pub capability_refers_to : Request → AppCapabilityType → Bool
capability_refers_to target c =
    any (is_ref_to target) c.producer_of || any (is_ref_to target) c.consumer_of

unfoldable pub has_address_ref_to : BrokerApp → Request → Bool
has_address_ref_to app target = any (capability_refers_to target) app.spec.capabilities

-- The app is another one and refers to the changed one.
unfoldable pub is_consumer_of : BrokerApp → BrokerApp → Bool
is_consumer_of changed app =
    not (same_app app changed) && has_address_ref_to app (request_of changed)

unfoldable pub consumers_in : BrokerApp → Result (List BrokerApp) → List Request
consumers_in changed (ok apps) = map request_of (keep (is_consumer_of changed) apps)
consumers_in changed (err e) = []

unfoldable pub enqueue_apps_for_referenced_app : Cluster → ConditionOps → BrokerApp → List Request
enqueue_apps_for_referenced_app k c changed =
    if should_propagate_watch_for_referenced_app c changed
    then consumers_in changed k.list_apps
    else []

unfoldable pub requests_of : Result (List BrokerApp) → List Request
requests_of (ok apps) = map request_of apps
requests_of (err e) = []

unfoldable pub enqueue_apps_for_service : Cluster → BrokerService → List Request
enqueue_apps_for_service k service = requests_of (k.list_bound_apps (service_key service))
