-- ===== src/Service.antt =====
-- controllers/brokerservice_controller.go: the events of apps that reconcile a service.
pub mod Events
pub mod Address
pub mod Properties
pub mod Acceptor
pub mod Provision
pub mod Status
pub mod Metrics
pub mod Broker
pub mod Reconcile
pub mod Chain
use activemq_artemis_operato.Base.{
  String, Bool, true, false, not, ◌&&◌, Option, none, some, List, [], ◌∷◌, ◌++◌, ◌==◌, is_none,
  if◌then◌else◌,
}
use activemq_artemis_operato.Api.{BrokerServiceBindingStatus, BrokerApp}
use activemq_artemis_operato.App.Watch.{Request}

unfoldable pub request_for : BrokerServiceBindingStatus → Request
request_for bound = (bound.namespace, bound.name)

abbrev added : Option Request → List Request
added none = []
added (some r) = r ∷ []

-- `getServiceRequest`.
unfoldable pub get_service_request : BrokerApp → Option Request
get_service_request app = elim app.status.service [
  | none ↦ none
  | some bound ↦ some (request_for bound)
]

unfoldable pub same_service :
    Option BrokerServiceBindingStatus → Option BrokerServiceBindingStatus → Bool
same_service none b = is_none b
same_service (some a) none = false
same_service (some a) (some b) = a.namespace == b.namespace && a.name == b.name

-- What the handlers of `Create`, `Delete` and `Generic` add to the queue.
unfoldable pub on_event : BrokerApp → List Request
on_event app = added (get_service_request app)

-- What `Update` adds for the binding before.
unfoldable pub old_requests : Option BrokerServiceBindingStatus → List Request
old_requests none = []
old_requests (some old) = request_for old ∷ []

-- And for the binding after, where it is to another service.
unfoldable pub new_requests :
    Option BrokerServiceBindingStatus → Option BrokerServiceBindingStatus → List Request
new_requests old none = []
new_requests old (some new) = if not (same_service old (some new)) then request_for new ∷ [] else []

unfoldable pub on_update : BrokerApp → BrokerApp → List Request
on_update old_app new_app =
    old_requests old_app.status.service
    ++ new_requests old_app.status.service new_app.status.service
