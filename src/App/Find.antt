-- ===== src/App/Find.antt =====
-- `findServiceWithCapacity` of controllers/brokerapp_controller.go: the deployed service that can
-- take the app and has most memory left.
pub mod Eligible
pub mod Improves
pub mod Choice
use activemq_artemis_operato.Base.{
  ℕ, String, Bool, true, false, not, Option, none, some, List, [], ◌∷◌, ◌++◌, is_empty, concat,
  decimal_int, ℤ, pos, negsuc, ltb_ℤ, if◌then◌else◌,
}
use activemq_artemis_operato.Errors.{Error, plain, error_text, Result, ok, err}
use activemq_artemis_operato.Api.{
  Quantity, Condition, ConditionStatus, status_true, status_false, status_unknown, BrokerApp,
  BrokerService, deployed_condition_type, is_status_true,
}
use activemq_artemis_operato.Cluster.{Cluster, ConditionOps}
use activemq_artemis_operato.Ports.{assign_next_available_port, collect_used_ports}
use activemq_artemis_operato.App.Checks.{
  matches_service_selector, list_other_apps_for_service, get_available_memory,
  check_address_clash_on_service, check_address_ref_capacity,
}
use activemq_artemis_operato.App.Capacity.{
  RejectionCategory, ServiceRejection, not_deployed, selector, selector_error, address_ref,
  address_clash, memory, port_pool, other, build_capacity_error,
}

-- One round of the loop goes on to its end, or rejects the service by `continue`.
pub data Attempt {ℓ} (A : Type ℓ) : Type ℓ where
  passed : A → Attempt A
  rejected : ServiceRejection → Attempt A

infixl 5 ◌>>=◌ ◌>>◌
abbrev pub ◌>>=◌ {ℓ κ} : {A : Type ℓ} {B : Type κ} → Attempt A → (A → Attempt B) → Attempt B
passed a >>= f = f a
rejected r >>= f = rejected r

abbrev pub ◌>>◌ {ℓ} : {B : Type ℓ} → Attempt (Unit {0}) → Attempt B → Attempt B
m >> n = m >>= λ _. n

abbrev reject {ℓ} : {A : Type ℓ} → BrokerService → RejectionCategory → String → Attempt A
reject service category message =
    rejected (record { service_name = service.name; category = category; message = message })

-- `cond != nil && cond.Status == metav1.ConditionTrue`.
abbrev pub holds : Option Condition → Bool
holds none = false
holds (some c) = is_status_true c.status

unfoldable pub check_deployed : BrokerService → Option Condition → Attempt (Unit {0})
check_deployed service deployed =
    if holds deployed
    then passed tt
    else reject service not_deployed "service not deployed yet (port discovery pending)"

unfoldable pub check_selector : BrokerService → Result Bool → Attempt (Unit {0})
check_selector service (err e) =
    reject service selector_error (concat ("selector evaluation failed: " ∷ error_text e ∷ []))
check_selector service (ok matches) =
    if matches then passed tt else reject service selector "does not match selector"

-- The checks that return an error or nil.
unfoldable pub check_no_error :
    BrokerService → RejectionCategory → Option Error → Attempt (Unit {0})
check_no_error service category none = passed tt
check_no_error service category (some e) = reject service category (error_text e)

-- A value, or a rejection for another reason.
unfoldable pub check_value {ℓ} :
    {A : Type ℓ} → BrokerService → RejectionCategory → String → Result A → Attempt A
check_value service category prefix (ok a) = passed a
check_value service category prefix (err e) =
    reject service category (concat (prefix ∷ error_text e ∷ []))

-- `appMemoryRequest != nil && available < appMemoryRequest.Value()` rejects.
unfoldable pub check_memory : BrokerService → Option Quantity → ℤ → Attempt (Unit {0})
check_memory service none available = passed tt
check_memory service (some request) available =
    if ltb_ℤ available request.value
    then reject service memory (
        concat (
          "insufficient memory (available: "
          ∷ decimal_int available
          ∷ ", required: "
          ∷ decimal_int request.value
          ∷ ")"
          ∷ []))
    else passed tt

-- What one service offers: the memory left on it, and the next free port.
unfoldable pub try_service : Cluster → ConditionOps → BrokerApp → BrokerService → Attempt (ℤ × ℕ)
try_service k c instance service = do
  check_deployed service (c.find_status_condition service.status.conditions deployed_condition_type)
  check_selector service (matches_service_selector k instance service)
  check_no_error service address_ref (check_address_ref_capacity k instance service)
  check_no_error service address_clash (check_address_clash_on_service k instance service)
  available ←
      check_value service other "error checking capacity: "
        (get_available_memory k instance service)
  check_memory service instance.spec.resources.requests_memory available
  apps ←
      check_value service other "error checking port capacity: "
        (list_other_apps_for_service k instance service)
  port ←
      check_value service port_pool "port pool exhausted: "
        (assign_next_available_port (collect_used_ports apps (some instance)))
  passed (available, port)

-- The variables of the loop.
pub record Search : Type 0 where
  pub best_service : Option BrokerService
  pub best_service_port : ℕ
  pub max_available : ℤ
  pub rejections : List ServiceRejection

abbrev pub start : Search
start = record {
  best_service = none;
  best_service_port = 0;
  max_available = negsuc 0;
  rejections = [];
}

unfoldable pub consider : BrokerService → Attempt (ℤ × ℕ) → Search → Search
consider service (rejected r) s = record s { rejections = s.rejections ++ r ∷ [] }
consider service (passed (available, port)) s =
    if ltb_ℤ s.max_available available
    then record s {
      best_service = some service;
      best_service_port = port;
      max_available = available;
    }
    else s

unfoldable pub search_services :
    Cluster → ConditionOps → BrokerApp → List BrokerService → Search → Search
search_services k c instance [] s = s
search_services k c instance (service ∷ services) s =
    search_services k c instance services (consider service (try_service k c instance service) s)

unfoldable pub chosen : Option Quantity → Search → Option BrokerService → Result (BrokerService × ℕ)
chosen request s (some best) = ok (best, s.best_service_port)
chosen request s none = err (build_capacity_error s.rejections request)

unfoldable pub find_service_with_capacity :
    Cluster → ConditionOps → BrokerApp → List BrokerService → Result (BrokerService × ℕ)
find_service_with_capacity k c instance services =
    let found = search_services k c instance services start in
    if is_empty services
    then err (plain "no services in list")
    else chosen instance.spec.resources.requests_memory found found.best_service
