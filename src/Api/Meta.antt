-- ===== src/Api/Meta.antt =====
-- The Kubernetes metadata and conditions that the custom resources carry (k8s.io/apimachinery and
-- k8s.io/api), with the constants of api/v1beta2/brokercluster_types.go.
use activemq_artemis_operato.Base.{Bool, true, false, ℕ, String, List, Option, ℤ}

-- `metav1.ObjectMeta`; a time is present or not.
pub record ObjectMeta : Type 0 where
  pub name : String
  pub namespace : String
  pub generation : ℕ
  pub deletion_timestamp : Option String
  pub labels : List (String × String)

pub data ConditionStatus : Type 0 where
  status_true status_false status_unknown : ConditionStatus

pub ConditionStatus-discrete : Discrete ConditionStatus
ConditionStatus-discrete = hlevel

abbrev pub is_status_true : ConditionStatus → Bool
is_status_true status_true = true
is_status_true status_false = false
is_status_true status_unknown = false

abbrev pub is_status_false : ConditionStatus → Bool
is_status_false status_true = false
is_status_false status_false = true
is_status_false status_unknown = false

-- `metav1.Condition` without the time of the last transition.
pub record Condition : Type 0 where
  pub type : String
  pub status : ConditionStatus
  pub observed_generation : ℕ
  pub reason : String
  pub message : String

-- `metav1.LabelSelector`.
pub record LabelSelector : Type 0 where
  pub match_labels : List (String × String)
  pub match_expressions : List (String × String × List String)

-- `resource.Quantity`: what `Value` returns, an int64, and what `String` prints.
pub record Quantity : Type 0 where
  pub value : ℤ
  pub printed : String

-- `corev1.ResourceRequirements`: what `Limits.Memory()` and `Requests.Memory()` return.
pub record ResourceRequirements : Type 0 where
  pub limits_memory : Option Quantity
  pub requests_memory : Option Quantity

abbrev pub deployed_condition_type : String
deployed_condition_type = "Deployed"

abbrev pub valid_condition_type : String
valid_condition_type = "Valid"

abbrev pub ready_condition_type : String
ready_condition_type = "Ready"

-- The reasons of the Deployed condition.
abbrev pub validation_failed_reason : String
validation_failed_reason = "ValidationFailed"

abbrev pub crud_kind_error_reason : String
crud_kind_error_reason = "ResourceError"

abbrev pub no_matching_service_reason : String
no_matching_service_reason = "NoMatchingService"

abbrev pub no_service_capacity_reason : String
no_service_capacity_reason = "NoServiceCapacity"

abbrev pub matched_service_not_found_reason : String
matched_service_not_found_reason = "MatchedServiceNotFound"

abbrev pub provisioning_pending_reason : String
provisioning_pending_reason = "ProvisioningPending"

abbrev pub provisioned_reason : String
provisioned_reason = "Provisioned"

abbrev pub selector_evaluation_error : String
selector_evaluation_error = "AppSelectorEvaluationError"

abbrev pub deployed_not_ready_reason : String
deployed_not_ready_reason = "PodsNotReady"

abbrev pub apps_provisioned_condition_type : String
apps_provisioned_condition_type = "AppsProvisioned"

abbrev pub apps_synced_reason : String
apps_synced_reason = "Synced"

abbrev pub apps_waiting_reason : String
apps_waiting_reason = "WaitingForBroker"

abbrev pub apps_not_ready_reason : String
apps_not_ready_reason = "BrokerNotReady"

-- The reasons of the Valid condition.
abbrev pub valid_success_reason : String
valid_success_reason = "ValidationSucceded"

abbrev pub invalid_resource_name : String
invalid_resource_name = "InvalidResourceName"

abbrev pub address_type_error : String
address_type_error = "AddressTypeError"

abbrev pub spec_selector_error : String
spec_selector_error = "SpecSelectorError"

-- The reasons of the Ready condition.
abbrev pub ready_reason : String
ready_reason = "ResourceReady"

abbrev pub not_ready_reason : String
not_ready_reason = "WaitingForAllConditions"
