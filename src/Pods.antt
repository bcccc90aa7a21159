-- ===== src/Pods.antt =====
-- pkg/broker/status/status.go: the state of a broker's pod and the conditions that its status reports.
pub mod Edges
pub mod Deployed
use activemq_artemis_operato.Base.{
  ℕ, String, Bool, true, false, not, Option, none, some, List, [], ◌∷◌, ◌++◌, map, ◌==◌,
  if◌then◌else◌, concat, join, sort_strings, is_empty, ◌=?◌, is_none, find_first,
}
use activemq_artemis_operato.Errors.{Error, error_text, Result, ok, err}
use activemq_artemis_operato.Api.{
  Condition, ConditionStatus, status_true, status_false, status_unknown, is_status_false,
  deployed_condition_type, valid_condition_type, valid_success_reason, validation_failed_reason,
  crud_kind_error_reason, deployed_not_ready_reason,
}
use activemq_artemis_operato.Cluster.{ConditionOps}
use activemq_artemis_operato.Versions.{Semver}
use activemq_artemis_operato.Versions.Images.{Process}
use activemq_artemis_operato.Versions.Status.{Reported, update_version_status}

-- `olm.DeploymentStatus`: the names of the pods that are ready, and of those that are starting.
pub record DeploymentStatus : Type 0 where
  pub ready : List String
  pub starting : List String

-- What is read of a stateful set.
pub record StatefulSet : Type 0 where
  pub name : String
  pub ready_replicas : ℕ

abbrev pub no_pods : DeploymentStatus
no_pods = record { ready = []; starting = [] }

-- The zero value stands for the broker's entry of `lastStatusMap` where it is missing.
abbrev pub last_status : Option DeploymentStatus → DeploymentStatus
last_status none = no_pods
last_status (some s) = s

unfoldable pub pods_of : Result StatefulSet → DeploymentStatus
pods_of (err e) = no_pods
pods_of (ok set) =
    let pod = concat (set.name ∷ "-0" ∷ []) in
    if set.ready_replicas =? 0
    then record { ready = []; starting = pod ∷ [] }
    else record { ready = pod ∷ []; starting = [] }

-- The name that is sent to `AddressListeningCh`, if one is.
abbrev pub notified : DeploymentStatus → DeploymentStatus → Option String
notified s last = elim s.ready [
  | [] ↦ none
  | pod ∷ pods ↦ if is_empty pods then (if is_empty last.ready then some pod else none) else none
]

-- `updatePodStatus`: the status, which is also the broker's new entry of `lastStatusMap`, and the name
-- that is sent.
pub record PodUpdate : Type 0 where
  pub status : DeploymentStatus
  pub sent : Option String

unfoldable pub update_pod_status : Option DeploymentStatus → Result StatefulSet → PodUpdate
unfolding pods_of
update_pod_status entry set =
    let s = pods_of set in record { status = s; sent = notified s (last_status entry) }

-- The texts of the labels in order, whatever the order of the maps.
abbrev label_text : String × String → String
label_text (k, v) = concat (k ∷ "=" ∷ v ∷ [])

unfoldable pub scale_label_selector : List (String × String) → List (String × String) → String
unfolding sort_strings
scale_label_selector labels spec_labels =
    join (sort_strings (map label_text labels ++ map label_text spec_labels)) ","

-- `corev1.PodCondition` and `corev1.PodStatus`, as far as they are printed.
pub record PodCondition : Type 0 where
  pub type : String
  pub status : String
  pub reason : String
  pub message : String

pub record PodStatus : Type 0 where
  pub phase : String
  pub conditions : List PodCondition

abbrev prefixed : String → String → String
prefixed sep s = if s == "" then "" else concat (sep ∷ s ∷ [])

abbrev condition_text : PodCondition → String
condition_text c = concat (
    "{"
    ∷ c.type
    ∷ prefixed "=" c.status
    ∷ prefixed " " c.reason
    ∷ prefixed " " c.message
    ∷ "}"
    ∷ [])

unfoldable pub pod_starting_status_digest_message : String → PodStatus → String
pod_starting_status_digest_message pod status = concat (
    "{"
    ∷ pod
    ∷ prefixed ": " status.phase
    ∷ (if is_empty status.conditions
        then ""
        else concat (" [" ∷ concat (map condition_text status.conditions) ∷ "]" ∷ []))
    ∷ "}"
    ∷ [])

abbrev pub deployed_ready_reason : String
deployed_ready_reason = "AllPodsReady"

abbrev deployed : ConditionStatus → String → String → Condition
deployed status reason message = record {
  type = deployed_condition_type;
  status = status;
  observed_generation = 0;
  reason = reason;
  message = message;
}

-- The digest of a pod that is starting, where it can be read.
abbrev digest : (String → Result PodStatus) → List String → String
digest get_pod [] = ""
digest get_pod (pod ∷ more) = elim (get_pod pod) [
  | err e ↦ ""
  | ok status ↦
      if is_empty more
      then concat (" " ∷ pod_starting_status_digest_message pod status ∷ [])
      else ""
]

abbrev pub of_pods : (String → Result PodStatus) → DeploymentStatus → Condition
of_pods get_pod pods =
    if is_empty pods.ready
    then deployed status_false deployed_not_ready_reason
        (concat ("0/1 pods ready" ∷ digest get_pod pods.starting ∷ []))
    else deployed status_true deployed_ready_reason ""

unfoldable pub get_deployment_condition :
    (String → Result PodStatus) → DeploymentStatus → Bool → Option Error → Condition
unfolding pod_starting_status_digest_message
get_deployment_condition get_pod pods false e = deployed status_false validation_failed_reason ""
get_deployment_condition get_pod pods true (some e) =
    deployed status_false crud_kind_error_reason (error_text e)
get_deployment_condition get_pod pods true none = of_pods get_pod pods

abbrev or_valid : Option Condition → Condition
or_valid (some c) = c
or_valid none = record {
  type = valid_condition_type;
  status = status_true;
  observed_generation = 0;
  reason = valid_success_reason;
  message = "";
}

-- The first condition of the type Valid, or that the spec is valid.
unfoldable pub get_valid_condition : List Condition → Condition
get_valid_condition conditions =
    or_valid (find_first (λ (c : Condition). c.type == valid_condition_type) conditions)

unfoldable pub set_status_condition_with_generation :
    ConditionOps → ℕ → List Condition → Condition → List Condition
set_status_condition_with_generation ops generation conditions condition =
    ops.set_status_condition conditions (record condition { observed_generation = generation })

abbrev reconcile_blocked_type : String
reconcile_blocked_type = "ReconcileBlocked"

abbrev reconcile_blocked_reason : String
reconcile_blocked_reason = "AnnotationPresent"

-- `UpdateBlockedStatus`, with `meta.RemoveStatusCondition` as an argument.
unfoldable pub update_blocked_status :
    ConditionOps
    → (List Condition → String → List Condition)
    → ℕ
    → List Condition
    → Bool
    → List Condition
unfolding set_status_condition_with_generation
update_blocked_status ops remove_status_condition generation conditions true =
    set_status_condition_with_generation ops generation conditions (record {
      type = reconcile_blocked_type;
      status = status_true;
      observed_generation = 0;
      reason = reconcile_blocked_reason;
      message = "Reconcile blocked by presence of annotation arkmq.org/block-reconcile";
    })
update_blocked_status ops remove_status_condition generation conditions false =
    remove_status_condition conditions reconcile_blocked_type

-- What is read of the cluster: the stateful set of the broker, and its pods.
pub record PodReader : Type 0 where
  pub stateful_set : Result StatefulSet
  pub get_pod : String → Result PodStatus

-- The conditions that `ProcessStatus` leaves.
unfoldable pub process_conditions :
    ConditionOps → PodReader → ℕ → List Condition → DeploymentStatus → Option Error → List Condition
unfolding get_valid_condition get_deployment_condition set_status_condition_with_generation
process_conditions ops reader generation conditions pods e =
    let valid = get_valid_condition conditions in
    ops.set_status_condition (set_status_condition_with_generation ops generation conditions valid)
      (get_deployment_condition reader.get_pod pods (not (is_status_false valid.status)) e)

-- What is read of the broker, and of the labels that the operator gives its pods.
pub record BrokerView : Type 0 where
  pub generation : ℕ
  pub image : String
  pub version : String
  pub labels : List (String × String)
  pub conditions : List Condition

-- What `ProcessStatus` writes to the status of the broker, and what it sends.
pub record Processed : Type 0 where
  pub reported : Reported
  pub scale : String
  pub pod_status : DeploymentStatus
  pub conditions : List Condition
  pub sent : Option String

module _ (semver : Semver) (process : Process) (ops : ConditionOps) (reader : PodReader) where
  unfoldable pub process_status :
      List (String × String) → BrokerView → Option DeploymentStatus → Option Error → Processed
  unfolding update_version_status scale_label_selector update_pod_status process_conditions
  process_status labels broker entry e =
      let update = update_pod_status entry reader.stateful_set in
      record {
        reported = update_version_status semver process broker.image broker.version;
        scale = scale_label_selector labels broker.labels;
        pod_status = update.status;
        conditions =
            process_conditions ops reader broker.generation broker.conditions update.status e;
        sent = update.sent;
      }

-- The names that are sent while a broker is reconciled again and again, each time with its stateful set
-- as it then is. Each time leaves its status as the broker's entry.
unfoldable pub notices : Option DeploymentStatus → List (Result StatefulSet) → List (Option String)
unfolding update_pod_status
notices entry [] = []
notices entry (set ∷ sets) =
    let update = update_pod_status entry set in update.sent ∷ notices (some update.status) sets
