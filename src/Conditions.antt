-- ===== src/Conditions.antt =====
-- pkg/utils/common/conditions.go: the Ready condition that sums the others up, and tests on conditions.
pub mod Ready
use activemq_artemis_operato.Base.{
  String, Bool, true, false, not, ◌&&◌, List, [], ◌∷◌, ◌==◌, any, if◌then◌else◌,
}
use activemq_artemis_operato.Api.{
  Condition, ConditionStatus, status_true, status_false, status_unknown, is_status_false,
  deployed_condition_type, ready_condition_type, ready_reason, not_ready_reason,
}
use activemq_artemis_operato.Cluster.{ConditionOps}

unfoldable pub new_ready_condition : Condition
new_ready_condition = record {
  type = ready_condition_type;
  status = status_true;
  observed_generation = 0;
  reason = ready_reason;
  message = "";
}

-- A condition of another type that is false.
abbrev pub is_blocking : Condition → Bool
is_blocking c = not (c.type == ready_condition_type) && is_status_false c.status

abbrev pub summary : Bool → Condition
summary ready = if ready then new_ready_condition else record new_ready_condition {
  status = status_false;
  reason = not_ready_reason;
  message = "Some conditions are not met";
}

unfoldable pub set_ready_condition : ConditionOps → List Condition → List Condition
unfolding new_ready_condition
set_ready_condition ops conditions = ops.set_status_condition conditions (
    summary (
      ops.is_status_condition_true conditions deployed_condition_type
      && not (any is_blocking conditions)))

abbrev same_status : ConditionStatus → ConditionStatus → Bool
same_status status_true status_true = true
same_status status_true status_false = false
same_status status_true status_unknown = false
same_status status_false status_true = false
same_status status_false status_false = true
same_status status_false status_unknown = false
same_status status_unknown status_true = false
same_status status_unknown status_false = false
same_status status_unknown status_unknown = true

unfoldable pub is_condition_present_and_equal : List Condition → Condition → Bool
is_condition_present_and_equal conditions condition =
    any
      (λ (c : Condition).
        condition.type == c.type
        && (condition.message == c.message
            && (condition.reason == c.reason && same_status condition.status c.status)))
      conditions

unfoldable pub is_condition_present_and_equal_ignoring_message : List Condition → Condition → Bool
is_condition_present_and_equal_ignoring_message conditions condition =
    any
      (λ (c : Condition).
        condition.type == c.type
        && (condition.reason == c.reason && same_status condition.status c.status))
      conditions
