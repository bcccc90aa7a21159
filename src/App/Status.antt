-- ===== src/App/Status.antt =====
-- The conditions of an app: `processStatus` and the functions that set them, of
-- controllers/brokerapp_controller.go.
pub mod Set
pub mod Ready
pub mod Deployed
pub mod Identity
use activemq_artemis_operato.Base.{
  ℕ, String, Bool, true, false, ◌&&◌, Option, none, some, List, [], ◌∷◌, ◌++◌, ◌==◌, ◌=?◌, any,
  concat, decimal, ltb, if◌then◌else◌,
}
use activemq_artemis_operato.Errors.{
  Error, plain, validation_error, transient_error, transient_error_with_cause, error_text,
}
use activemq_artemis_operato.Api.{
  Condition, ConditionStatus, status_true, status_false, BrokerServiceBindingStatus, binding_key,
  BrokerApp, BrokerAppStatus, BrokerService, valid_condition_type, deployed_condition_type,
  ready_condition_type, valid_success_reason, validation_failed_reason, crud_kind_error_reason,
  provisioned_reason, provisioning_pending_reason, matched_service_not_found_reason,
  no_matching_service_reason, ready_reason, not_ready_reason,
}
use activemq_artemis_operato.Cluster.{ConditionOps}
use activemq_artemis_operato.App.Find.{holds}
use activemq_artemis_operato.App.Resolve.{Progress}

-- `AppIdentity`, by `NameSpacedValue` and `DashPrefixValue`.
unfoldable pub app_identity : BrokerApp → String
app_identity app = concat (app.namespace ∷ "-" ∷ app.name ∷ [])

abbrev condition : String → BrokerApp → ConditionStatus → String → String → Condition
condition type instance status reason message = record {
  type = type;
  status = status;
  observed_generation = instance.generation;
  reason = reason;
  message = message;
}

-- The note on an app that was deployed at an older generation.
unfoldable pub blocked_note : BrokerApp → Option Condition → String
blocked_note instance none = ""
blocked_note instance (some deployed) =
    if holds (some deployed) && ltb deployed.observed_generation instance.generation
    then concat (
        " (reconcile blocked, app continues running at generation "
        ∷ decimal deployed.observed_generation
        ∷ ")"
        ∷ [])
    else ""

unfoldable pub valid_condition :
    ConditionOps → BrokerApp → List Condition → Option Error → Condition
valid_condition c instance conditions none =
    condition valid_condition_type instance status_true valid_success_reason ""
valid_condition c instance conditions (some (plain message)) =
    condition valid_condition_type instance status_true valid_success_reason ""
valid_condition c instance conditions (some (validation_error reason message)) =
    condition valid_condition_type instance status_false reason (
      concat (
        message
        ∷ blocked_note instance (c.find_status_condition conditions deployed_condition_type)
        ∷ []))
valid_condition c instance conditions (some (transient_error reason message)) =
    condition valid_condition_type instance status_true valid_success_reason ""
valid_condition c instance conditions (some (transient_error_with_cause reason message cause)) =
    condition valid_condition_type instance status_true valid_success_reason ""

unfoldable pub set_valid_condition :
    ConditionOps → BrokerApp → List Condition → Option Error → List Condition
set_valid_condition c instance conditions e =
    c.set_status_condition conditions (valid_condition c instance conditions e)

-- An app that was never deployed, as it did not pass its validation.
abbrev pub never_deployed : Condition
never_deployed = record {
  type = deployed_condition_type;
  status = status_false;
  observed_generation = 0;
  reason = validation_failed_reason;
  message = "Cannot deploy due to validation failure";
}

unfoldable pub initialize_deployed :
    ConditionOps → List Condition → Option Condition → List Condition
initialize_deployed c conditions (some existing) = conditions
initialize_deployed c conditions none = c.set_status_condition conditions never_deployed

unfoldable pub is_provisioned : BrokerApp → BrokerService → Bool
is_provisioned instance service =
    any (λ (applied : String). applied == app_identity instance) service.status.provisioned_apps

-- The deployed condition where there is no error.
unfoldable pub deployment :
    BrokerApp → Option BrokerServiceBindingStatus → Option BrokerService → Condition
deployment instance (some bound) (some service) =
    if is_provisioned instance service
    then condition deployed_condition_type instance status_true provisioned_reason
        "Application provisioned to broker"
    else condition deployed_condition_type instance status_false provisioning_pending_reason
        "Waiting for broker to provision"
deployment instance (some bound) none =
    condition deployed_condition_type instance status_false matched_service_not_found_reason
      (concat ("matching service " ∷ binding_key bound ∷ " not found" ∷ []))
deployment instance none service =
    condition deployed_condition_type instance status_false no_matching_service_reason
      "No matching BrokerService found"

unfoldable pub set_deployed_condition :
    ConditionOps → BrokerApp → Progress → Option Error → List Condition
set_deployed_condition c instance s (some (validation_error reason message)) =
    initialize_deployed c s.status.conditions
      (c.find_status_condition s.status.conditions deployed_condition_type)
set_deployed_condition c instance s (some (transient_error reason message)) =
    c.set_status_condition s.status.conditions
      (condition deployed_condition_type instance status_false reason message)
set_deployed_condition c instance s (some (transient_error_with_cause reason message cause)) =
    c.set_status_condition s.status.conditions (
      condition deployed_condition_type instance status_false reason
        (error_text (transient_error_with_cause reason message cause)))
set_deployed_condition c instance s (some (plain message)) =
    c.set_status_condition s.status.conditions
      (condition deployed_condition_type instance status_false crud_kind_error_reason message)
set_deployed_condition c instance s none =
    c.set_status_condition s.status.conditions (deployment instance s.status.service s.service)

-- The condition is true, and for the generation.
unfoldable pub holds_at : ℕ → Option Condition → Bool
holds_at generation none = false
holds_at generation (some cond) = holds (some cond) && cond.observed_generation =? generation

-- `Valid` and `Deployed` are true at the app's generation.
unfoldable pub is_valid_and_deployed : ConditionOps → List Condition → ℕ → Bool
is_valid_and_deployed c conditions generation =
    holds_at generation (c.find_status_condition conditions valid_condition_type)
    && holds_at generation (c.find_status_condition conditions deployed_condition_type)

unfoldable pub ready_condition : BrokerApp → Bool → Condition
ready_condition instance is_ready =
    condition ready_condition_type instance (if is_ready then status_true else status_false)
      (if is_ready then ready_reason else not_ready_reason)
      (if is_ready
        then "BrokerApp is ready"
        else "Waiting for Valid and Deployed conditions at current generation")

unfoldable pub set_ready_condition : ConditionOps → BrokerApp → List Condition → List Condition
set_ready_condition c instance conditions =
    c.set_status_condition conditions
      (ready_condition instance (is_valid_and_deployed c conditions instance.generation))

-- The status that `processStatus` writes, where it differs from the app's.
unfoldable pub process_status : ConditionOps → BrokerApp → Progress → Option Error → BrokerAppStatus
process_status c instance s e =
    let valid = set_valid_condition c instance s.status.conditions e in
    let deployed =
      set_deployed_condition c instance
        (record s { status = record s.status { conditions = valid } }) e in
    record s.status {
      conditions = set_ready_condition c instance deployed;
      observed_generation = instance.generation;
    }
