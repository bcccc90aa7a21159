-- ===== src/Service/Status.antt =====
-- `processStatus` of controllers/brokerservice_controller.go: the conditions of a service, and the apps
-- that its broker has been provisioned with.
pub mod Synced
pub mod Provisioned
use activemq_artemis_operato.Base.{
  String, Bool, true, false, not, ◌&&◌, Option, none, some, List, [], ◌∷◌, ◌==◌, concat, lookup,
  split, if◌then◌else◌,
}
use activemq_artemis_operato.Errors.{
  Error, plain, validation_error, transient_error, transient_error_with_cause, error_text, Result,
  ok, err,
}
use activemq_artemis_operato.Api.{
  Condition, ConditionStatus, status_true, status_false, status_unknown, is_status_true,
  BrokerService, BrokerServiceStatus, BrokerStatus, ExternalConfigStatus, valid_condition_type,
  deployed_condition_type, ready_condition_type, apps_provisioned_condition_type,
  valid_success_reason, ready_reason, crud_kind_error_reason, deployed_not_ready_reason,
  apps_synced_reason, apps_waiting_reason, apps_not_ready_reason,
}
use activemq_artemis_operato.Cluster.{ConditionOps, is_true_condition}
use activemq_artemis_operato.Conditions.{set_ready_condition}
use activemq_artemis_operato.Service.Acceptor.{app_properties_secret_name}
use activemq_artemis_operato.Service.Provision.{provisioned_apps_annotation}

-- What is read of a secret.
pub record SecretView : Type 0 where
  pub resource_version : String
  pub annotations : List (String × String)

-- `Client.Get` of a secret by its namespace and name, and `%v` of a broker's status.
pub record StatusReader : Type 0 where
  pub get_secret : String → String → Result SecretView
  pub printed : BrokerStatus → String

abbrev condition : String → ConditionStatus → String → String → Condition
condition type status reason message = record {
  type = type;
  status = status;
  observed_generation = 0;
  reason = reason;
  message = message;
}

abbrev valid_now : Condition
valid_now = condition valid_condition_type status_true valid_success_reason ""

-- `setValidCondition`.
unfoldable pub valid_condition : Option Error → Condition
valid_condition none = valid_now
valid_condition (some (plain message)) = valid_now
valid_condition (some (validation_error reason message)) =
    condition valid_condition_type status_false reason message
valid_condition (some (transient_error reason message)) = valid_now
valid_condition (some (transient_error_with_cause reason message cause)) = valid_now

-- The Deployed condition of a reconcile with an error.
unfoldable pub failed_deployed : Error → Condition
failed_deployed (plain message) =
    condition deployed_condition_type status_unknown crud_kind_error_reason
      (concat ("error on resource crud " ∷ message ∷ []))
failed_deployed (validation_error reason message) =
    condition deployed_condition_type status_false reason message
failed_deployed (transient_error reason message) =
    condition deployed_condition_type status_false reason message
failed_deployed (transient_error_with_cause reason message cause) =
    condition deployed_condition_type status_false reason
      (error_text (transient_error_with_cause reason message cause))

abbrev not_deployed : String → Condition
not_deployed message =
    condition deployed_condition_type status_false deployed_not_ready_reason message

unfoldable pub deployed_by : StatusReader → BrokerStatus → Option Condition → Condition
deployed_by r status none = not_deployed ""
deployed_by r status (some found) =
    if is_status_true found.status
    then condition deployed_condition_type status_true ready_reason ""
    else not_deployed (concat ("not ready broker status " ∷ r.printed status ∷ []))

-- The version of the secret that the broker has applied, empty where it has applied none.
unfoldable pub applied_version : String → List ExternalConfigStatus → String
applied_version name [] = ""
applied_version name (c ∷ cs) =
    if c.name == name then c.resource_version else applied_version name cs

-- `strings.Split` of an annotation that is there and not empty.
unfoldable pub listed_apps : Option String → List String
listed_apps none = []
listed_apps (some applied) = if applied == "" then [] else split applied b','

-- The AppsProvisioned condition, and the apps that the status lists.
abbrev pub Apps : Type 0
Apps = Condition × List String

abbrev pub waiting : String → List String → Apps
waiting reason listed = (condition apps_provisioned_condition_type status_false reason "", listed)

unfoldable pub synced : String → List String → Result SecretView → Apps
synced version listed (err e) = waiting apps_waiting_reason listed
synced version listed (ok secret) =
    if secret.resource_version == version
    then (
      condition apps_provisioned_condition_type status_true apps_synced_reason "",
      listed_apps (lookup provisioned_apps_annotation secret.annotations),
    )
    else waiting apps_waiting_reason listed

unfoldable pub apps_of : StatusReader → BrokerService → Bool → BrokerStatus → List String → Apps
apps_of r service ready status listed =
    let name = app_properties_secret_name service.name in
    let version = applied_version name status.external_configs in
    if ready && not (version == "")
    then synced version listed (r.get_secret service.namespace name)
    else waiting apps_waiting_reason listed

module _ (ops : ConditionOps) (r : StatusReader) (service : BrokerService) where
  -- What a reconcile without an error makes of the deployed broker, if there is one.
  unfoldable pub of_broker : Option BrokerStatus → List String → Condition × Apps
  of_broker none listed = (not_deployed "", waiting apps_waiting_reason listed)
  of_broker (some status) listed =
      let ready =
        is_true_condition (ops.find_status_condition status.conditions ready_condition_type) in
      (
        deployed_by r status (ops.find_status_condition status.conditions deployed_condition_type),
        apps_of r service ready status listed,
      )

  unfoldable pub outcome : Option Error → Option BrokerStatus → List String → Condition × Apps
  outcome none broker listed = of_broker broker listed
  outcome (some e) broker listed = (failed_deployed e, waiting apps_not_ready_reason listed)

  -- The status that is written, where it differs from the service's.
  unfoldable pub process_status :
      BrokerServiceStatus → Option Error → Option BrokerStatus → BrokerServiceStatus
  process_status status e broker =
      let (deployed, (apps, listed)) = outcome e broker status.provisioned_apps in
      let valid = ops.set_status_condition status.conditions (valid_condition e) in
      record status {
        conditions =
            set_ready_condition ops
              (ops.set_status_condition (ops.set_status_condition valid deployed) apps);
        provisioned_apps = listed;
      }
