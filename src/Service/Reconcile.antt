-- ===== src/Service/Reconcile.antt =====
-- `Reconcile` of controllers/brokerservice_controller.go: a whole reconcile of a service.
pub mod Steps
pub mod Whole
use activemq_artemis_operato.Base.{
  String, Bool, true, false, Option, none, some, List, [], ◌∷◌, ◌==◌, concat, is_none,
  if◌then◌else◌,
}
use activemq_artemis_operato.Errors.{Error, plain, Result, ok, err, is_validation, ◌or_else◌}
use activemq_artemis_operato.Api.{
  BrokerApp, BrokerService, BrokerServiceStatus, BrokerStatus, RejectedApp, spec_selector_error,
}
use activemq_artemis_operato.Cluster.{ConditionOps}
use activemq_artemis_operato.Actions.{
  OwnerReference, Object, Detail, no_detail, broker_detail, service_detail, ClientError,
  client_error_text, Client, Done, update_service_status,
}
use activemq_artemis_operato.Loop.{
  Kit, Loop, init_deployed, get_from_deployed, sync_desired_with_deployed,
}
use activemq_artemis_operato.App.Validate.{as_validation_error, validate_resource_name}
use activemq_artemis_operato.App.Binding.{secret_kind}
use activemq_artemis_operato.Service.Provision.{Platform, Provision}
use activemq_artemis_operato.Service.Broker.{Asked, broker_kind, service_kind, process_spec}
use activemq_artemis_operato.Service.Status.{StatusReader, process_status}

-- What a reconcile uses. `appselector.ValidateExpression` compiles an expression.
pub record World (W : Type 0) : Type 0 where
  pub platform : Platform
  pub reader : StatusReader
  pub conditions : ConditionOps
  pub client : Client W
  pub kit : Kit
  pub owner_of : BrokerService → OwnerReference
  pub deep_equal : BrokerServiceStatus → BrokerServiceStatus → Bool
  pub validate_expression : String → Option Error

-- `getOrderedTypeList`.
abbrev pub ordered_types : List String
ordered_types = secret_kind ∷ broker_kind ∷ service_kind ∷ []

abbrev status_of : Detail → Option BrokerStatus
status_of (broker_detail spec status) = some status
status_of no_detail = none
status_of (service_detail selector cluster_ip) = none

abbrev status_in : Option Object → Option BrokerStatus
status_in none = none
status_in (some o) = status_of o.detail

-- `desired.RejectedApps` where the loop over the apps was run.
abbrev with_rejected : BrokerServiceStatus → Option Provision → BrokerServiceStatus
with_rejected status none = status
with_rejected status (some s) = record status { rejected_apps = s.rejected }

-- The cluster after the steps, the status and the broker that `processStatus` starts from, and the
-- error.
pub record Processed (W : Type 0) : Type 0 where
  pub cluster : W
  pub status : BrokerServiceStatus
  pub broker : Option BrokerStatus
  pub error : Option Error

module _ {W : Type 0} (u : World W) (instance : BrokerService) where
  unfoldable pub validate_spec : Option Error
  validate_spec =
      validate_resource_name instance.name
      or_else (if instance.spec.app_selector_expression == ""
          then none
          else as_validation_error spec_selector_error "invalid appSelectorExpression: "
              (u.validate_expression instance.spec.app_selector_expression))

  unfoldable pub deployed_broker : Loop → Option BrokerStatus
  deployed_broker loop = status_in (get_from_deployed loop broker_kind instance.name)

  unfoldable pub after_spec : W → Asked → Done W
  after_spec w asked =
      if is_none asked.error
      then sync_desired_with_deployed u.client u.kit (u.owner_of instance) ordered_types asked.loop
          w
      else (w, asked.error)

  unfoldable pub with_deployed : W → Result Loop → Processed W
  with_deployed w (err e) = record {
    cluster = w;
    status = instance.status;
    broker = none;
    error = some e;
  }
  with_deployed w (ok loop) =
      let asked = process_spec u.platform instance loop in
      let done = after_spec w asked in
      record {
        cluster = done.0;
        status = with_rejected instance.status asked.provision;
        broker = deployed_broker loop;
        error = done.1;
      }

  unfoldable pub after_validate : W → Option Error → Processed W
  after_validate w (some e) = record {
    cluster = w;
    status = instance.status;
    broker = none;
    error = some e;
  }
  after_validate w none = with_deployed w (init_deployed u.kit (u.owner_of instance))

  unfoldable pub process : W → Processed W
  process w = after_validate w validate_spec

  -- The end of `processStatus`: the status is written where it changed.
  unfoldable pub write_status : W → BrokerServiceStatus → W × Option ClientError
  write_status w status =
      if u.deep_equal instance.status status
      then (w, none)
      else update_service_status u.client w (record instance { status = status })

  -- What `Reconcile` returns of the two errors; `processStatus` never asks for a retry.
  unfoldable pub returned : Option Error → Option ClientError → Option Error
  returned (some e) written = if is_validation e then none else some e
  returned none (some e) =
      some (plain (concat ("Failed to update status: error " ∷ client_error_text e ∷ [])))
  returned none none = none

  unfoldable pub new_status : Processed W → BrokerServiceStatus
  new_status p = process_status u.conditions u.reader instance p.status p.error p.broker

  unfoldable pub finish : Processed W → Done W
  finish p =
      let written = write_status p.cluster (new_status p) in (written.0, returned p.error written.1)

  unfoldable pub reconcile_instance : W → Done W
  reconcile_instance w = finish (process w)

module _ {W : Type 0} (u : World W) where
  unfoldable pub reconcile_found : W → Result BrokerService → Done W
  reconcile_found w (ok instance) = reconcile_instance u instance w
  reconcile_found w (err e) = if u.platform.cluster.is_not_found e then (w, none) else (w, some e)

  unfoldable pub reconcile : W → String → String → Done W
  reconcile w namespace name = reconcile_found w (u.platform.cluster.get_service namespace name)
