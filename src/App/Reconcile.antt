-- ===== src/App/Reconcile.antt =====
-- `Reconcile` of controllers/brokerapp_controller.go: a whole reconcile of an app.
pub mod Invalid
pub mod Returned
use activemq_artemis_operato.Base.{
  String, Bool, true, false, Option, none, some, List, [], ◌∷◌, concat, if◌then◌else◌,
}
use activemq_artemis_operato.Errors.{Error, plain, Result, ok, err, is_validation}
use activemq_artemis_operato.Api.{BrokerApp, BrokerAppStatus}
use activemq_artemis_operato.Cluster.{Cluster, ConditionOps}
use activemq_artemis_operato.Actions.{
  OwnerReference, ClientError, client_error_text, Client, Done, update_status,
}
use activemq_artemis_operato.Loop.{Kit, Loop, init_deployed, sync_desired_with_deployed}
use activemq_artemis_operato.App.Validate.{validate_spec}
use activemq_artemis_operato.App.Resolve.{Progress, Outcome, resolve_broker_service}
use activemq_artemis_operato.App.Binding.{secret_kind, process_binding_secret}
use activemq_artemis_operato.App.Status.{process_status}

-- What a reconcile uses: the cluster as it is read, the condition helpers, the client's writes, what
-- the loop calls, the reference to an app as an owner, and `reflect.DeepEqual` on its status.
pub record World (W : Type 0) : Type 0 where
  pub cluster : Cluster
  pub conditions : ConditionOps
  pub client : Client W
  pub kit : Kit
  pub owner_of : BrokerApp → OwnerReference
  pub deep_equal : BrokerAppStatus → BrokerAppStatus → Bool

-- `getOrderedTypeList`.
abbrev pub ordered_types : List String
ordered_types = secret_kind ∷ []

-- A new instance reconciler, with a copy of the status.
unfoldable pub begin : BrokerApp → Progress
begin instance = record { status = instance.status; service = none }

module _ {W : Type 0} (u : World W) (instance : BrokerApp) where
  unfoldable pub sync_binding : W → Result Loop → Done W
  sync_binding w (ok loop) =
      sync_desired_with_deployed u.client u.kit (u.owner_of instance) ordered_types loop w
  sync_binding w (err e) = (w, some e)

  unfoldable pub with_deployed : W → Progress → Result Loop → Done W
  with_deployed w s (ok loop) =
      sync_binding w (process_binding_secret u.cluster instance s.status.service loop)
  with_deployed w s (err e) = (w, some e)

  -- The cluster, the fields of the instance reconciler and the error, after the steps of a reconcile.
  unfoldable pub after_resolve : W → Outcome → W × Progress × Option Error
  after_resolve w (s, some e) = (w, s, some e)
  after_resolve w (s, none) =
      let done = with_deployed w s (init_deployed u.kit (u.owner_of instance)) in
      (done.0, s, done.1)

  unfoldable pub after_validate : W → Option Error → W × Progress × Option Error
  after_validate w (some e) = (w, begin instance, some e)
  after_validate w none =
      after_resolve w (resolve_broker_service u.cluster u.conditions instance (begin instance))

  unfoldable pub process : W → W × Progress × Option Error
  process w = after_validate w (validate_spec instance)

  -- The end of `processStatus`: the status is written where it changed.
  unfoldable pub write_status : W → BrokerAppStatus → W × Option ClientError
  write_status w status =
      if u.deep_equal instance.status status
      then (w, none)
      else update_status u.client w (record instance { status = status })

  -- What `Reconcile` returns of the two errors: a validation error waits for another spec.
  unfoldable pub returned : Option Error → Option ClientError → Option Error
  returned (some e) written = if is_validation e then none else some e
  returned none (some e) =
      some (plain (concat ("Failed to update status: error " ∷ client_error_text e ∷ [])))
  returned none none = none

  unfoldable pub finish : W × Progress × Option Error → Done W
  finish (w, s, e) =
      let written = write_status w (process_status u.conditions instance s e) in
      (written.0, returned e written.1)

  unfoldable pub reconcile_instance : W → Done W
  reconcile_instance w = finish (process w)

module _ {W : Type 0} (u : World W) where
  unfoldable pub reconcile_found : W → Result BrokerApp → Done W
  reconcile_found w (ok instance) = reconcile_instance u instance w
  reconcile_found w (err e) = if u.cluster.is_not_found e then (w, none) else (w, some e)

  unfoldable pub reconcile : W → String → String → Done W
  reconcile w namespace name = reconcile_found w (u.cluster.get_app namespace name)
