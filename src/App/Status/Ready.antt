-- ===== src/App/Status/Ready.antt =====
-- When an app is ready.
use activemq_artemis_operato.Base.{
  ◌≡◌, refl, ap, ◌∙◌, Bool, true, false, not, ◌&&◌, Option, none, some, Bool-cases, inl, inr, arith,
}
use activemq_artemis_operato.Errors.{
  Error, plain, validation_error, transient_error, transient_error_with_cause,
}
use activemq_artemis_operato.Api.{
  BrokerServiceBindingStatus, BrokerApp, BrokerService, valid_condition_type,
  deployed_condition_type, ready_condition_type,
}
use activemq_artemis_operato.Cluster.{ConditionOps, find_set_same}
use activemq_artemis_operato.App.Resolve.{Progress}
use activemq_artemis_operato.App.Status.{
  set_valid_condition, set_deployed_condition, deployment, is_provisioned, holds_at,
  is_valid_and_deployed, process_status,
}
use activemq_artemis_operato.App.Status.Set.{
  is_invalid, generation-current, holds_at-ready, find_ready-set_ready, find_valid-set_valid,
  deployment-type, find_valid-set_deployed, holds_at-valid,
}

module _ (c : ConditionOps) (app : BrokerApp) where
  -- The app is bound to a service that lists it as provisioned.
  abbrev pub is_deployed : Option BrokerServiceBindingStatus → Option BrokerService → Bool
  is_deployed none service = false
  is_deployed (some bound) none = false
  is_deployed (some bound) (some service) = is_provisioned app service

  holds_at-deployment :
      (b : Option BrokerServiceBindingStatus) (s : Option BrokerService)
      → holds_at app.generation (some (deployment app b s)) ≡ is_deployed b s
  unfolding holds_at deployment
  holds_at-deployment none s = refl
  holds_at-deployment (some b) none = refl
  holds_at-deployment (some b) (some s) = elim (Bool-cases (is_provisioned app s)) [
    | inl h ↦ rw h (generation-current c app app.generation)
    | inr h ↦ rw h refl
  ]

  abbrev pub is_success : Option Error → Bool
  is_success none = true
  is_success (some e) = false

  -- Without a validation error, the deployed condition holds exactly on a provisioned app.
  pub holds_at-set_deployed :
      (s : Progress) (e : Option Error)
      → is_invalid e ≡ false
      → holds_at app.generation
          (c.find_status_condition (set_deployed_condition c app s e) deployed_condition_type)
        ≡ (is_success e && is_deployed s.status.service s.service)
  unfolding set_deployed_condition holds_at
  holds_at-set_deployed s none v =
      ap (holds_at app.generation) (
        find_set_same c s.status.conditions _ deployed_condition_type
          (deployment-type c app s.status.service s.service))
      ∙ holds_at-deployment s.status.service s.service
  holds_at-set_deployed s (some (plain m)) v =
      ap (holds_at app.generation) (c.find-set _ _ deployed_condition_type)
  holds_at-set_deployed s (some (validation_error r m)) v = cc
  holds_at-set_deployed s (some (transient_error r m)) v =
      ap (holds_at app.generation) (c.find-set _ _ deployed_condition_type)
  holds_at-set_deployed s (some (transient_error_with_cause r m e)) v =
      ap (holds_at app.generation) (c.find-set _ _ deployed_condition_type)

  abbrev pub valid_before : Progress → Option Error → Progress
  valid_before s e = record s {
    status = record s.status { conditions = set_valid_condition c app s.status.conditions e };
  }

  fails : (e : Option Error) → is_invalid e ≡ true → is_success e ≡ false
  fails none h = cc
  fails (some e) h = refl

  both : (x y u w : Bool) → x ≡ false → u ≡ false → (x && y) ≡ (u && w)
  both x y u w h g = ground arith

  neither : (x y w : Bool) → x ≡ true → y ≡ w → (x && y) ≡ w
  neither x y w h g = ground arith

  -- The valid condition that is set is there when the deployed one is.
  pub holds_after :
      (s : Progress) (e : Option Error)
      → holds_at app.generation (
          c.find_status_condition
            (set_deployed_condition c app (valid_before s e) e)
            valid_condition_type)
        ≡ not (is_invalid e)
  holds_after s e =
      ap (holds_at app.generation) (
        find_valid-set_deployed c app (valid_before s e) e
        ∙ find_valid-set_valid c app s.status.conditions e)
      ∙ holds_at-valid c app s.status.conditions e

  valid_and_deployed :
      (s : Progress) (e : Option Error)
      → is_valid_and_deployed c (set_deployed_condition c app (valid_before s e) e) app.generation
        ≡ (is_success e && is_deployed s.status.service s.service)
  unfolding is_valid_and_deployed
  valid_and_deployed s e =
      let x = holds_at app.generation (
        c.find_status_condition (set_deployed_condition c app (valid_before s e) e)
          valid_condition_type) in
      let v = holds_after s e in
      elim (Bool-cases (is_invalid e)) [
        | inl invalid ↦ let f = fails e invalid in both x _ _ _ (v ∙ ap not invalid) f
        | inr valid ↦
            neither x _ _ (v ∙ ap not valid) (holds_at-set_deployed (valid_before s e) e valid)
      ]

-- The conditions that `processStatus` leaves make the app ready at its generation exactly when the
-- reconcile had no error, the app is bound, the service was found and lists it as provisioned.
pub process_status-ready :
    (c : ConditionOps) (app : BrokerApp) (s : Progress) (e : Option Error)
    → holds_at app.generation
        (c.find_status_condition (process_status c app s e).conditions ready_condition_type)
      ≡ (is_success c app e && is_deployed c app s.status.service s.service)
unfolding process_status
process_status-ready c app s e =
    ap (holds_at app.generation) (find_ready-set_ready c app _)
    ∙ holds_at-ready c app _
    ∙ valid_and_deployed c app s e
