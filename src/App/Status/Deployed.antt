-- ===== src/App/Status/Deployed.antt =====
-- The Valid and Deployed conditions that `processStatus` leaves, and those it leaves alone.
use activemq_artemis_operato.Base.{
  String, ◌≡◌, refl, ap, ◌∙◌, false, not, Option, none, some, List, ◌==◌,
}
use activemq_artemis_operato.Errors.{
  Error, plain, validation_error, transient_error, transient_error_with_cause,
}
use activemq_artemis_operato.Api.{
  Condition, BrokerApp, valid_condition_type, deployed_condition_type, ready_condition_type,
}
use activemq_artemis_operato.Cluster.{ConditionOps, find_set_other}
use activemq_artemis_operato.App.Resolve.{Progress}
use activemq_artemis_operato.App.Status.{
  set_valid_condition, set_deployed_condition, initialize_deployed, never_deployed, holds_at,
  set_ready_condition, ready_condition, process_status,
}
use activemq_artemis_operato.App.Status.Set.{
  is_invalid, find_valid-set_ready, find_deployed-set_ready, find_deployed-set_valid,
  valid_condition-type, deployment-type,
}
use activemq_artemis_operato.App.Status.Ready.{valid_before, holds_after}

-- The Valid condition holds at the app's generation exactly when the reconcile's error, if any, is
-- not a validation error.
pub process_status-valid :
    (c : ConditionOps) (app : BrokerApp) (s : Progress) (e : Option Error)
    → holds_at app.generation
        (c.find_status_condition (process_status c app s e).conditions valid_condition_type)
      ≡ not (is_invalid e)
unfolding process_status
process_status-valid c app s e =
    ap (holds_at app.generation) (find_valid-set_ready c app _) ∙ holds_after c app s e

-- The condition that is there, or the one of an app that was never deployed.
abbrev pub kept_deployed : Option Condition → Option Condition
kept_deployed none = some never_deployed
kept_deployed (some existing) = some existing

find_deployed-initialize :
    (c : ConditionOps) (cs : List Condition) (d : Option Condition)
    → c.find_status_condition cs deployed_condition_type ≡ d
    → c.find_status_condition (initialize_deployed c cs d) deployed_condition_type ≡ kept_deployed d
unfolding initialize_deployed
find_deployed-initialize c cs none h = c.find-set _ _ deployed_condition_type
find_deployed-initialize c cs (some existing) h = h

-- A validation error leaves the Deployed condition as it was, with its old generation; an app
-- without one gets the condition of an app that was never deployed.
pub process_status-blocked :
    (c : ConditionOps) (app : BrokerApp) (s : Progress) (reason message : String)
    → c.find_status_condition
        (process_status c app s (some (validation_error reason message))).conditions
        deployed_condition_type
      ≡ kept_deployed (c.find_status_condition s.status.conditions deployed_condition_type)
unfolding process_status set_deployed_condition
process_status-blocked c app s reason message =
    find_deployed-set_ready c app _
    ∙ find_deployed-initialize c _ _ refl
    ∙ ap kept_deployed (find_deployed-set_valid c app s.status.conditions _)

module _ (c : ConditionOps) (app : BrokerApp) (t : String) where
  find-set_ready :
      (cs : List Condition)
      → (ready_condition_type == t) ≡ false
      → c.find_status_condition (set_ready_condition c app cs) t ≡ c.find_status_condition cs t
  unfolding set_ready_condition ready_condition
  find-set_ready cs ne = find_set_other c cs _ t ready_condition_type refl ne

  find-set_valid :
      (cs : List Condition) (e : Option Error)
      → (valid_condition_type == t) ≡ false
      → c.find_status_condition (set_valid_condition c app cs e) t ≡ c.find_status_condition cs t
  unfolding set_valid_condition
  find-set_valid cs e ne =
      find_set_other c cs _ t valid_condition_type (valid_condition-type c app cs e) ne

  find-initialize :
      (cs : List Condition) (d : Option Condition)
      → (deployed_condition_type == t) ≡ false
      → c.find_status_condition (initialize_deployed c cs d) t ≡ c.find_status_condition cs t
  unfolding initialize_deployed
  find-initialize cs none ne = find_set_other c cs _ t deployed_condition_type refl ne
  find-initialize cs (some d) ne = refl

  find-set_deployed :
      (s : Progress) (e : Option Error)
      → (deployed_condition_type == t) ≡ false
      → c.find_status_condition (set_deployed_condition c app s e) t
        ≡ c.find_status_condition s.status.conditions t
  unfolding set_deployed_condition
  find-set_deployed s none ne =
      find_set_other c s.status.conditions _ t deployed_condition_type
        (deployment-type c app s.status.service s.service) ne
  find-set_deployed s (some (plain m)) ne = find_set_other c _ _ t deployed_condition_type refl ne
  find-set_deployed s (some (validation_error r m)) ne = find-initialize _ _ ne
  find-set_deployed s (some (transient_error r m)) ne =
      find_set_other c _ _ t deployed_condition_type refl ne
  find-set_deployed s (some (transient_error_with_cause r m e)) ne =
      find_set_other c _ _ t deployed_condition_type refl ne

-- A condition of any other type is left as it was, and so is the binding.
pub process_status_frame :
    (c : ConditionOps) (app : BrokerApp) (s : Progress) (e : Option Error) (t : String)
    → (valid_condition_type == t) ≡ false
    → (deployed_condition_type == t) ≡ false
    → (ready_condition_type == t) ≡ false
    → (c.find_status_condition (process_status c app s e).conditions t
        ≡ c.find_status_condition s.status.conditions t)
      × ((process_status c app s e).service ≡ s.status.service)
unfolding process_status
process_status_frame c app s e t valid deployed ready = (
  find-set_ready c app t _ ready
      ∙ find-set_deployed c app t (valid_before c app s e) e deployed
      ∙ find-set_valid c app t s.status.conditions e valid,
  refl,
)
