-- ===== src/App/Status/Set.antt =====
-- Which condition is found after each of the functions that set one.
use activemq_artemis_operato.Base.{
  ℕ, ◌≡◌, refl, Bool, true, false, not, Option, none, some, List, ◌=?◌, Bool-cases, inl, inr, arith,
}
use activemq_artemis_operato.Errors.{
  Error, plain, validation_error, transient_error, transient_error_with_cause, is_validation,
}
use activemq_artemis_operato.Api.{
  Condition, BrokerServiceBindingStatus, BrokerApp, BrokerService, valid_condition_type,
  deployed_condition_type, ready_condition_type,
}
use activemq_artemis_operato.Cluster.{ConditionOps, find_set_same, find_set_other}
use activemq_artemis_operato.App.Resolve.{Progress}
use activemq_artemis_operato.App.Status.{
  valid_condition, set_valid_condition, set_deployed_condition, deployment, initialize_deployed,
  is_provisioned, holds_at, is_valid_and_deployed, ready_condition, set_ready_condition,
}

abbrev pub is_invalid : Option Error → Bool
is_invalid none = false
is_invalid (some e) = is_validation e

module _ (c : ConditionOps) (app : BrokerApp) where
  pub generation-current : (n : ℕ) → (n =? n) ≡ true
  generation-current n = ground arith

  pub holds_at-ready : (b : Bool) → holds_at app.generation (some (ready_condition app b)) ≡ b
  unfolding holds_at ready_condition
  holds_at-ready true = generation-current app.generation
  holds_at-ready false = refl

  pub find_ready-set_ready :
      (cs : List Condition)
      → c.find_status_condition (set_ready_condition c app cs) ready_condition_type
        ≡ some (ready_condition app (is_valid_and_deployed c cs app.generation))
  unfolding set_ready_condition ready_condition
  find_ready-set_ready cs = c.find-set cs _ ready_condition_type

  pub find_valid-set_ready :
      (cs : List Condition)
      → c.find_status_condition (set_ready_condition c app cs) valid_condition_type
        ≡ c.find_status_condition cs valid_condition_type
  unfolding set_ready_condition ready_condition
  find_valid-set_ready cs = c.find-set cs _ valid_condition_type

  pub find_deployed-set_ready :
      (cs : List Condition)
      → c.find_status_condition (set_ready_condition c app cs) deployed_condition_type
        ≡ c.find_status_condition cs deployed_condition_type
  unfolding set_ready_condition ready_condition
  find_deployed-set_ready cs = c.find-set cs _ deployed_condition_type

  pub valid_condition-type :
      (cs : List Condition) (e : Option Error)
      → (valid_condition c app cs e).type ≡ valid_condition_type
  unfolding valid_condition
  valid_condition-type cs none = refl
  valid_condition-type cs (some (plain m)) = refl
  valid_condition-type cs (some (validation_error r m)) = refl
  valid_condition-type cs (some (transient_error r m)) = refl
  valid_condition-type cs (some (transient_error_with_cause r m e)) = refl

  pub find_valid-set_valid :
      (cs : List Condition) (e : Option Error)
      → c.find_status_condition (set_valid_condition c app cs e) valid_condition_type
        ≡ some (valid_condition c app cs e)
  unfolding set_valid_condition
  find_valid-set_valid cs e = find_set_same c cs _ valid_condition_type (valid_condition-type cs e)

  pub deployment-type :
      (b : Option BrokerServiceBindingStatus) (s : Option BrokerService)
      → (deployment app b s).type ≡ deployed_condition_type
  unfolding deployment
  deployment-type none s = refl
  deployment-type (some b) none = refl
  deployment-type (some b) (some s) = elim (Bool-cases (is_provisioned app s)) [
    | inl h ↦ rw h refl
    | inr h ↦ rw h refl
  ]

  pub find_deployed-set_valid :
      (cs : List Condition) (e : Option Error)
      → c.find_status_condition (set_valid_condition c app cs e) deployed_condition_type
        ≡ c.find_status_condition cs deployed_condition_type
  unfolding set_valid_condition
  find_deployed-set_valid cs e =
      find_set_other c cs _ deployed_condition_type valid_condition_type (valid_condition-type cs e)
        refl

  find_valid-initialize :
      (cs : List Condition) (d : Option Condition)
      → c.find_status_condition (initialize_deployed c cs d) valid_condition_type
        ≡ c.find_status_condition cs valid_condition_type
  unfolding initialize_deployed
  find_valid-initialize cs none = c.find-set cs _ valid_condition_type
  find_valid-initialize cs (some d) = refl

  -- The deployed condition is set without a change to the valid one.
  pub find_valid-set_deployed :
      (s : Progress) (e : Option Error)
      → c.find_status_condition (set_deployed_condition c app s e) valid_condition_type
        ≡ c.find_status_condition s.status.conditions valid_condition_type
  unfolding set_deployed_condition
  find_valid-set_deployed s none =
      find_set_other c s.status.conditions _ valid_condition_type deployed_condition_type
        (deployment-type s.status.service s.service) refl
  find_valid-set_deployed s (some (plain m)) = c.find-set _ _ valid_condition_type
  find_valid-set_deployed s (some (validation_error r m)) = find_valid-initialize _ _
  find_valid-set_deployed s (some (transient_error r m)) = c.find-set _ _ valid_condition_type
  find_valid-set_deployed s (some (transient_error_with_cause r m e)) =
      c.find-set _ _ valid_condition_type

  pub holds_at-valid :
      (cs : List Condition) (e : Option Error)
      → holds_at app.generation (some (valid_condition c app cs e)) ≡ not (is_invalid e)
  unfolding holds_at valid_condition
  holds_at-valid cs none = generation-current app.generation
  holds_at-valid cs (some (plain m)) = generation-current app.generation
  holds_at-valid cs (some (validation_error r m)) = refl
  holds_at-valid cs (some (transient_error r m)) = generation-current app.generation
  holds_at-valid cs (some (transient_error_with_cause r m e)) = generation-current app.generation
