-- ===== src/Cluster.antt =====
-- What the controllers use and do not implement: the API server behind controller-runtime's client,
-- the evaluation of app selectors, and the condition helpers of k8s.io/apimachinery.
use activemq_artemis_operato.Base.{
  if_true, if_false, String, Bool, Option, List, some, none, ◌≡◌, ap, ◌∙◌, false, eq_iff, ◌==◌,
  if◌then◌else◌,
}
use activemq_artemis_operato.Errors.{Error, Result}
use activemq_artemis_operato.Api.{
  BrokerApp, BrokerService, Condition, LabelSelector, is_status_true,
}

-- The cluster as one reconcile reads it. A selector is known by the text that `%v` prints.
pub record Cluster : Type 0 where
  -- `metav1.LabelSelectorAsSelector`.
  pub label_selector_as_selector : Option LabelSelector → Result String
  -- `Client.List` of the services with matching labels.
  pub list_services : String → Result (List BrokerService)
  -- `Client.List` of the apps whose index `status.serviceBinding` has a key.
  pub list_bound_apps : String → Result (List BrokerApp)
  -- `Client.List` of all apps.
  pub list_apps : Result (List BrokerApp)
  -- `Client.Get` by namespace and name.
  pub get_app : String → String → Result BrokerApp
  pub get_service : String → String → Result BrokerService
  pub is_not_found : Error → Bool
  -- `appselector.Matches`, the evaluation of the service's expression on the app.
  pub app_matches : BrokerApp → BrokerService → Result Bool
  -- `common.GetClusterDomain`, a name that the resolver gives.
  pub cluster_domain : String

-- A condition that is there and true.
abbrev pub is_true_condition : Option Condition → Bool
is_true_condition none = false
is_true_condition (some c) = is_status_true c.status

-- The package `meta`: `SetStatusCondition` puts a condition in the place of the one of its type, or
-- adds it, `FindStatusCondition` finds the condition of a type, and `IsStatusConditionTrue` tells
-- whether it is there and true.
pub record ConditionOps : Type 0 where
  pub set_status_condition : List Condition → Condition → List Condition
  pub find_status_condition : List Condition → String → Option Condition
  pub find-set :
      (cs : List Condition) (c : Condition) (t : String)
      → find_status_condition (set_status_condition cs c) t
        ≡ (if c.type == t then some c else find_status_condition cs t)
  pub is_status_condition_true : List Condition → String → Bool
  pub is_true-find :
      (cs : List Condition) (t : String)
      → is_status_condition_true cs t ≡ is_true_condition (find_status_condition cs t)

module _ (c : ConditionOps) (cs : List Condition) (cond : Condition) (t : String) where
  -- The condition that was set is found by its type.
  pub find_set_same :
      cond.type ≡ t → c.find_status_condition (c.set_status_condition cs cond) t ≡ some cond
  find_set_same e = c.find-set cs cond t ∙ if_true (cond.type == t) _ _ ((eq_iff cond.type t).1 e)

  -- A condition of another type is found as before.
  pub find_set_other :
      (u : String)
      → cond.type ≡ u
      → (u == t) ≡ false
      → c.find_status_condition (c.set_status_condition cs cond) t ≡ c.find_status_condition cs t
  find_set_other u e ne =
      c.find-set cs cond t ∙ if_false (cond.type == t) _ _ (ap (λ v. v == t) e ∙ ne)
