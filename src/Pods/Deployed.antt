-- ===== src/Pods/Deployed.antt =====
-- When a broker counts as deployed.
use activemq_artemis_operato.Pods.{
  DeploymentStatus, StatefulSet, PodStatus, PodReader, BrokerView, pods_of, of_pods,
  get_deployment_condition, get_valid_condition, process_status,
  set_status_condition_with_generation,
}
use activemq_artemis_operato.Pods.Edges.{is_pod_ready}
use activemq_artemis_operato.Base.{
  String, Bool, true, false, not, Option, none, some, List, ◌≡◌, refl, sym, ◌∙◌, ◌↔◌, arith, inl,
  inr, Bool-cases, is_empty, ◌=?◌, false≢true,
}
use activemq_artemis_operato.Errors.{Error, Result, ok, err}
use activemq_artemis_operato.Api.{is_status_true, is_status_false, deployed_condition_type}
use activemq_artemis_operato.Cluster.{ConditionOps, is_true_condition, find_set_same}
use activemq_artemis_operato.Versions.{Semver}
use activemq_artemis_operato.Versions.Images.{Process}

condition-type :
    (get_pod : String → Result PodStatus) (pods : DeploymentStatus) (valid : Bool)
    (e : Option Error)
    → (get_deployment_condition get_pod pods valid e).type ≡ deployed_condition_type
unfolding get_deployment_condition
condition-type get_pod pods false e = refl
condition-type get_pod pods true (some e) = refl
condition-type get_pod pods true none = elim (Bool-cases (is_empty pods.ready)) [
  | inl h ↦ rw h refl
  | inr h ↦ rw h refl
]

pods_of-ready : (set : Result StatefulSet) → not (is_empty (pods_of set).ready) ≡ is_pod_ready set
unfolding pods_of
pods_of-ready (err e) = refl
pods_of-ready (ok set) = elim (Bool-cases (set.ready_replicas =? 0)) [
  | inl z ↦ rw z refl
  | inr z ↦ rw z refl
]

of_pods-status :
    (get_pod : String → Result PodStatus) (pods : DeploymentStatus)
    → is_status_true (of_pods get_pod pods).status ≡ not (is_empty pods.ready)
of_pods-status get_pod pods = elim (Bool-cases (is_empty pods.ready)) [
  | inl h ↦ rw h refl
  | inr h ↦ rw h refl
]

-- The condition is true exactly where all three hold.
condition_iff :
    (get_pod : String → Result PodStatus) (set : Result StatefulSet) (valid : Bool)
    (e : Option Error)
    → (is_status_true (get_deployment_condition get_pod (pods_of set) valid e).status ≡ true)
      ↔ ((valid ≡ true) × ((e ≡ none) × (is_pod_ready set ≡ true)))
unfolding get_deployment_condition
condition_iff get_pod set false e = (λ h. absurd (false≢true h), λ h. absurd (false≢true h.0))
condition_iff get_pod set true (some e) =
    (λ h. absurd (false≢true h), λ h. absurd (ground (arith, h.1.0)))
condition_iff get_pod set true none =
    let same = of_pods-status get_pod (pods_of set) ∙ pods_of-ready set in
    (λ h. (refl, (refl, sym same ∙ h)), λ h. same ∙ h.1.1)

module _ (semver : Semver) (process : Process) (ops : ConditionOps) (reader : PodReader)
    (labels : List (String × String)) (broker : BrokerView) (entry : Option DeploymentStatus)
    (e : Option Error) where
  -- The Deployed condition that `ProcessStatus` leaves is true exactly when the reconcile had no error,
  -- the Valid condition that the broker has is not false, where it has one, and its stateful set has a
  -- replica that is ready.
  pub process_status-deployed_iff :
      (is_true_condition (
          ops.find_status_condition
            (process_status semver process ops reader labels broker entry e).conditions
            deployed_condition_type)
        ≡ true)
      ↔ ((not (is_status_false (get_valid_condition broker.conditions).status) ≡ true)
          × ((e ≡ none) × (is_pod_ready reader.stateful_set ≡ true)))
  unfolding process_status
  process_status-deployed_iff =
      let valid = not (is_status_false (get_valid_condition broker.conditions).status) in
      let pods = pods_of reader.stateful_set in
      let cond = get_deployment_condition reader.get_pod pods valid e in
      let before =
        set_status_condition_with_generation ops broker.generation broker.conditions
          (get_valid_condition broker.conditions) in
      rw
        (find_set_same ops before cond deployed_condition_type
          (condition-type reader.get_pod pods valid e))
        (condition_iff reader.get_pod reader.stateful_set valid e)
