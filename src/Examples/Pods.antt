-- ===== src/Examples/Pods.antt =====
-- The status of a broker on examples.
use activemq_artemis_operato.Pods.{
  StatefulSet, PodReader, BrokerView, pod_starting_status_digest_message, scale_label_selector,
  get_valid_condition, process_status, notices,
}
use activemq_artemis_operato.Pods.Edges.{is_pod_ready, IsTold, notices-rising}
use activemq_artemis_operato.Pods.Deployed.{process_status-deployed_iff}
use activemq_artemis_operato.Base.{true, not, Option, none, some, [], ◌∷◌, ◌++◌, ◌≡◌, refl, ◌↔◌}
use activemq_artemis_operato.Errors.{Result, Error, plain, ok, err}
use activemq_artemis_operato.Api.{is_status_false, deployed_condition_type}
use activemq_artemis_operato.Cluster.{is_true_condition}
use activemq_artemis_operato.Examples.{front_ops}
use activemq_artemis_operato.Examples.Versions.{semver, process}

abbrev absent : Result StatefulSet
absent = err (plain "not found")

abbrev with_replicas_0 : Result StatefulSet
with_replicas_0 = ok (record { name = "broker-ss"; ready_replicas = 0 })

abbrev with_replicas_1 : Result StatefulSet
with_replicas_1 = ok (record { name = "broker-ss"; ready_replicas = 1 })

abbrev reader : PodReader
reader = record { stateful_set = with_replicas_1; get_pod = λ name. err (plain "not found") }

abbrev no_error : Option Error
no_error = none

abbrev view : BrokerView
view = record {
  generation = 3;
  image = "";
  version = "2.27";
  labels = ("app", "shop") ∷ [];
  conditions = [];
}

notices-rising_example :
    IsTold
      ((absent ∷ with_replicas_0 ∷ []) ++ with_replicas_1 ∷ [])
      (notices none ((absent ∷ with_replicas_0 ∷ []) ++ with_replicas_1 ∷ []))
notices-rising_example =
    notices-rising none (absent ∷ with_replicas_0 ∷ []) with_replicas_1 refl refl

process_status-deployed_iff_example :
    (is_true_condition (
        front_ops.find_status_condition
          (process_status semver process front_ops reader [] view none no_error).conditions
          deployed_condition_type)
      ≡ true)
    ↔ ((not (is_status_false (get_valid_condition []).status) ≡ true)
        × ((no_error ≡ none) × (is_pod_ready with_replicas_1 ≡ true)))
process_status-deployed_iff_example =
    process_status-deployed_iff semver process front_ops reader [] view none no_error

told :
    notices none (with_replicas_0 ∷ with_replicas_1 ∷ with_replicas_1 ∷ [])
    ≡ (none ∷ some "broker-ss-0" ∷ none ∷ [])
unfolding notices
told = refl

selected : scale_label_selector (("b", "2") ∷ []) (("a", "1") ∷ ("c", "3") ∷ []) ≡ "a=1,b=2,c=3"
unfolding scale_label_selector
selected = refl

digested :
    pod_starting_status_digest_message "broker-ss-0" (record {
      phase = "Pending";
      conditions =
          record { type = "PodScheduled"; status = "False"; reason = "Unschedulable"; message = "" }
          ∷ [];
    })
    ≡ "{broker-ss-0: Pending [{PodScheduled=False Unschedulable}]}"
unfolding pod_starting_status_digest_message
digested = refl
