-- ===== src/Conditions/Ready.antt =====
-- When `SetReadyCondition` of pkg/utils/common/conditions.go makes a resource ready.
use activemq_artemis_operato.Base.{
  String, Bool, true, false, not, ◌&&◌, List, [], ◌∷◌, ◌≡◌, refl, sym, ap, ◌∙◌, ◌==◌, ◌↔◌, arith,
  any, any-false, All, All-of-Memᴰ,
}
use activemq_artemis_operato.Api.{
  Condition, deployed_condition_type, ready_condition_type, is_status_true,
}
use activemq_artemis_operato.Cluster.{
  ConditionOps, is_true_condition, find_set_same, find_set_other,
}
use activemq_artemis_operato.Conditions.{
  new_ready_condition, is_blocking, summary, set_ready_condition,
}

summary-type : (ready : Bool) → (summary ready).type ≡ ready_condition_type
unfolding new_ready_condition
summary-type true = refl
summary-type false = refl

summary-status : (ready : Bool) → is_status_true (summary ready).status ≡ ready
unfolding new_ready_condition
summary-status true = refl
summary-status false = refl

module _ (ops : ConditionOps) (cs : List Condition) where
  -- The sum of the conditions, as the ready condition that is found has it.
  pub found_ready :
      is_true_condition
        (ops.find_status_condition (set_ready_condition ops cs) ready_condition_type)
      ≡ (is_true_condition (ops.find_status_condition cs deployed_condition_type)
          && not (any is_blocking cs))
  unfolding set_ready_condition
  found_ready =
      let ready =
        ops.is_status_condition_true cs deployed_condition_type && not (any is_blocking cs) in
      unfold new_ready_condition in
      ap is_true_condition
        (find_set_same ops cs (summary ready) ready_condition_type (summary-type ready))
      ∙ summary-status ready
      ∙ ap (λ b. b && not (any is_blocking cs)) (ops.is_true-find cs deployed_condition_type)

-- The condition of another type is found as it was.
pub find-set_ready :
    (ops : ConditionOps) (cs : List Condition) (t : String)
    → (ready_condition_type == t) ≡ false
    → ops.find_status_condition (set_ready_condition ops cs) t ≡ ops.find_status_condition cs t
unfolding set_ready_condition
find-set_ready ops cs t ne =
    let ready =
      ops.is_status_condition_true cs deployed_condition_type && not (any is_blocking cs) in
    find_set_other ops cs (summary ready) t ready_condition_type (summary-type ready) ne

and_parts : (a b : Bool) → (a && not b) ≡ true → (a ≡ true) × (b ≡ false)
and_parts a b h = (ground arith, ground arith)

and_whole : (a b : Bool) → a ≡ true → b ≡ false → (a && not b) ≡ true
and_whole a b h g = ground arith

none_blocking :
    (cs : List Condition) → All (λ c. is_blocking c ≡ false) cs → any is_blocking cs ≡ false
none_blocking [] h = refl
none_blocking (c ∷ cs) h = ground (arith, h.0, none_blocking cs h.1)

-- The ready condition that is set is true exactly when the Deployed condition is true and no condition
-- but the ready one itself is false.
pub set_ready_condition_iff :
    (ops : ConditionOps) (cs : List Condition)
    → (is_true_condition
          (ops.find_status_condition (set_ready_condition ops cs) ready_condition_type)
        ≡ true)
      ↔ ((is_true_condition (ops.find_status_condition cs deployed_condition_type) ≡ true)
          × All (λ c. is_blocking c ≡ false) cs)
set_ready_condition_iff ops cs =
    let deployed = is_true_condition (ops.find_status_condition cs deployed_condition_type) in
    (
      λ h.
          let parts = and_parts deployed (any is_blocking cs) (sym (found_ready ops cs) ∙ h) in
          (
            parts.0,
            All-of-Memᴰ (λ c. is_blocking c ≡ false) cs (λ c m. any-false is_blocking parts.1 m),
          ),
      λ p. found_ready ops cs ∙ and_whole deployed (any is_blocking cs) p.0 (none_blocking cs p.1),
    )
