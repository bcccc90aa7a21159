-- ===== src/App/Resolve/Failures.antt =====
-- The errors of `resolveBrokerService`.
use activemq_artemis_operato.Base.{◌≡◌, refl, sym, true, Option, some, List, ◌⊎◌, inl, inr}
use mathlib.Core.Path.{subst}
use activemq_artemis_operato.Errors.{
  Error, err, Result-cases, is_transient, is_validation, condition_reason,
}
use activemq_artemis_operato.Api.{BrokerApp, BrokerService, spec_selector_error}
use activemq_artemis_operato.Cluster.{Cluster, ConditionOps}
use activemq_artemis_operato.App.Resolve.{
  Progress, resolve_in, resolve_with, resolve_broker_service,
}
use activemq_artemis_operato.App.Resolve.Assign.{Resolved, resolve_broker_service-Resolved}

Resolved-transient :
    (k : Cluster) (c : ConditionOps) (app : BrokerApp) (s : Progress)
    (services : List BrokerService) (r : Progress) (e : Error)
    → Resolved k c app s services (r, some e)
    → is_transient e ≡ true
Resolved-transient k c app s services r e (Resolved.kept bound service u v w h) = cc
Resolved-transient k c app s services r e (Resolved.left_alone bound u v h) = cc
Resolved-transient k c app s services r e (Resolved.placed service port u h) = cc
Resolved-transient k c app s services r e (Resolved.unmatched e' u v t h) = cc
Resolved-transient k c app s services r e (Resolved.failed e' u t h) = cc
Resolved-transient k c app s services r e (Resolved.evicted e' u v t h) = cc

from_pair :
    {s r : Progress} {e e' : Error}
    → ◌≡◌ {A = Progress × Option Error} (s, some e) (r, some e')
    → (s ≡ r) × (e ≡ e')
from_pair h = (cc, cc)

-- The selector of the app cannot be read: the error is for the Valid condition.
abbrev pub BadSelector : Cluster → BrokerApp → Progress → Progress → Error → Type 0
BadSelector k app s r e =
    ((e' : Error) × (k.label_selector_as_selector app.spec.service_selector ≡ err e'))
    × (is_validation e ≡ true)
    × (condition_reason e ≡ spec_selector_error)
    × (r ≡ s)

-- An error is a validation error, for a selector that cannot be read and with nothing changed, or a
-- transient one.
pub resolve_broker_service_error :
    (k : Cluster) (c : ConditionOps) (app : BrokerApp) (s r : Progress) (e : Error)
    → resolve_broker_service k c app s ≡ (r, some e)
    → BadSelector k app s r e ⊎ (is_transient e ≡ true)
unfolding resolve_broker_service resolve_with resolve_in
resolve_broker_service_error k c app s r e h =
    elim (Result-cases (k.label_selector_as_selector app.spec.service_selector)) [
      | inr (e', bad) ↦
          let (same, which) = from_pair (rw bad at h) in
          inl ((e', bad), rw (sym which) refl, rw (sym which) refl, sym same)
      | inl (selector, good) ↦ elim (Result-cases (k.list_services selector)) [
        | inr (e', bad) ↦
            let (same, which) = from_pair (rw (good, bad) at h) in inr (rw (sym which) refl)
        | inl (services, listed) ↦ inr (
            Resolved-transient k c app s services r e (
              subst (Resolved k c app s services) h
                (resolve_broker_service-Resolved k c app s selector services good listed)))
      ]
    ]
