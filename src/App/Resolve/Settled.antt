-- ===== src/App/Resolve/Settled.antt =====
-- A second reconcile of an app, from where the first one ended.
use activemq_artemis_operato.Base.{
  ℕ, String, ◌≡◌, refl, sym, ap, ◌∙◌, false, none, some, List, [], eq_refl, eq_iff, arith, Memᴰ,
  find_first, find_first-some, find_first-none, Option-cases, inl, inr, false≢true,
}
use activemq_artemis_operato.Errors.{ok}
use activemq_artemis_operato.Api.{BrokerServiceBindingStatus, BrokerApp, BrokerService}
use activemq_artemis_operato.Cluster.{Cluster, ConditionOps}
use activemq_artemis_operato.App.Checks.{is_app_rejected_by_service}
use activemq_artemis_operato.App.Find.Choice.{BestOffer}
use activemq_artemis_operato.App.Resolve.{
  Progress, Outcome, is_bound_to, check_bound, check_binding, bind, resolve_in, resolve_with,
  resolve_broker_service,
}
use activemq_artemis_operato.App.Resolve.Keep.{StillValid, resolve_broker_service_keeps}
use activemq_artemis_operato.App.Resolve.Assign.{
  Resolved, kept, left_alone, placed, unmatched, failed, evicted, binding_of,
  resolve_broker_service-Resolved,
}

-- A namespace and a name stand for one service of the list.
abbrev pub AreNamed : List BrokerService → Type 0
AreNamed services =
    (x y : BrokerService)
    → Memᴰ x services
    → Memᴰ y services
    → x.namespace ≡ y.namespace
    → x.name ≡ y.name
    → x ≡ y

-- The service that was found, if one was, has not rejected the app.
abbrev pub IsAccepted : BrokerApp → Progress → Type 0
IsAccepted app s =
    (service : BrokerService)
    → s.service ≡ some service
    → is_app_rejected_by_service app service ≡ false

found_again :
    (app : BrokerApp) (services : List BrokerService) (service : BrokerService) (port : ℕ)
    → AreNamed services
    → Memᴰ service services
    → find_first (is_bound_to (binding_of app service port)) services ≡ some service
found_again app services service port named member =
    let test = is_bound_to (binding_of app service port) in
    elim (Option-cases (find_first test services)) [
      | inr (x, e) ↦
          let (there, bound) = find_first-some test services e in
          e
          ∙ ap some (
              named x service there member
                ((eq_iff x.namespace service.namespace).0 (ground (arith, bound)))
                ((eq_iff x.name service.name).0 (ground (arith, bound))))
      | inl e ↦ absurd (
          false≢true (
            sym (find_first-none test e member)
            ∙ ground (arith, eq_refl service.namespace, eq_refl service.name)))
    ]

module _ (k : Cluster) (c : ConditionOps) (app : BrokerApp) (selector : String)
    (services : List BrokerService)
    (selects : k.label_selector_as_selector app.spec.service_selector ≡ ok selector)
    (lists : k.list_services selector ≡ ok services) where
  alone_again :
      (s : Progress) (bound : BrokerServiceBindingStatus)
      → s.status.service ≡ some bound
      → services ≡ []
      → resolve_broker_service k c app s ≡ (record { status = s.status; service = none }, none)
  unfolding resolve_broker_service resolve_with resolve_in bind check_binding check_bound
  alone_again s bound e empty = rw (selects, lists, e, empty) refl

  offer-StillValid :
      (service : BrokerService) (port : ℕ)
      → BestOffer k c app services service port
      → is_app_rejected_by_service app service ≡ false
      → Memᴰ service services × StillValid k app service
  unfolding BestOffer
  offer-StillValid service port (v, member, offers, most) accepted = (
    member,
    record {
      accepted = accepted;
      selected = offers.selected;
      satisfied = offers.satisfied;
      apart = offers.apart;
    },
  )

  settled :
      (s t : Progress) (o : Outcome)
      → AreNamed services
      → IsAccepted app t
      → Resolved k c app s services o
      → o ≡ (t, none)
      → resolve_broker_service k c app t ≡ (t, none)
  settled s t o named accepted (kept bound service e found valid q) h =
      let same : record { status = s.status; service = some service } ≡ t =
        ap (λ (x : Outcome). x.0) (sym q ∙ h) in
      rw (← same) (
        resolve_broker_service_keeps k c app (record { status = s.status; service = some service })
          selector services bound service selects lists e found valid)
  settled s t o named accepted (left_alone bound e empty q) h =
      let same : record { status = s.status; service = none } ≡ t =
        ap (λ (x : Outcome). x.0) (sym q ∙ h) in
      rw (← same) (alone_again (record { status = s.status; service = none }) bound e empty)
  settled s t o named accepted (placed service port best q) h =
      let now : Progress = record {
        status = record s.status { service = some (binding_of app service port) };
        service = some service;
      } in
      let same : now ≡ t = ap (λ (x : Outcome). x.0) (sym q ∙ h) in
      let (member, valid) =
        offer-StillValid service port best
          (accepted service (ap (λ (x : Progress). x.service) (sym same))) in
      rw (← same) (
        resolve_broker_service_keeps k c app now selector services (binding_of app service port)
          service selects lists refl (found_again app services service port named member) valid)
  settled s t o named accepted (unmatched e f empty u q) h =
      absurd (let x = ap (λ (x : Outcome). x.1) (sym q ∙ h) in cc)
  settled s t o named accepted (failed e f u q) h =
      absurd (let x = ap (λ (x : Outcome). x.1) (sym q ∙ h) in cc)
  settled s t o named accepted (evicted e f g u q) h =
      absurd (let x = ap (λ (x : Outcome). x.1) (sym q ∙ h) in cc)

-- A reconcile settles: where it ends without an error, and the service that it found has not rejected
-- the app, a second one on the same cluster, which starts from the status and the service that the first
-- one left, ends without an error with the same status and the same service, so with the same port. This
-- holds of an app that was placed on a service just so as of one that was kept or left alone.
pub resolve_broker_service_settles :
    (k : Cluster) (c : ConditionOps) (app : BrokerApp) (selector : String)
    (services : List BrokerService) (s t : Progress)
    → k.label_selector_as_selector app.spec.service_selector ≡ ok selector
    → k.list_services selector ≡ ok services
    → AreNamed services
    → IsAccepted app t
    → resolve_broker_service k c app s ≡ (t, none)
    → resolve_broker_service k c app t ≡ (t, none)
resolve_broker_service_settles k c app selector services s t selects lists named accepted h =
    settled k c app selector services selects lists s t (resolve_broker_service k c app s) named
      accepted (resolve_broker_service-Resolved k c app s selector services selects lists) h
