-- ===== src/App/Resolve/Assign.antt =====
-- Which service a reconcile leaves an app bound to.
use activemq_artemis_operato.Base.{
  concat, ℕ, String, ◌≡◌, refl, sym, ap, true, Option, none, some, List, [], ◌∷◌, ◌⊎◌, inl, inr,
  find_first, Bool-cases, All,
}
use activemq_artemis_operato.Errors.{Error, transient_error, Result, ok, err, is_transient}
use activemq_artemis_operato.Api.{
  no_matching_service_reason, BrokerServiceBindingStatus, BrokerApp, BrokerService,
}
use activemq_artemis_operato.Cluster.{Cluster, ConditionOps}
use activemq_artemis_operato.App.Find.{find_service_with_capacity}
use activemq_artemis_operato.App.Find.Choice.{
  BestOffer, NoOffer, find_service_with_capacity_best, find_service_with_capacity_fails_iff,
}
use activemq_artemis_operato.App.Resolve.{
  Progress, Outcome, is_bound_to, is_still_valid, check_bound, check_binding, assign, bind,
  resolve_in, resolve_with, resolve_broker_service, bindings_secret_name, as_capacity_error,
}
use activemq_artemis_operato.App.Resolve.Keep.{StillValid, is_still_valid_iff}

-- The binding to a service at a port.
abbrev pub binding_of : BrokerApp → BrokerService → ℕ → BrokerServiceBindingStatus
binding_of app service port = record {
  name = service.name;
  namespace = service.namespace;
  secret = bindings_secret_name app.name;
  assigned_port = port;
}

abbrev unmatched_error : String → Error
unmatched_error selector =
    transient_error no_matching_service_reason
      (concat ("no matching services available for selector " ∷ selector ∷ []))

module _ (k : Cluster) (c : ConditionOps) (app : BrokerApp) (s : Progress) where
  -- The app's binding is to a listed service that is not valid any more.
  pub record IsStale (services : List BrokerService) : Type 0 where
    pub bound : BrokerServiceBindingStatus
    pub service : BrokerService
    pub binding : s.status.service ≡ some bound
    pub found : find_first (is_bound_to bound) services ≡ some service
    pub invalid : ¬ StillValid k app service

  -- The ways in which an outcome comes about where the services are listed.
  pub data Resolved (services : List BrokerService) (o : Outcome) : Type 0 where
    kept :
        (bound : BrokerServiceBindingStatus) (service : BrokerService)
        → s.status.service ≡ some bound
        → find_first (is_bound_to bound) services ≡ some service
        → StillValid k app service
        → o ≡ (record { status = s.status; service = some service }, none)
        → Resolved services o
    left_alone :
        (bound : BrokerServiceBindingStatus)
        → s.status.service ≡ some bound
        → services ≡ []
        → o ≡ (record { status = s.status; service = none }, none)
        → Resolved services o
    placed :
        (service : BrokerService) (port : ℕ)
        → BestOffer k c app services service port
        → o ≡ (
          record {
            status = record s.status { service = some (binding_of app service port) };
            service = some service;
          },
          none,
        )
        → Resolved services o
    unmatched :
        (e : Error)
        → s.status.service ≡ none
        → services ≡ []
        → is_transient e ≡ true
        → o ≡ (s, some e)
        → Resolved services o
    failed :
        (e : Error)
        → All (NoOffer k c app) services
        → is_transient e ≡ true
        → o ≡ (record { status = s.status; service = none }, some e)
        → Resolved services o
    evicted :
        (e : Error)
        → IsStale services
        → All (NoOffer k c app) services
        → is_transient e ≡ true
        → o ≡ (record { status = record s.status { service = none }; service = none }, some e)
        → Resolved services o

  as_capacity_error-transient :
      (selector : String) (e : Error) → is_transient (as_capacity_error selector e) ≡ true
  unfolding as_capacity_error
  as_capacity_error-transient selector e = elim (Bool-cases (is_transient e)) [
    | inl h ↦ rw h h
    | inr h ↦ rw h refl
  ]

  -- The binding that an assignment starts from.
  Before : List BrokerService → Option BrokerServiceBindingStatus → Type 0
  Before services bound = (bound ≡ s.status.service) ⊎ ((bound ≡ none) × IsStale services)

  assign-Resolved :
      (services : List BrokerService) (selector : String)
      (bound : Option BrokerServiceBindingStatus) (r : Result (BrokerService × ℕ))
      → find_service_with_capacity k c app services ≡ r
      → Before services bound
      → Resolved services (assign app selector s.status bound r)
  unfolding assign Before
  assign-Resolved services selector bound (ok (service, port)) e before =
      placed service port (find_service_with_capacity_best k c app services service port e) refl
  assign-Resolved services selector bound (err e) h before =
      let none_offers = (find_service_with_capacity_fails_iff k c app services).0 (e, h) in
      let transient = as_capacity_error-transient selector e in
      elim before [
        | inl same ↦ failed _ none_offers transient (rw same refl)
        | inr (gone, stale) ↦ evicted _ stale none_offers transient (rw gone refl)
      ]

  stale-Resolved :
      (services : List BrokerService) (selector : String)
      → IsStale services
      → Resolved services (
          bind k c app selector services s
            (record { bound = none; service = none; needs_assignment = true }))
  unfolding bind Before
  stale-Resolved [] selector stale = let h = stale.found in cc
  stale-Resolved (x ∷ services) selector stale =
      assign-Resolved (x ∷ services) selector none _ refl (inr (refl, stale))

  check_bound-Resolved :
      (services : List BrokerService) (selector : String) (bound : BrokerServiceBindingStatus)
      (found : Option BrokerService)
      → s.status.service ≡ some bound
      → find_first (is_bound_to bound) services ≡ found
      → Resolved services
          (bind k c app selector services s (check_bound k app bound services found))
  unfolding bind check_bound Before
  check_bound-Resolved [] selector bound none e h = left_alone bound e refl (rw e refl)
  check_bound-Resolved (x ∷ services) selector bound none e h =
      assign-Resolved (x ∷ services) selector (some bound) _ refl (inl (sym e))
  check_bound-Resolved services selector bound (some service) e h =
      elim (Bool-cases (is_still_valid k app service)) [
        | inl v ↦ rw v (kept bound service e h ((is_still_valid_iff k app service).0 v) (rw e refl))
        | inr v ↦ rw v (
            stale-Resolved services selector (record {
              bound = bound;
              service = service;
              binding = e;
              found = h;
              invalid = λ valid. let t = (is_still_valid_iff k app service).1 valid in cc;
            }))
      ]

  check_binding-Resolved :
      (services : List BrokerService) (selector : String)
      (bound : Option BrokerServiceBindingStatus)
      → s.status.service ≡ bound
      → Resolved services (bind k c app selector services s (check_binding k app services bound))
  unfolding check_binding bind Before
  check_binding-Resolved services selector (some bound) e =
      check_bound-Resolved services selector bound _ e refl
  check_binding-Resolved [] selector none e = unmatched (unmatched_error selector) e refl refl (
      ap
        (λ b. (
          record { status = record s.status { service = b }; service = s.service },
          some (unmatched_error selector),
        ))
        (sym e))
  check_binding-Resolved (x ∷ services) selector none e =
      assign-Resolved (x ∷ services) selector none _ refl (inl (sym e))

-- Where the services are listed, the outcome comes about in one of six ways: a binding that is still
-- valid is kept; a binding is left alone where no service is listed; the app is placed on the service
-- with the best offer; there is no binding and no service is listed; no service makes an offer and the
-- binding stays; or none makes an offer and the binding to a service that is not valid is removed.
-- The errors of the last three are transient.
pub resolve_broker_service-Resolved :
    (k : Cluster) (c : ConditionOps) (app : BrokerApp) (s : Progress) (selector : String)
    (services : List BrokerService)
    → k.label_selector_as_selector app.spec.service_selector ≡ ok selector
    → k.list_services selector ≡ ok services
    → Resolved k c app s services (resolve_broker_service k c app s)
unfolding resolve_broker_service resolve_with resolve_in
resolve_broker_service-Resolved k c app s selector services selects lists =
    rw (selects, lists) (check_binding-Resolved k c app s services selector s.status.service refl)
