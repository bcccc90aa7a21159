-- ===== src/App/Resolve/Keep.antt =====
-- Which bindings `resolveBrokerService` keeps.
use activemq_artemis_operato.Base.{
  String, ◌≡◌, refl, Bool, true, false, Option, none, some, List, ◌↔◌, is_none, find_first, arith,
}
use activemq_artemis_operato.Errors.{Result, ok, err}
use activemq_artemis_operato.Api.{BrokerServiceBindingStatus, BrokerApp, BrokerService}
use activemq_artemis_operato.Cluster.{Cluster, ConditionOps}
use activemq_artemis_operato.App.Checks.{
  matches_service_selector, check_address_clash_on_service, check_address_ref_capacity,
  is_app_rejected_by_service,
}
use activemq_artemis_operato.App.Resolve.{
  Progress, is_bound_to, is_match, is_still_valid, check_bound, check_binding, bind, resolve_in,
  resolve_with, resolve_broker_service,
}

-- The service has not rejected the app, still selects it, and still meets its references and
-- addresses.
pub record StillValid (k : Cluster) (app : BrokerApp) (service : BrokerService) : Type 0 where
  pub accepted : is_app_rejected_by_service app service ≡ false
  pub selected : matches_service_selector k app service ≡ ok true
  pub satisfied : check_address_ref_capacity k app service ≡ none
  pub apart : check_address_clash_on_service k app service ≡ none

is_match-true : (r : Result Bool) → is_match r ≡ true → r ≡ ok true
is_match-true (ok true) h = refl
is_match-true (ok false) h = cc
is_match-true (err e) h = cc

is_none-true {ℓ} : {A : Type ℓ} (o : Option A) → is_none o ≡ true → o ≡ none
is_none-true none h = refl
is_none-true (some a) h = cc

pub is_still_valid_iff :
    (k : Cluster) (app : BrokerApp) (service : BrokerService)
    → (is_still_valid k app service ≡ true) ↔ StillValid k app service
unfolding is_still_valid
is_still_valid_iff k app service = (
  λ h. record {
    accepted = ground arith;
    selected = is_match-true _ (ground arith);
    satisfied = is_none-true _ (ground arith);
    apart = is_none-true _ (ground arith);
  },
  λ v. rw (v.accepted, v.selected, v.satisfied, v.apart) refl,
)

-- A binding to a listed service that is still valid is kept: the status is as it was, with its
-- service and its port, and the service is the one found.
pub resolve_broker_service_keeps :
    (k : Cluster) (c : ConditionOps) (app : BrokerApp) (s : Progress) (selector : String)
    (services : List BrokerService) (bound : BrokerServiceBindingStatus) (service : BrokerService)
    → k.label_selector_as_selector app.spec.service_selector ≡ ok selector
    → k.list_services selector ≡ ok services
    → s.status.service ≡ some bound
    → find_first (is_bound_to bound) services ≡ some service
    → StillValid k app service
    → resolve_broker_service k c app s
      ≡ (record { status = s.status; service = some service }, none)
unfolding resolve_broker_service resolve_with resolve_in bind check_binding check_bound
resolve_broker_service_keeps k c app s selector services bound service selects lists binding found
      valid =
    let v = (is_still_valid_iff k app service).1 valid in
    rw (selects, lists, binding, found, v) refl
