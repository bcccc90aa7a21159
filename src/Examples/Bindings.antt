-- ===== src/Examples/Bindings.antt =====
-- The binding of an app to a service, on examples.
use activemq_artemis_operato.Base.{
  ◌≡◌, refl, sym, ◌∙◌, arith, Memᴰ, All-Memᴰ, false, none, some, List, [], ◌∷◌,
}
use activemq_artemis_operato.Errors.{Error, plain, ok, err, error_text, validation_error}
use activemq_artemis_operato.Api.{BrokerApp, BrokerService, spec_selector_error}
use activemq_artemis_operato.Cluster.{Cluster}
use activemq_artemis_operato.App.Checks.{list_other_apps_for_service, is_app_rejected_by_service}
use activemq_artemis_operato.App.Resolve.{
  Progress, resolve_broker_service, resolve_with, resolve_in, bind, check_binding, assign,
}
use activemq_artemis_operato.App.Resolve.Settled.{
  AreNamed, IsAccepted, resolve_broker_service_settles,
}
use activemq_artemis_operato.App.Resolve.Assign.{
  Resolved, binding_of, resolve_broker_service-Resolved,
}
use activemq_artemis_operato.App.Resolve.Port.{FreePort, find_service_with_capacity_port}
use activemq_artemis_operato.Examples.{orders, broker, shop, front_ops}
use activemq_artemis_operato.Examples.Services.{broker_found}

abbrev unbound : Progress
unbound = record { status = orders.status; service = none }

accepted : is_app_rejected_by_service orders broker ≡ false
unfolding is_app_rejected_by_service
accepted = refl

abbrev settled : Progress
settled = record {
  status = record unbound.status { service = some (binding_of orders broker 61617) };
  service = some broker;
}

-- The app is placed on the service.
unbound-settled : resolve_broker_service shop front_ops orders unbound ≡ (settled, none)
unfolding resolve_broker_service resolve_with resolve_in bind check_binding assign
unbound-settled = rw broker_found refl

one-AreNamed : AreNamed (broker ∷ [])
one-AreNamed x y i j m n = only x i ∙ sym (only y j)
  where
    only : (z : BrokerService) → Memᴰ z (broker ∷ []) → z ≡ broker
    only z k = All-Memᴰ (λ z. z ≡ broker) z {xs = broker ∷ []} k (refl, tt)

settled-IsAccepted : IsAccepted orders settled
settled-IsAccepted service e =
    let same : broker ≡ service = ground (arith, e) in rw (← same) accepted

resolve_broker_service_settles_example :
    resolve_broker_service shop front_ops orders settled ≡ (settled, none)
resolve_broker_service_settles_example =
    resolve_broker_service_settles shop front_ops orders "all" (broker ∷ []) unbound settled refl
      refl one-AreNamed settled-IsAccepted unbound-settled

resolve_broker_service-Resolved_example :
    Resolved shop front_ops orders unbound
      (broker ∷ [])
      (resolve_broker_service shop front_ops orders unbound)
resolve_broker_service-Resolved_example =
    resolve_broker_service-Resolved shop front_ops orders unbound "all" (broker ∷ []) refl refl

-- A cluster where the selector of an app cannot be read.
abbrev unreadable : Cluster
unreadable = record shop { label_selector_as_selector = λ _. err (plain "bad operator") }

abbrev unreadable_error : Error
unreadable_error =
    validation_error spec_selector_error "failed to evaluate Spec.Selector: bad operator"

selector_fails :
    resolve_broker_service unreadable front_ops orders unbound ≡ (unbound, some unreadable_error)
unfolding resolve_broker_service resolve_with error_text
selector_fails = refl

find_service_with_capacity_port_example :
    (apps : List BrokerApp) × (list_other_apps_for_service shop orders broker ≡ ok apps)
    × FreePort orders apps 61617
find_service_with_capacity_port_example =
    find_service_with_capacity_port shop front_ops orders (broker ∷ []) broker 61617 broker_found
