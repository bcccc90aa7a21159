-- ===== src/Examples/Conditions.antt =====
-- The conditions of an app and the watches, on examples.
use activemq_artemis_operato.Base.{
  String, ◌≡◌, ◌≢◌, ◌↔◌, Memᴰ, ◌∷◌, sym, ap, ◌∙◌, true, false≢true, is_none, refl, false, ◌&&◌,
  if◌then◌else◌, none, some, [], ◌==◌,
}
use activemq_artemis_operato.Errors.{Result, err, plain, list_error}
use activemq_artemis_operato.Api.{BrokerApp, ready_condition_type}
use activemq_artemis_operato.App.Checks.{
  check_address_ref_capacity, capability_ref_error, address_ref_error, dependency_error,
}
use activemq_artemis_operato.Ports.{same_app}
use activemq_artemis_operato.Examples.Services.{refs_met}
use activemq_artemis_operato.App.Resolve.{Progress}
use activemq_artemis_operato.App.Status.{is_provisioned, holds_at, process_status}
use activemq_artemis_operato.App.Status.Ready.{is_success, is_deployed, process_status-ready}
use activemq_artemis_operato.App.Status.Identity.{is_provisioned_collides}
use activemq_artemis_operato.App.Watch.{
  request_of, enqueue_apps_for_referenced_app, should_propagate_watch_for_referenced_app,
}
use activemq_artemis_operato.App.Watch.Complete.{
  AgreesApartFrom, enqueue_apps_for_referenced_app_complete,
}
use activemq_artemis_operato.Examples.{
  app_with, catalog, orders, bound_orders, broker, shop, front_ops,
}

-- The app after its service was found.
abbrev found : Progress
found = record { status = bound_orders.status; service = some broker }

process_status-ready_example :
    holds_at 2 (
      front_ops.find_status_condition
        (process_status front_ops orders found none).conditions
        ready_condition_type)
    ≡ (is_success front_ops orders none
        && is_deployed front_ops orders found.status.service found.service)
process_status-ready_example = process_status-ready front_ops orders found none

-- The app that `orders` refers to is gone.
abbrev gone : String → String → Result BrokerApp
gone namespace name =
    if namespace == "shop" && name == "catalog"
    then err (plain "not found")
    else shop.get_app namespace name

read_alike : AgreesApartFrom shop gone (request_of catalog)
unfolding request_of
read_alike namespace name h = rw h refl

orders_listed : Memᴰ orders (catalog ∷ orders ∷ [])
orders_listed = Memᴰ.tail (Memᴰ.head refl)

is_other : same_app orders catalog ≡ false
unfolding same_app
is_other = refl

not_found :
    is_none (check_address_ref_capacity (record shop { get_app = gone }) orders broker) ≡ false
unfolding check_address_ref_capacity list_error capability_ref_error address_ref_error
    dependency_error
not_found = refl

differs :
    check_address_ref_capacity shop orders broker
    ≢ check_address_ref_capacity (record shop { get_app = gone }) orders broker
differs h = false≢true (sym not_found ∙ ap is_none (sym h ∙ refs_met))

enqueue_apps_for_referenced_app_complete_example :
    Memᴰ (request_of orders) (enqueue_apps_for_referenced_app shop front_ops catalog)
    ↔ (should_propagate_watch_for_referenced_app front_ops catalog ≡ true)
enqueue_apps_for_referenced_app_complete_example =
    enqueue_apps_for_referenced_app_complete shop front_ops gone catalog orders
      (catalog ∷ orders ∷ []) broker refl read_alike orders_listed is_other differs

-- An app of the namespace `shop`, and one of the namespace `shop-eu`.
abbrev eu_orders : BrokerApp
eu_orders = app_with "eu-orders" [] [] [] none none

abbrev orders_of_eu : BrokerApp
orders_of_eu = record orders { metadata = record orders.metadata { namespace = "shop-eu" } }

is_provisioned_collides_example :
    is_provisioned eu_orders broker ≡ is_provisioned orders_of_eu broker
is_provisioned_collides_example =
    is_provisioned_collides "shop" "eu" "orders" eu_orders orders_of_eu broker refl refl refl refl
