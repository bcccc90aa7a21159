-- ===== src/Examples/Services.antt =====
-- The checks of a service, and the choice of one, on examples.
use activemq_artemis_operato.Base.{
  leb, if◌then◌else◌, ◌+◌, ◌-◌, ◌≡◌, refl, arith, true, none, some, [], ◌∷◌, ◌↔◌, All, pos, ◌≤ℤ◌,
  IsInt64, ◌+ℤ◌, ◌-ℤ◌, max_int64, two_to_64, has, add, contains, before,
}
use activemq_artemis_operato.Errors.{list_error, Error, ok, err}
use activemq_artemis_operato.Api.{binding_key, BrokerApp}
use activemq_artemis_operato.Cluster.{Cluster}
use activemq_artemis_operato.App.Checks.{
  service_key, used_memory, clamp, capability_ref_error, address_ref_error, dependency_error,
  placement_error, sharing_error, matches_service_selector, clash_with, list_other_apps_for_service,
  get_available_memory, check_address_clash_on_service, check_address_ref_capacity,
}
use activemq_artemis_operato.Ports.{
  same_app, has_port, assign_from, assign_next_available_port, collect_used_ports, collect_from,
  add_assigned, is_excluded,
}
use activemq_artemis_operato.App.Address.{
  is_multicast_address, collect_owned_addresses, extract_base_address, add_address_types,
  add_local_refs, add_capabilities,
}
use activemq_artemis_operato.App.Checks.Memory.{
  get_available_memory-nonneg, get_available_memory_exact, get_available_memory_wraps,
}
use activemq_artemis_operato.App.Checks.Clash.{OwnsApart, check_address_clash_on_service_iff}
use activemq_artemis_operato.App.Checks.AddressRefs.{
  CapabilitySatisfied, check_address_ref_capacity_sound,
}
use activemq_artemis_operato.App.Capacity.{ServiceRejection, selector}
use activemq_artemis_operato.App.Find.{
  consider, search_services, chosen, find_service_with_capacity,
}
use activemq_artemis_operato.App.Find.Eligible.{Offers, try_service_iff}
use activemq_artemis_operato.App.Find.Choice.{
  BestOffer, NoOffer, find_service_with_capacity_best, find_service_with_capacity_fails_iff,
}
use activemq_artemis_operato.Examples.{
  catalog, orders, broker, shop, cluster_with, front_ops, mebibytes, app_with,
}

others_listed : list_other_apps_for_service shop orders broker ≡ ok (catalog ∷ [])
unfolding list_other_apps_for_service service_key same_app
others_listed = refl

ninety_left : get_available_memory shop orders broker ≡ ok (pos 90)
unfolding get_available_memory list_other_apps_for_service service_key same_app used_memory clamp
    ◌-ℤ◌ ◌+ℤ◌
ninety_left = refl

get_available_memory-nonneg_example : (pos 0 ≤ℤ pos 90) × IsInt64 (pos 90)
get_available_memory-nonneg_example = get_available_memory-nonneg shop orders broker ninety_left

get_available_memory_exact_example : get_available_memory shop orders broker ≡ ok (pos 90)
get_available_memory_exact_example =
    get_available_memory_exact shop orders broker (catalog ∷ []) 99 (mebibytes 100) refl refl
      (omega arith) others_listed (refl, tt) (omega arith)

abbrev greedy : BrokerApp
greedy = app_with "greedy" [] [] [] (some (mebibytes max_int64)) none

abbrev hungry : BrokerApp
hungry = app_with "hungry" [] [] [] (some (mebibytes max_int64)) none

abbrev crowded : Cluster
crowded = cluster_with (greedy ∷ hungry ∷ []) (broker ∷ [])

both_listed : list_other_apps_for_service crowded orders broker ≡ ok (greedy ∷ hungry ∷ [])
unfolding list_other_apps_for_service service_key same_app
both_listed = refl

get_available_memory_wraps_example :
    get_available_memory crowded orders broker
    ≡ ok (
        let wrapped = 100 + (two_to_64 - (max_int64 + (max_int64 + 0))) in
        if leb wrapped max_int64 then pos wrapped else pos 0)
get_available_memory_wraps_example =
    get_available_memory_wraps crowded orders broker (greedy ∷ hungry ∷ []) 99 (mebibytes 100) refl
      refl (omega arith) both_listed ((refl, omega arith), ((refl, omega arith), tt)) (omega arith)
      (omega arith)

check_address_clash_on_service_iff_example :
    (check_address_clash_on_service shop orders broker ≡ none)
    ↔ All (OwnsApart orders) (catalog ∷ [])
check_address_clash_on_service_iff_example =
    check_address_clash_on_service_iff shop orders broker (catalog ∷ []) others_listed

pub refs_met : check_address_ref_capacity shop orders broker ≡ none
unfolding check_address_ref_capacity list_error capability_ref_error address_ref_error
    dependency_error placement_error binding_key service_key sharing_error is_multicast_address
refs_met = refl

check_address_ref_capacity_sound_example :
    All (CapabilitySatisfied shop broker) orders.spec.capabilities
check_address_ref_capacity_sound_example =
    check_address_ref_capacity_sound shop orders broker refs_met

abbrev unselected : ServiceRejection
unselected = record { service_name = "broker"; category = selector; message = "m" }

no_clash : check_address_clash_on_service shop orders broker ≡ none
unfolding check_address_clash_on_service list_other_apps_for_service service_key same_app clash_with
    list_error collect_owned_addresses extract_base_address add_address_types add_local_refs
    add_capabilities has add contains before
no_clash = refl

second_port :
    assign_next_available_port (collect_used_ports (catalog ∷ []) (some orders)) ≡ ok 61617
unfolding assign_next_available_port assign_from has_port collect_used_ports collect_from
    add_assigned is_excluded same_app
second_port = refl

orders_selected : matches_service_selector shop orders broker ≡ ok true
unfolding matches_service_selector
orders_selected = refl

-- What the service offers the second app.
pub broker-Offers : Offers shop front_ops orders broker (pos 90) 61617
broker-Offers = record {
  deployed = refl;
  selected = orders_selected;
  satisfied = refs_met;
  apart = no_clash;
  memory = ninety_left;
  fits = refl;
  apps = catalog ∷ [];
  listed = others_listed;
  free = second_port;
}

pub broker_found :
    find_service_with_capacity shop front_ops orders (broker ∷ []) ≡ ok (broker, 61617)
unfolding find_service_with_capacity search_services consider chosen
broker_found =
    let passes = (try_service_iff shop front_ops orders broker (pos 90) 61617).1 broker-Offers in
    rw passes refl

find_service_with_capacity_best_example : BestOffer shop front_ops orders (broker ∷ []) broker 61617
find_service_with_capacity_best_example =
    find_service_with_capacity_best shop front_ops orders (broker ∷ []) broker 61617 broker_found

find_service_with_capacity_fails_iff_example :
    ((e : Error) × (find_service_with_capacity shop front_ops orders (broker ∷ []) ≡ err e))
    ↔ All (NoOffer shop front_ops orders) (broker ∷ [])
find_service_with_capacity_fails_iff_example =
    find_service_with_capacity_fails_iff shop front_ops orders (broker ∷ [])
