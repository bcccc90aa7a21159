-- ===== src/App/Checks.antt =====
-- Whether a service can take an app: the checks of controllers/brokerapp_controller.go against the
-- cluster. The app that is reconciled is `instance`.
pub mod Memory
pub mod Clash
pub mod AddressRefs
use activemq_artemis_operato.Base.{
  ℕ, String, Bool, true, false, not, ◌&&◌, ◌||◌, Option, none, some, List, [], ◌∷◌, ◌==◌, is_empty,
  concat, has, any, keep, find_first, ℤ, pos, ◌+ℤ◌, ◌-ℤ◌, ltb_ℤ, max_int64, if◌then◌else◌,
}
use activemq_artemis_operato.Errors.{
  Error, plain, error_text, Result, ok, err, ◌or_else◌, list_error,
}
use activemq_artemis_operato.Api.{
  Quantity, AddressType, AddressRef, AppCapabilityType, BrokerServiceBindingStatus, binding_key,
  BrokerApp, BrokerService, RejectedApp,
}
use activemq_artemis_operato.Cluster.{Cluster}
use activemq_artemis_operato.Ports.{same_app}
use activemq_artemis_operato.App.Address.{collect_owned_addresses, is_multicast_address}

unfoldable pub service_key : BrokerService → String
service_key service = concat (service.namespace ∷ ":" ∷ service.name ∷ [])

-- `namespace/name`, as the messages have it.
abbrev pub slash : String → String → String
slash namespace name = concat (namespace ∷ "/" ∷ name ∷ [])

-- The calls of `appselector.Matches`, with the error that this controller makes of its.
abbrev as_match : BrokerService → Result Bool → Result Bool
as_match service (ok b) = ok b
as_match service (err e) = err (
    plain (
      concat (
        "failed to evaluate appSelectorExpression on service "
        ∷ slash service.namespace service.name
        ∷ ": "
        ∷ error_text e
        ∷ [])))

unfoldable pub matches_service_selector : Cluster → BrokerApp → BrokerService → Result Bool
matches_service_selector k instance service = as_match service (k.app_matches instance service)

abbrev others : BrokerApp → Result (List BrokerApp) → Result (List BrokerApp)
others instance (ok apps) = ok (keep (λ app. not (same_app app instance)) apps)
others instance (err e) = err e

unfoldable pub list_other_apps_for_service :
    Cluster → BrokerApp → BrokerService → Result (List BrokerApp)
list_other_apps_for_service k instance service =
    others instance (k.list_bound_apps (service_key service))

-- `Memory()` of a list of resources is nil or has a value.
abbrev add_request : ℤ → Option Quantity → ℤ
add_request used none = used
add_request used (some q) = used +ℤ q.value

unfoldable pub used_memory : List BrokerApp → ℤ → ℤ
used_memory [] used = used
used_memory (app ∷ apps) used =
    used_memory apps (add_request used app.spec.resources.requests_memory)

unfoldable pub clamp : ℤ → ℤ
clamp available = if ltb_ℤ available (pos 0) then pos 0 else available

abbrev available_of : ℤ → Result (List BrokerApp) → Result ℤ
available_of total (ok apps) = ok (clamp (total -ℤ used_memory apps (pos 0)))
available_of total (err e) = err e

-- `serviceMemory == nil || serviceMemory.IsZero()`.
abbrev pub is_unlimited : Option Quantity → Bool
is_unlimited none = true
is_unlimited (some q) = not (ltb_ℤ q.value (pos 0)) && not (ltb_ℤ (pos 0) q.value)

abbrev total_memory : Option Quantity → ℤ
total_memory none = pos 0
total_memory (some q) = q.value

unfoldable pub get_available_memory : Cluster → BrokerApp → BrokerService → Result ℤ
get_available_memory k instance service =
    if is_unlimited service.spec.resources.limits_memory
    then ok (pos max_int64)
    else available_of (total_memory service.spec.resources.limits_memory)
        (list_other_apps_for_service k instance service)

abbrev clash_message : BrokerApp → String → Error
clash_message other addr = plain (
    concat (
      "address '"
      ∷ addr
      ∷ "' already declared by "
      ∷ slash other.namespace other.name
      ∷ " (use addressRef to share addresses)"
      ∷ []))

-- The inner loop, over the addresses of the instance.
unfoldable pub clash_with : List String → BrokerApp → Option Error
clash_with mine other =
    list_error
      (λ _ addr.
        if has addr (collect_owned_addresses other) then some (clash_message other addr) else none)
      0 mine

abbrev clashes_of : List String → Result (List BrokerApp) → Option Error
clashes_of mine (ok apps) = list_error (λ _. clash_with mine) 0 apps
clashes_of mine (err e) =
    some (plain (concat ("failed to list apps for clash detection: " ∷ error_text e ∷ [])))

unfoldable pub check_address_clash_on_service : Cluster → BrokerApp → BrokerService → Option Error
check_address_clash_on_service k instance service =
    let mine = collect_owned_addresses instance in
    if is_empty mine then none else clashes_of mine (list_other_apps_for_service k instance service)

-- The messages on a referenced app.
abbrev about : AddressRef → List String → Error
about ref message =
    plain (concat ("referenced app " ∷ slash ref.app_namespace ref.app_name ∷ message))

-- The first shared address with the referenced name, and the routing types of both sides.
unfoldable pub sharing_error : AddressRef → Option AddressType → Option Error
sharing_error ref none =
    some (
      about ref
        (" does not share address '" ∷ ref.address ∷ "' (add to spec.sharedAddresses)" ∷ []))
sharing_error ref (some shared) =
    let owner_is_multicast = is_multicast_address shared.pub_sub shared.subscriptions in
    let current_is_multicast = is_multicast_address ref.pub_sub ref.subscriptions in
    if current_is_multicast && not owner_is_multicast
    then some (
        about ref (
          " declares address '" ∷ ref.address
          ∷ "' without pubSub, but this app uses it with pubSub. Shared addresses must use consistent semantics across all apps"
          ∷ []))
    else if not current_is_multicast && owner_is_multicast
    then some (
        about ref (
          " declares address '" ∷ ref.address
          ∷ "' with pubSub, but this app references it without pubSub. Shared addresses must use consistent semantics across all apps"
          ∷ []))
    else none

-- The message where the referenced app stands on another service.
abbrev elsewhere :
    Cluster → AddressRef → BrokerServiceBindingStatus → BrokerService → Result BrokerService → Error
elsewhere k ref bound service (ok found) = about ref (
    " is provisioned on different service "
    ∷ binding_key bound
    ∷ " (this app would bind to: "
    ∷ service_key service
    ∷ ")"
    ∷ [])
elsewhere k ref bound service (err e) =
    if k.is_not_found e
    then about ref
        (" was provisioned on service " ∷ binding_key bound ∷ " which no longer exists" ∷ [])
    else plain (
        concat (
          "failed to lookup service "
          ∷ binding_key bound
          ∷ " for referenced app "
          ∷ slash ref.app_namespace ref.app_name
          ∷ ": "
          ∷ error_text e
          ∷ []))

unfoldable pub placement_error :
    Cluster
    → AddressRef
    → BrokerService
    → BrokerApp
    → Option BrokerServiceBindingStatus
    → Option Error
placement_error k ref service referenced none =
    some (about ref (" not yet provisioned on any service" ∷ []))
placement_error k ref service referenced (some bound) =
    if binding_key bound == service_key service
    then sharing_error ref (
        find_first (λ (t : AddressType). t.address == ref.address) referenced.spec.shared_addresses)
    else some (elsewhere k ref bound service (k.get_service bound.namespace bound.name))

unfoldable pub dependency_error :
    Cluster → AddressRef → BrokerService → Result BrokerApp → Option Error
dependency_error k ref service (ok referenced) =
    placement_error k ref service referenced referenced.status.service
dependency_error k ref service (err e) = some (
    if k.is_not_found e
    then about ref (" not found" ∷ [])
    else plain (
        concat (
          "failed to lookup referenced app "
          ∷ slash ref.app_namespace ref.app_name
          ∷ ": "
          ∷ error_text e
          ∷ [])))

-- `addressRef.AppNamespace == "" || addressRef.AppName == ""`.
abbrev pub lacks_app : AddressRef → Bool
lacks_app ref = ref.app_namespace == "" || ref.app_name == ""

unfoldable pub address_ref_error : Cluster → BrokerService → AddressRef → Option Error
address_ref_error k service ref =
    if lacks_app ref
    then none
    else dependency_error k ref service (k.get_app ref.app_namespace ref.app_name)

unfoldable pub capability_ref_error : Cluster → BrokerService → AppCapabilityType → Option Error
capability_ref_error k service c =
    list_error (λ _. address_ref_error k service) 0 c.producer_of
    or_else list_error (λ _. address_ref_error k service) 0 c.consumer_of

unfoldable pub check_address_ref_capacity : Cluster → BrokerApp → BrokerService → Option Error
check_address_ref_capacity k instance service =
    list_error (λ _. capability_ref_error k service) 0 instance.spec.capabilities

unfoldable pub is_app_rejected_by_service : BrokerApp → BrokerService → Bool
is_app_rejected_by_service instance service =
    any (λ (r : RejectedApp). slash r.namespace r.name == slash instance.namespace instance.name)
      service.status.rejected_apps
