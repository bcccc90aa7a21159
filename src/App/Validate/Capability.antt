-- ===== src/App/Validate/Capability.antt =====
-- The loop of `verifyCapabilityAddressType` over the capabilities
-- (controllers/brokerapp_controller.go): one function for each of its inner loops.
use activemq_artemis_operato.Base.{
  ℕ, String, Bool, true, false, not, ◌&&◌, Option, none, some, List, [], ◌∷◌, ◌==◌, is_empty,
  concat, decimal, contains, lookup, insert, if◌then◌else◌,
}
use activemq_artemis_operato.Errors.{Error, plain, ◌or_else◌, list_error, Result, ok, err}
use activemq_artemis_operato.Api.{AddressRef, AppCapabilityType}
use activemq_artemis_operato.App.Address.{
  fqqn_separator, is_multicast_address, is_local, is_disabled,
}

abbrev at_ref : String → ℕ → String → Option Error
at_ref field index message =
    some (plain (concat ("Spec.Capability." ∷ field ∷ "[" ∷ decimal index ∷ "]" ∷ message ∷ [])))

-- `(AppNamespace != "") != (AppName != "")`.
abbrev pub half_reference : AddressRef → Bool
half_reference ref =
    if ref.app_namespace == "" then not (ref.app_name == "") else ref.app_name == ""

-- The checks that the loops over `ProducerOf` and `ConsumerOf` have in common.
unfoldable pub ref_error : String → ℕ → AddressRef → Option Error
ref_error field index ref =
    if ref.address == ""
    then at_ref field index ".address must be specified"
    else if contains ref.address fqqn_separator
    then at_ref field index ".address should not use FQQN format (no '::'). Use plain address name"
    else if half_reference ref
    then at_ref field index
        ": appNamespace and appName must both be set (for cross-app reference) or both empty (for local reference)"
    else if is_disabled ref.pub_sub && not (is_empty ref.subscriptions)
    then at_ref field index ": pubSub cannot be false when subscriptions are specified"
    else none

unfoldable pub producer_error : ℕ → AddressRef → Option Error
producer_error index ref =
    ref_error "ProducerOf" index ref
    or_else (if is_multicast_address ref.pub_sub ref.subscriptions
          && not (is_empty ref.subscriptions)
        then at_ref "ProducerOf" index
            ": subscriptions cannot contain queue names (producers don't create queues). Use empty array or omit"
        else none)

unfoldable pub subscription_error : ℕ → ℕ → String → Option Error
subscription_error index sub_idx queue_name =
    let here = concat (".subscriptions[" ∷ decimal sub_idx ∷ "]: queue name " ∷ []) in
    if queue_name == ""
    then at_ref "ConsumerOf" index (concat (here ∷ "cannot be empty" ∷ []))
    else if contains queue_name fqqn_separator
    then at_ref "ConsumerOf" index (concat (here ∷ "should not use FQQN format (no '::')" ∷ []))
    else none

unfoldable pub consumer_error : ℕ → AddressRef → Option Error
consumer_error index ref =
    ref_error "ConsumerOf" index ref
    or_else (if is_multicast_address ref.pub_sub ref.subscriptions
        then (if is_empty ref.subscriptions
            then at_ref "ConsumerOf" index
                ": pubSub consumers must specify at least one subscription queue name"
            else list_error (subscription_error index) 0 ref.subscriptions)
        else none)

abbrev mixed_semantics : String → Error
mixed_semantics address = plain (
    concat (
      "address '" ∷ address
      ∷ "' is referenced with both pubSub and non pubSub semantics in the same capability. Shared addresses must use consistent semantics"
      ∷ []))

-- `prevType, exists := addressRoutingTypes[address]` and the test on it.
abbrev pub conflicts : Option Bool → Bool → Bool
conflicts none is_multicast = false
conflicts (some true) is_multicast = not is_multicast
conflicts (some false) is_multicast = is_multicast

-- `addressRoutingTypes` after the local producers; one that is not multicast leaves the type open.
unfoldable pub producer_routing :
    List AddressRef → List (String × Bool) → Result (List (String × Bool))
producer_routing [] types = ok types
producer_routing (ref ∷ refs) types =
    let marked = producer_routing refs (insert ref.address true types) in
    let skipped = producer_routing refs types in
    if is_local ref && is_multicast_address ref.pub_sub ref.subscriptions
    then (if conflicts (lookup ref.address types) true
        then err (mixed_semantics ref.address)
        else marked)
    else skipped

unfoldable pub consumer_routing :
    List AddressRef → List (String × Bool) → Result (List (String × Bool))
consumer_routing [] types = ok types
consumer_routing (ref ∷ refs) types =
    let is_multicast = is_multicast_address ref.pub_sub ref.subscriptions in
    let marked = consumer_routing refs (insert ref.address is_multicast types) in
    let skipped = consumer_routing refs types in
    if is_local ref
    then (if conflicts (lookup ref.address types) is_multicast
        then err (mixed_semantics ref.address)
        else marked)
    else skipped

abbrev pub error_of {ℓ} : {A : Type ℓ} → Result A → Option Error
error_of (ok a) = none
error_of (err e) = some e

abbrev pub then_consumers :
    List AddressRef → Result (List (String × Bool)) → Result (List (String × Bool))
then_consumers refs (ok types) = consumer_routing refs types
then_consumers refs (err e) = err e

unfoldable pub routing_error : AppCapabilityType → Option Error
routing_error c = error_of (then_consumers c.consumer_of (producer_routing c.producer_of []))

-- One round of the outer loop.
unfoldable pub capability_error : AppCapabilityType → Option Error
capability_error c =
    list_error producer_error 0 c.producer_of
    or_else list_error consumer_error 0 c.consumer_of
    or_else routing_error c
