-- ===== src/App/Address.antt =====
-- controllers/brokerapp_controller.go: the routing type of an address, and the addresses that an
-- app owns.
pub mod Base
pub mod Owned
use activemq_artemis_operato.Base.{
  String, Bool, true, false, not, ◌&&◌, ◌||◌, Option, none, some, List, [], ◌∷◌, ◌==◌, is_empty,
  is_true, contains, before, add, if◌then◌else◌,
}
use activemq_artemis_operato.Api.{AddressType, AddressRef, AppCapabilityType, BrokerApp}

abbrev pub fqqn_separator : String
fqqn_separator = "::"

-- `pubSub != nil && !*pubSub`.
abbrev pub is_disabled : Option Bool → Bool
is_disabled none = false
is_disabled (some b) = not b

unfoldable pub is_multicast_address : Option Bool → List String → Bool
is_multicast_address pub_sub subscriptions =
    if is_disabled pub_sub then false else is_true pub_sub || not (is_empty subscriptions)

unfoldable pub extract_base_address : String → String
extract_base_address address =
    if contains address fqqn_separator then before address fqqn_separator else address

-- `addressRef.AppNamespace == "" && addressRef.AppName == ""`.
abbrev pub is_local : AddressRef → Bool
is_local ref = ref.app_namespace == "" && ref.app_name == ""

unfoldable pub add_address_types : List AddressType → List String → List String
add_address_types [] addresses = addresses
add_address_types (t ∷ ts) addresses = add_address_types ts (add t.address addresses)

unfoldable pub add_local_refs : List AddressRef → List String → List String
add_local_refs [] addresses = addresses
add_local_refs (ref ∷ refs) addresses =
    add_local_refs refs
      (if is_local ref then add (extract_base_address ref.address) addresses else addresses)

unfoldable pub add_capabilities : List AppCapabilityType → List String → List String
add_capabilities [] addresses = addresses
add_capabilities (c ∷ cs) addresses =
    add_capabilities cs (add_local_refs c.consumer_of (add_local_refs c.producer_of addresses))

unfoldable pub collect_owned_addresses : BrokerApp → List String
collect_owned_addresses app =
    add_capabilities app.spec.capabilities
      (add_address_types app.spec.shared_addresses (add_address_types app.spec.addresses []))
