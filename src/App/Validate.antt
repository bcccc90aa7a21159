-- ===== src/App/Validate.antt =====
-- The validation of an app's spec: `validateSpec` and its parts of
-- controllers/brokerapp_controller.go, with the check on resource names of
-- controllers/condition_error.go and pkg/utils/common/common.go. `none` is the nil error.
pub mod Capability
pub mod Refs
pub mod Routing
pub mod Declared
pub mod Spec
pub mod Kind
use activemq_artemis_operato.Base.{
  String, Option, none, some, List, [], ◌∷◌, ◌==◌, ◌||◌, is_empty, concat, contains, has_prefix,
  any, add, has, if◌then◌else◌, Bool, true, false, not, ◌&&◌, lookup, insert,
}
use activemq_artemis_operato.Errors.{
  Error, plain, validation_error, error_text, ◌or_else◌, list_error, Result, ok, err,
}
use activemq_artemis_operato.Api.{
  AddressType, AddressRef, AppCapabilityType, BrokerApp, invalid_resource_name, address_type_error,
}
use activemq_artemis_operato.App.Address.{is_multicast_address, is_local}
use activemq_artemis_operato.App.Validate.Capability.{capability_error}

-- `common.ValidateResourceName`.
unfoldable pub resource_name_error : String → Option Error
resource_name_error name =
    if contains name "/"
    then some (plain (concat ("resource name contains illegal path separator: " ∷ name ∷ [])))
    else if contains name ".."
    then some (plain (concat ("resource name contains parent directory reference: " ∷ name ∷ [])))
    else if has_prefix name "."
    then some (plain (concat ("resource name starts with dot: " ∷ name ∷ [])))
    else none

-- `NewValidationError(reason, "…%v", err)` where `err` is not nil.
abbrev pub as_validation_error : String → String → Option Error → Option Error
as_validation_error reason prefix none = none
as_validation_error reason prefix (some e) =
    some (validation_error reason (concat (prefix ∷ error_text e ∷ [])))

-- `ValidateResourceName` of the controllers.
unfoldable pub validate_resource_name : String → Option Error
validate_resource_name name =
    as_validation_error invalid_resource_name "invalid resource name: " (resource_name_error name)

-- The index of a capability is in no message.
unfoldable pub verify_capability_address_type : BrokerApp → Option Error
verify_capability_address_type app =
    as_validation_error address_type_error ""
      (list_error (λ _. capability_error) 0 app.spec.capabilities)

abbrev overlap : String → Error
overlap address = validation_error address_type_error (
    concat (
      "address '" ∷ address
      ∷ "' appears in both spec.addresses and spec.sharedAddresses (cannot be both private and public)"
      ∷ []))

unfoldable pub private_addresses : List AddressType → List String → List String
private_addresses [] addresses = addresses
private_addresses (addr ∷ addrs) addresses = private_addresses addrs (add addr.address addresses)

unfoldable pub shared_error : List String → AddressType → Option Error
shared_error privates shared_addr =
    if has shared_addr.address privates then some (overlap shared_addr.address) else none

unfoldable pub validate_addresses_disjoint : BrokerApp → Option Error
validate_addresses_disjoint app =
    if is_empty app.spec.addresses || is_empty app.spec.shared_addresses
    then none
    else list_error (λ _. shared_error (private_addresses app.spec.addresses [])) 0
        app.spec.shared_addresses

-- `declaredAddresses`: whether each declared address is multicast, the last declaration first.
unfoldable pub declare : List AddressType → List (String × Bool) → List (String × Bool)
declare [] declared = declared
declare (t ∷ ts) declared =
    declare ts (insert t.address (is_multicast_address t.pub_sub t.subscriptions) declared)

abbrev inconsistent : String → String → String → String → Error
inconsistent address declared_as used_as where_used = validation_error address_type_error (
    concat (
      "address '" ∷ address ∷ "' is declared " ∷ declared_as
      ∷ " pubSub semantics in spec.addresses or spec.sharedAddresses, but is used " ∷ used_as
      ∷ " pubSub semantics in capabilities." ∷ where_used
      ∷ ". Address declaration and usage must have consistent routing semantics" ∷ []))

abbrev usage_error : String → String → Option Bool → Bool → Option Error
usage_error where_used address none usage = none
usage_error where_used address (some true) false =
    some (inconsistent address "with" "without" where_used)
usage_error where_used address (some true) true = none
usage_error where_used address (some false) true =
    some (inconsistent address "without" "with" where_used)
usage_error where_used address (some false) false = none

-- One round of the loops over `ProducerOf` and `ConsumerOf`.
unfoldable pub ref_usage_error : String → List (String × Bool) → AddressRef → Option Error
ref_usage_error where_used declared ref =
    if is_local ref
    then usage_error where_used ref.address (lookup ref.address declared)
        (is_multicast_address ref.pub_sub ref.subscriptions)
    else none

unfoldable pub capability_usage_error : List (String × Bool) → AppCapabilityType → Option Error
capability_usage_error declared c =
    list_error (λ _. ref_usage_error "producerOf" declared) 0 c.producer_of
    or_else list_error (λ _. ref_usage_error "consumerOf" declared) 0 c.consumer_of

unfoldable pub declared_addresses : BrokerApp → List (String × Bool)
declared_addresses app = declare app.spec.shared_addresses (declare app.spec.addresses [])

unfoldable pub validate_address_capability_consistency : BrokerApp → Option Error
validate_address_capability_consistency app =
    if is_empty (declared_addresses app)
    then none
    else list_error (λ _. capability_usage_error (declared_addresses app)) 0 app.spec.capabilities

unfoldable pub validate_spec : BrokerApp → Option Error
validate_spec app =
    validate_resource_name app.name
    or_else verify_capability_address_type app
    or_else validate_addresses_disjoint app
    or_else validate_address_capability_consistency app
