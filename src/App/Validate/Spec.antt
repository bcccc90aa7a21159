-- ===== src/App/Validate/Spec.antt =====
-- The specs that `validateSpec` accepts, and the kind of its errors.
use activemq_artemis_operato.Base.{
  ℕ, String, ◌≡◌, false, none, ◌↔◌, arith, All, contains, has_prefix,
}
use activemq_artemis_operato.Errors.{
  ◌or_else◌, list_error, list_error-none, All-list_error, or_else_iff,
}
use activemq_artemis_operato.Api.{AppCapabilityType, BrokerApp}
use activemq_artemis_operato.App.Validate.{
  resource_name_error, validate_resource_name, verify_capability_address_type,
  validate_addresses_disjoint, validate_address_capability_consistency, validate_spec,
}
use activemq_artemis_operato.App.Validate.Capability.{
  producer_error, consumer_error, routing_error, capability_error,
}
use activemq_artemis_operato.App.Validate.Refs.{
  IsProducerRef, IsConsumerRef, producer_error_iff, consumer_error_iff,
}
use activemq_artemis_operato.App.Validate.Routing.{HasRouting, routing_error_iff}
use activemq_artemis_operato.App.Validate.Declared.{
  IsDisjoint, UsesAsDeclared, validate_addresses_disjoint_iff,
  validate_address_capability_consistency_iff,
}

-- A name that is safe in a path.
pub record IsSafeName (name : String) : Type 0 where
  pub no_separator : contains name "/" ≡ false
  pub no_parent : contains name ".." ≡ false
  pub no_dot : has_prefix name "." ≡ false

pub record IsCapability (c : AppCapabilityType) : Type 0 where
  pub producers : All IsProducerRef c.producer_of
  pub consumers : All IsConsumerRef c.consumer_of
  pub routing : HasRouting c

pub record IsValidApp (app : BrokerApp) : Type 0 where
  pub name : IsSafeName app.metadata.name
  pub capabilities : All IsCapability app.spec.capabilities
  pub disjoint : IsDisjoint app
  pub as_declared : All (UsesAsDeclared app) app.spec.capabilities

validate_resource_name_iff :
    (name : String) → (validate_resource_name name ≡ none) ↔ IsSafeName name
unfolding validate_resource_name resource_name_error
validate_resource_name_iff name = (λ h. ground arith, λ h. ground arith)

capability_error_iff : (c : AppCapabilityType) → (capability_error c ≡ none) ↔ IsCapability c
unfolding capability_error
capability_error_iff c =
    let outer =
      or_else_iff (list_error producer_error 0 c.producer_of)
        (list_error consumer_error 0 c.consumer_of or_else routing_error c) in
    let inner = or_else_iff (list_error consumer_error 0 c.consumer_of) (routing_error c) in
    (
      λ h. record {
        producers =
            list_error-none producer_error IsProducerRef (λ i r. (producer_error_iff i r).0) 0
              c.producer_of (outer.0 h).0;
        consumers =
            list_error-none consumer_error IsConsumerRef (λ i r. (consumer_error_iff i r).0) 0
              c.consumer_of (inner.0 (outer.0 h).1).0;
        routing = (routing_error_iff c).0 (inner.0 (outer.0 h).1).1;
      },
      λ h. outer.1 (
        All-list_error producer_error IsProducerRef (λ i r. (producer_error_iff i r).1) 0
            c.producer_of h.producers,
        inner.1 (
          All-list_error consumer_error IsConsumerRef (λ i r. (consumer_error_iff i r).1) 0
              c.consumer_of h.consumers,
          (routing_error_iff c).1 h.routing,
        ),
      ),
    )

verify_iff :
    (app : BrokerApp)
    → (verify_capability_address_type app ≡ none) ↔ All IsCapability app.spec.capabilities
unfolding verify_capability_address_type
verify_iff app =
    let check = λ (i : ℕ). capability_error in
    let cs = app.spec.capabilities in
    (
      λ h.
          list_error-none check IsCapability (λ _ c. (capability_error_iff c).0) 0 cs
            (ground arith),
      λ h.
          ground
            (arith, All-list_error check IsCapability (λ _ c. (capability_error_iff c).1) 0 cs h),
    )

-- A spec is accepted exactly when the app's name is safe in a path, every producer, consumer and the
-- routing types of every capability are as they should be, private and shared addresses are disjoint,
-- and local uses agree with the declarations.
pub validate_spec_iff : (app : BrokerApp) → (validate_spec app ≡ none) ↔ IsValidApp app
unfolding validate_spec
validate_spec_iff app =
    let declared = validate_address_capability_consistency app in
    let disjoint = validate_addresses_disjoint app in
    let capabilities = verify_capability_address_type app in
    let first =
      or_else_iff (validate_resource_name app.name)
        (capabilities or_else disjoint or_else declared) in
    let second = or_else_iff capabilities (disjoint or_else declared) in
    let third = or_else_iff disjoint declared in
    (
      λ h.
          let (named, h') = first.0 h in
          let (able, h'') = second.0 h' in
          record {
            name = (validate_resource_name_iff app.name).0 named;
            capabilities = (verify_iff app).0 able;
            disjoint = (validate_addresses_disjoint_iff app).0 (third.0 h'').0;
            as_declared = (validate_address_capability_consistency_iff app).0 (third.0 h'').1;
          },
      λ v. first.1 (
        (validate_resource_name_iff app.name).1 v.name,
        second.1 (
          (verify_iff app).1 v.capabilities,
          third.1 (
            (validate_addresses_disjoint_iff app).1 v.disjoint,
            (validate_address_capability_consistency_iff app).1 v.as_declared,
          ),
        ),
      ),
    )
