-- ===== src/App/Validate/Kind.antt =====
-- The errors of `validateSpec` are validation errors.
use activemq_artemis_operato.Base.{
  String, ◌≡◌, Bool, true, false, Option, none, some, List, [], inl, inr, Bool-cases, arith,
  is_empty, has, lookup, ◌||◌,
}
use activemq_artemis_operato.Errors.{
  Error, validation_error, is_validation, list_error, list_error-some, or_else-some, ◌or_else◌,
}
use activemq_artemis_operato.Api.{AddressType, AddressRef, AppCapabilityType, BrokerApp}
use activemq_artemis_operato.App.Address.{is_local}
use activemq_artemis_operato.App.Validate.{
  as_validation_error, validate_resource_name, resource_name_error, verify_capability_address_type,
  shared_error, private_addresses, validate_addresses_disjoint, usage_error, ref_usage_error,
  capability_usage_error, declared_addresses, validate_address_capability_consistency,
  validate_spec,
}

abbrev IsValidation : Error → Type 0
IsValidation e = is_validation e ≡ true

nothing : {e : Error} → ¬ (◌≡◌ {A = Option Error} none (some e))
nothing h = cc

IsValidation-some :
    {reason message : String} {e : Error}
    → some (validation_error reason message) ≡ some e
    → IsValidation e
IsValidation-some h = ground arith

as_validation_error-some :
    (reason prefix : String) (o : Option Error) {e : Error}
    → as_validation_error reason prefix o ≡ some e
    → IsValidation e
as_validation_error-some reason prefix none h = cc
as_validation_error-some reason prefix (some d) h = ground arith

either :
    (a b : Option Error) {e : Error}
    → ((d : Error) → a ≡ some d → IsValidation d)
    → ((d : Error) → b ≡ some d → IsValidation d)
    → (a or_else b) ≡ some e
    → IsValidation e
either a b {e} f g h = elim (or_else-some a b h) [ inl l ↦ f e l | inr r ↦ g e r ]

usage_error-some :
    (place address : String) (declared : Option Bool) (usage : Bool) {e : Error}
    → usage_error place address declared usage ≡ some e
    → IsValidation e
usage_error-some place address none usage h = cc
usage_error-some place address (some true) true h = cc
usage_error-some place address (some true) false h = ground arith
usage_error-some place address (some false) true h = ground arith
usage_error-some place address (some false) false h = cc

ref_usage_error-some :
    (place : String) (declared : List (String × Bool)) (ref : AddressRef) (e : Error)
    → ref_usage_error place declared ref ≡ some e
    → IsValidation e
unfolding ref_usage_error
ref_usage_error-some place declared ref e h = elim (Bool-cases (is_local ref)) [
  | inl local ↦ usage_error-some place ref.address (lookup ref.address declared) _ (rw local at h)
  | inr other ↦ absurd (nothing (rw other at h))
]

capability_usage_error-some :
    (declared : List (String × Bool)) (c : AppCapabilityType) (e : Error)
    → capability_usage_error declared c ≡ some e
    → IsValidation e
unfolding capability_usage_error
capability_usage_error-some declared c e h =
    either _ _
      (λ d.
        list_error-some (λ _. ref_usage_error "producerOf" declared) IsValidation
          (λ _ ref e. ref_usage_error-some "producerOf" declared ref e) 0 c.producer_of)
      (λ d.
        list_error-some (λ _. ref_usage_error "consumerOf" declared) IsValidation
          (λ _ ref e. ref_usage_error-some "consumerOf" declared ref e) 0 c.consumer_of)
      h

consistency-some :
    (app : BrokerApp) (e : Error)
    → validate_address_capability_consistency app ≡ some e
    → IsValidation e
unfolding validate_address_capability_consistency
consistency-some app e h = elim (Bool-cases (is_empty (declared_addresses app))) [
  | inl nothing_declared ↦ absurd (nothing (rw nothing_declared at h))
  | inr some_declared ↦
      list_error-some (λ _. capability_usage_error (declared_addresses app)) IsValidation
        (λ _ c e. capability_usage_error-some (declared_addresses app) c e) 0 app.spec.capabilities
        (rw some_declared at h)
]

shared_error-some :
    (privates : List String) (t : AddressType) (e : Error)
    → shared_error privates t ≡ some e
    → IsValidation e
unfolding shared_error
shared_error-some privates t e h = elim (Bool-cases (has t.address privates)) [
  | inl twice ↦ IsValidation-some (rw twice at h)
  | inr once ↦ absurd (nothing (rw once at h))
]

disjoint-some :
    (app : BrokerApp) (e : Error) → validate_addresses_disjoint app ≡ some e → IsValidation e
unfolding validate_addresses_disjoint
disjoint-some app e h =
    elim (Bool-cases (is_empty app.spec.addresses || is_empty app.spec.shared_addresses)) [
      | inl one_empty ↦ absurd (nothing (rw one_empty at h))
      | inr both ↦
          list_error-some (λ _. shared_error (private_addresses app.spec.addresses [])) IsValidation
            (λ _ t e. shared_error-some _ t e) 0 app.spec.shared_addresses (rw both at h)
    ]

name-some : (name : String) (e : Error) → validate_resource_name name ≡ some e → IsValidation e
unfolding validate_resource_name
name-some name e h = as_validation_error-some _ _ (resource_name_error name) h

capabilities-some :
    (app : BrokerApp) (e : Error) → verify_capability_address_type app ≡ some e → IsValidation e
unfolding verify_capability_address_type
capabilities-some app e h = as_validation_error-some _ _ (list_error _ 0 app.spec.capabilities) h

-- Whatever `validateSpec` finds is reported as a validation error.
pub validate_spec-some :
    (app : BrokerApp) (e : Error) → validate_spec app ≡ some e → is_validation e ≡ true
unfolding validate_spec
validate_spec-some app e h =
    let capabilities = verify_capability_address_type app in
    let disjoint = validate_addresses_disjoint app in
    let declared = validate_address_capability_consistency app in
    either (validate_resource_name app.name) (capabilities or_else disjoint or_else declared)
      (λ d. name-some app.name d)
      (λ d.
        either capabilities (disjoint or_else declared) (λ d. capabilities-some app d)
          (λ d. either disjoint declared (disjoint-some app) (consistency-some app)))
      h
