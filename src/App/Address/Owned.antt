-- ===== src/App/Address/Owned.antt =====
-- The set that `collectOwnedAddresses` gathers.
use activemq_artemis_operato.Base.{
  String, ◌≡◌, refl, Bool, ◌&&◌, ◌||◌, List, [], ◌∷◌, ◌==◌, arith, any, has, has-add, add, inl, inr,
  Bool-cases,
}
use activemq_artemis_operato.Api.{AddressType, AddressRef, AppCapabilityType, BrokerApp}
use activemq_artemis_operato.App.Address.{
  is_local, extract_base_address, add_address_types, add_local_refs, add_capabilities,
  collect_owned_addresses,
}

abbrev pub declares : String → AddressType → Bool
declares a t = t.address == a

-- A reference with no other app in it, to an address with the base address `a`.
abbrev pub uses_locally : String → AddressRef → Bool
uses_locally a ref = is_local ref && extract_base_address ref.address == a

abbrev pub capability_uses : String → AppCapabilityType → Bool
capability_uses a c = any (uses_locally a) c.producer_of || any (uses_locally a) c.consumer_of

-- The app owns the address: it declares it, privately or to share, or uses it locally.
abbrev pub owns : BrokerApp → String → Bool
owns app a =
    any (declares a) app.spec.addresses
    || any (declares a) app.spec.shared_addresses
    || any (capability_uses a) app.spec.capabilities

has-add_address_types :
    (a : String) (ts : List AddressType) (m : List String)
    → has a (add_address_types ts m) ≡ (any (declares a) ts || has a m)
unfolding add_address_types
has-add_address_types a [] m = refl
has-add_address_types a (t ∷ ts) m =
    ground (arith, has-add_address_types a ts (add t.address m), has-add t.address a m)

has-add_local_refs :
    (a : String) (refs : List AddressRef) (m : List String)
    → has a (add_local_refs refs m) ≡ (any (uses_locally a) refs || has a m)
unfolding add_local_refs
has-add_local_refs a [] m = refl
has-add_local_refs a (ref ∷ refs) m = elim (Bool-cases (is_local ref)) [
  | inl here ↦ rw here (
      ground (
        arith,
        has-add_local_refs a refs (add (extract_base_address ref.address) m),
        has-add (extract_base_address ref.address) a m,
      ))
  | inr other ↦ rw other (has-add_local_refs a refs m)
]

has-add_capabilities :
    (a : String) (cs : List AppCapabilityType) (m : List String)
    → has a (add_capabilities cs m) ≡ (any (capability_uses a) cs || has a m)
unfolding add_capabilities
has-add_capabilities a [] m = refl
has-add_capabilities a (c ∷ cs) m = ground (
  arith,
  has-add_capabilities a cs (add_local_refs c.consumer_of (add_local_refs c.producer_of m)),
  has-add_local_refs a c.consumer_of (add_local_refs c.producer_of m),
  has-add_local_refs a c.producer_of m,
)

-- The collected set holds an address exactly when the app declares it in `spec.addresses` or in
-- `spec.sharedAddresses`, or some capability refers to it without naming another app.
pub has-collect_owned_addresses :
    (app : BrokerApp) (a : String) → has a (collect_owned_addresses app) ≡ owns app a
unfolding collect_owned_addresses has
has-collect_owned_addresses app a =
    let private = add_address_types app.spec.addresses [] in
    let declared = add_address_types app.spec.shared_addresses private in
    ground (
      arith,
      has-add_capabilities a app.spec.capabilities declared,
      has-add_address_types a app.spec.shared_addresses private,
      has-add_address_types a app.spec.addresses [],
    )
