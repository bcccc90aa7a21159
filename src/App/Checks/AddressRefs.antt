-- ===== src/App/Checks/AddressRefs.antt =====
-- What `checkAddressRefCapacity` asks of the apps that an app refers to.
use activemq_artemis_operato.Base.{
  ◌≡◌, refl, false, Option, none, some, arith, All, Memᴰ, find_first, find_first-some, ◌==◌, eq_iff,
  Bool-cases, inl, inr,
}
use activemq_artemis_operato.Errors.{Result, ok, err, list_error, list_error-none, or_else_iff}
use activemq_artemis_operato.Api.{
  AddressType, AddressRef, AppCapabilityType, BrokerServiceBindingStatus, binding_key, BrokerApp,
  BrokerService,
}
use activemq_artemis_operato.Cluster.{Cluster}
use activemq_artemis_operato.App.Address.{is_multicast_address}
use activemq_artemis_operato.App.Validate.Routing.{multicast}
use activemq_artemis_operato.App.Checks.{
  service_key, sharing_error, placement_error, dependency_error, lacks_app, address_ref_error,
  capability_ref_error, check_address_ref_capacity,
}

-- The app shares the address of the reference with the routing type of the reference.
pub record Shares (app : BrokerApp) (ref : AddressRef) : Type 0 where
  pub shared : AddressType
  pub listed : Memᴰ shared app.spec.shared_addresses
  pub same_address : shared.address ≡ ref.address
  pub same_routing : is_multicast_address shared.pub_sub shared.subscriptions ≡ multicast ref

-- The referenced app exists, is bound to the service, and shares the address.
pub record IsSatisfied (k : Cluster) (service : BrokerService) (ref : AddressRef) : Type 0 where
  pub referenced : BrokerApp
  pub exists : k.get_app ref.app_namespace ref.app_name ≡ ok referenced
  pub binding : BrokerServiceBindingStatus
  pub bound : referenced.status.service ≡ some binding
  pub same_service : binding_key binding ≡ service_key service
  pub shares : Shares referenced ref

-- A reference to another app is satisfied.
abbrev pub RefSatisfied : Cluster → BrokerService → AddressRef → Type 0
RefSatisfied k service ref = lacks_app ref ≡ false → IsSatisfied k service ref

abbrev pub CapabilitySatisfied : Cluster → BrokerService → AppCapabilityType → Type 0
CapabilitySatisfied k service c =
    All (RefSatisfied k service) c.producer_of × All (RefSatisfied k service) c.consumer_of

module _ (k : Cluster) (service : BrokerService) (ref : AddressRef) where
  sharing_error-none :
      (app : BrokerApp) (found : Option AddressType)
      → find_first (λ (t : AddressType). t.address == ref.address) app.spec.shared_addresses ≡ found
      → sharing_error ref found ≡ none
      → Shares app ref
  unfolding sharing_error
  sharing_error-none app none f h = absurd (ground arith)
  sharing_error-none app (some t) f h =
      let found =
        find_first-some (λ (t : AddressType). t.address == ref.address) app.spec.shared_addresses
          f in
      record {
        shared = t;
        listed = found.0;
        same_address = (eq_iff t.address ref.address).0 found.1;
        same_routing = ground arith;
      }

  placement_error-none :
      (app : BrokerApp) (place : Option BrokerServiceBindingStatus)
      → k.get_app ref.app_namespace ref.app_name ≡ ok app
      → app.status.service ≡ place
      → placement_error k ref service app place ≡ none
      → IsSatisfied k service ref
  unfolding placement_error
  placement_error-none app none got p h = absurd (ground arith)
  placement_error-none app (some b) got p h =
      elim (Bool-cases (binding_key b == service_key service)) [
        | inl same ↦ record {
          referenced = app;
          exists = got;
          binding = b;
          bound = p;
          same_service = (eq_iff (binding_key b) (service_key service)).0 same;
          shares = sharing_error-none app _ refl (rw same at h);
        }
        | inr other ↦ absurd (ground arith)
      ]

  dependency_error-none :
      (got : Result BrokerApp)
      → k.get_app ref.app_namespace ref.app_name ≡ got
      → dependency_error k ref service got ≡ none
      → IsSatisfied k service ref
  unfolding dependency_error
  dependency_error-none (ok app) g h = placement_error-none app app.status.service g refl h
  dependency_error-none (err e) g h = absurd (ground arith)

  address_ref_error-none : address_ref_error k service ref ≡ none → RefSatisfied k service ref
  unfolding address_ref_error
  address_ref_error-none h l =
      dependency_error-none (k.get_app ref.app_namespace ref.app_name) refl (rw l at h)

capability_ref_error-none :
    (k : Cluster) (service : BrokerService) (c : AppCapabilityType)
    → capability_ref_error k service c ≡ none
    → CapabilitySatisfied k service c
unfolding capability_ref_error
capability_ref_error-none k service c h =
    let check = address_ref_error k service in
    let parts =
      (or_else_iff (list_error (λ _. check) 0 c.producer_of)
          (list_error (λ _. check) 0 c.consumer_of)).0
        h in
    let sound =
      list_error-none (λ _. check) (RefSatisfied k service)
        (λ _ ref. address_ref_error-none k service ref) 0 in
    (sound c.producer_of parts.0, sound c.consumer_of parts.1)

-- Where the check passes, every reference to another app, in every capability, is to an app that
-- exists, is bound to this service, and shares the address with the routing type of the reference.
pub check_address_ref_capacity_sound :
    (k : Cluster) (instance : BrokerApp) (service : BrokerService)
    → check_address_ref_capacity k instance service ≡ none
    → All (CapabilitySatisfied k service) instance.spec.capabilities
unfolding check_address_ref_capacity
check_address_ref_capacity_sound k instance service h =
    list_error-none (λ _. capability_ref_error k service) (CapabilitySatisfied k service)
      (λ _ c. capability_ref_error-none k service c) 0 instance.spec.capabilities h
