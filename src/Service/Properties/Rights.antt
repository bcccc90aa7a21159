-- ===== src/Service/Properties/Rights.antt =====
-- The permissions that an app is given, by its capabilities: `processCapabilities` of
-- controllers/brokerservice_controller.go.
pub mod Sending
pub mod Readers
pub mod Reading
use activemq_artemis_operato.Base.{
  String, Bool, true, false, not, ◌&&◌, ◌||◌, List, [], ◌∷◌, ◌++◌, ◌≡◌, refl, sym, ap, ◌∙◌, ◌==◌,
  eq_iff, eq_refl, ◌↔◌, ◌⊎◌, inl, inr, arith, any, any-true, Memᴰ-any, Memᴰ, has, Memᴰ-has,
  has-Memᴰ, Bool-cases, if◌then◌else◌,
}
use activemq_artemis_operato.Errors.{ok}
use activemq_artemis_operato.Api.{AddressType, AddressRef, AppCapabilityType, BrokerAppSpec}
use activemq_artemis_operato.App.Address.{is_multicast_address, is_local}
use activemq_artemis_operato.Service.Address.{Tracker, entry_of, fqqn, track_app}
use activemq_artemis_operato.Service.Address.Keys.{track_app-Distinct}
use activemq_artemis_operato.Service.Address.Granted.{Fact, holds_of}
use activemq_artemis_operato.Service.Address.Granted.Terms.{
  is_multicast_ref, declaration_claims, producer_claims, consumer_claims, capability_claims,
  app_claims,
}
use activemq_artemis_operato.Service.Address.Granted.Claims.{track_app-claims}
use activemq_artemis_operato.Service.Properties.{
  Property, routing_types, queue_routing_type, queue_address, may_send, may_consume, may_view,
  producer_role, consumer_role, properties_of,
}
use activemq_artemis_operato.Service.Properties.Permissions.{any-append, is_send, is_consume}
use activemq_artemis_operato.Service.Properties.Permissions.Granted.{readers, any-send, any-consume}

-- Some capability produces to the address.
abbrev pub Sends : BrokerAppSpec → String → Type 0
Sends spec a =
    (c : AppCapabilityType) × Memᴰ c spec.capabilities
    × ((ref : AddressRef) × Memᴰ ref c.producer_of × (ref.address ≡ a))

-- A consumer reads from its address or, if that is multicast, from the queues of its subscriptions.
abbrev pub ReadsBy : AddressRef → String → Type 0
ReadsBy ref a =
    ((is_multicast_ref ref ≡ false) × (ref.address ≡ a))
    ⊎ ((is_multicast_ref ref ≡ true)
        × ((q : String) × Memᴰ q ref.subscriptions × (fqqn ref.address q ≡ a)))

abbrev pub Reads : BrokerAppSpec → String → Type 0
Reads spec a =
    (c : AppCapabilityType) × Memᴰ c spec.capabilities
    × ((ref : AddressRef) × Memᴰ ref c.consumer_of × ReadsBy ref a)

pub or_cases : (x y : Bool) → (x || y) ≡ true → (x ≡ true) ⊎ (y ≡ true)
or_cases true y h = inl refl
or_cases false y h = inr h

pub never {ℓ} :
    {A : Type ℓ} (p : A → Bool) (xs : List A) → ((x : A) → p x ≡ false) → any p xs ≡ true → ⊥
never p xs h t = let q = any-true p xs t in absurd (ground (arith, h q.0, q.2))

-- A right that is one role's, that no declaration gives and that a reference gives where it may.
module _ (role : String) (fact : Fact) (a : String) (spec : BrokerAppSpec) where
  -- A fact of an app comes from a capability, where a declaration does not give it.
  pub of_capability :
      ((d : AddressType) → declaration_claims role fact a d ≡ false)
      → app_claims role fact a spec ≡ true
      → (c : AppCapabilityType) × Memᴰ c spec.capabilities
        × (capability_claims role fact a c ≡ true)
  of_capability undeclared h = elim (or_cases _ _ h) [
    | inl declared ↦ elim (or_cases _ _ declared) [
      | inl own ↦ absurd (never (declaration_claims role fact a) spec.addresses undeclared own)
      | inr shared ↦
          absurd (never (declaration_claims role fact a) spec.shared_addresses undeclared shared)
    ]
    | inr used ↦ any-true (capability_claims role fact a) spec.capabilities used
  ]

  or_right : (x y : Bool) → y ≡ true → (x || y) ≡ true
  or_right x y h = ground arith

  pub by_capability :
      (c : AppCapabilityType)
      → Memᴰ c spec.capabilities
      → capability_claims role fact a c ≡ true
      → app_claims role fact a spec ≡ true
  by_capability c m h =
      or_right
        (any (declaration_claims role fact a) spec.addresses
          || any (declaration_claims role fact a) spec.shared_addresses)
        (any (capability_claims role fact a) spec.capabilities)
        (Memᴰ-any (capability_claims role fact a) m h)

pub any_no {ℓ} :
    {A : Type ℓ} (p : A → Bool) (xs : List A) → ((x : A) → p x ≡ false) → any p xs ≡ false
any_no p [] h = refl
any_no p (x ∷ xs) h = ground (arith, h x, any_no p xs h)

pub nothing : (e m q : Bool) → q ≡ false → (e && (false || false) || m && q) ≡ false
nothing e m q h = ground arith

pub and_nothing : (e : Bool) → (e && (false || false)) ≡ false
and_nothing e = ground arith

pub or_left : (x y : Bool) → x ≡ true → (x || y) ≡ true
or_left x y h = ground arith
