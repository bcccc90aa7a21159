-- ===== src/Service/Properties/Permissions.antt =====
-- The security roles among the properties of an app, of controllers/brokerservice_controller.go:
-- which entries of the tracker they come from.
pub mod Granted
use activemq_artemis_operato.Base.{
  String, Bool, true, false, not, ◌&&◌, ◌||◌, Option, none, some, List, [], ◌∷◌, ◌++◌, ◌≡◌, refl,
  sym, ap, ◌∙◌, map, ◌==◌, eq_iff, eq_refl, arith, any, Memᴰ, lookup, Distinct, Bool-cases, inl,
  inr, if◌then◌else◌,
}
use activemq_artemis_operato.App.Address.{fqqn_separator}
use activemq_artemis_operato.Service.Address.{AddressConfig, Tracker, entry_of, or_new}
use activemq_artemis_operato.Service.Properties.{
  Property, routing_types, queue_routing_type, queue_address, may_send, may_consume, may_view,
  producer_role, consumer_role, is_fqqn, address_part, if_so, queue_properties, routing_properties,
  role_properties, view_properties, metric_properties, metric_queues, metrics_role,
  address_properties, properties_of,
}

module _ {ℓ} {A : Type ℓ} (p : A → Bool) where
  pub any-append : (xs ys : List A) → any p (xs ++ ys) ≡ (any p xs || any p ys)
  any-append [] ys = refl
  any-append (x ∷ xs) ys = ground (arith, any-append xs ys)

  pub any-three :
      (xs ys zs : List A) → any p (xs ++ (ys ++ zs)) ≡ (any p xs || (any p ys || any p zs))
  any-three xs ys zs = any-append xs (ys ++ zs) ∙ ap (λ b. any p xs || b) (any-append ys zs)

  none_of_three : (x y z : Bool) → x ≡ false → y ≡ false → z ≡ false → (x || (y || z)) ≡ false
  none_of_three x y z h g k = ground arith

  pub any-none_of_three :
      (xs ys zs : List A)
      → any p xs ≡ false
      → any p ys ≡ false
      → any p zs ≡ false
      → any p (xs ++ (ys ++ zs)) ≡ false
  any-none_of_three xs ys zs h g k =
      any-three xs ys zs ∙ none_of_three (any p xs) (any p ys) (any p zs) h g k

  pub any-map {κ} :
      {B : Type κ} (f : B → A) (ys : List B) → any p (map f ys) ≡ any (λ y. p (f y)) ys
  any-map f [] = refl
  any-map f (y ∷ ys) = ap (λ b. p (f y) || b) (any-map f ys)

  pub any-if_so : (b : Bool) (xs : List A) → any p xs ≡ false → any p (if_so b xs) ≡ false
  any-if_so true xs h = h
  any-if_so false xs h = refl

pub any-never {ℓ} : {A : Type ℓ} (xs : List A) → any (λ x. false) xs ≡ false
any-never [] = refl
any-never (x ∷ xs) = any-never xs

pub any-and {ℓ} :
    {A : Type ℓ} (b : Bool) (p : A → Bool) (xs : List A) → any (λ x. b && p x) xs ≡ (b && any p xs)
any-and true p xs = refl
any-and false p xs = any-never xs

-- The tests for the two permissions on an address.
abbrev pub is_send : String → String → Property → Bool
is_send a r (routing_types address routing) = false
is_send a r (queue_routing_type address queue routing) = false
is_send a r (queue_address address queue) = false
is_send a r (may_send address role) = address == a && role == r
is_send a r (may_consume address role) = false
is_send a r (may_view queue attribute role) = false

abbrev pub is_consume : String → String → Property → Bool
is_consume a r (routing_types address routing) = false
is_consume a r (queue_routing_type address queue routing) = false
is_consume a r (queue_address address queue) = false
is_consume a r (may_send address role) = false
is_consume a r (may_consume address role) = address == a && role == r
is_consume a r (may_view queue attribute role) = false

-- A test that holds of no property but a permission finds none among the others.
module _ (is : Property → Bool) (no_routing : (a b : String) → is (routing_types a b) ≡ false)
    (no_type : (a q b : String) → is (queue_routing_type a q b) ≡ false)
    (no_address : (a q : String) → is (queue_address a q) ≡ false)
    (no_view : (q b r : String) → is (may_view q b r) ≡ false) where
  any-queue_properties : (name routing : String) → any is (queue_properties name routing) ≡ false
  unfolding queue_properties
  any-queue_properties name routing = rw no_type (rw no_address refl)

  any-routing_types : (a b : String) → any is (routing_types a b ∷ []) ≡ false
  any-routing_types a b = rw (no_routing a b) refl

  pub any-routing_properties :
      (name : String) (addr : AddressConfig) → any is (routing_properties name addr) ≡ false
  unfolding routing_properties
  any-routing_properties name addr =
      let routing : String = if addr.is_multicast then "MULTICAST" else "ANYCAST" in
      let types = routing_types (address_part name) routing ∷ [] in
      let queue = queue_properties name "ANYCAST" in
      let topic = queue_properties name "MULTICAST" in
      any-none_of_three is (if_so addr.is_owned types) (if_so (not addr.is_multicast) queue)
        (if_so (is_fqqn name) topic)
        (any-if_so is addr.is_owned types (any-routing_types (address_part name) routing))
        (any-if_so is (not addr.is_multicast) queue (any-queue_properties name "ANYCAST"))
        (any-if_so is (is_fqqn name) topic (any-queue_properties name "MULTICAST"))

  any-view_properties : (queue role : String) → any is (view_properties queue role) ≡ false
  unfolding view_properties
  any-view_properties queue role = simp no_view

  pub any-metric_properties :
      (identity : String) (queues : List String)
      → any is (metric_properties identity queues) ≡ false
  unfolding metric_properties
  any-metric_properties identity [] = refl
  any-metric_properties identity (queue ∷ queues) =
      let all = view_properties queue "metrics" in
      let own = view_properties queue (metrics_role identity) in
      let rest = metric_properties identity queues in
      any-append is (all ++ own) rest
      ∙ ap (λ b. b || any is rest) (any-append is all own)
      ∙ all_three (any is all) (any is own) (any is rest) (any-view_properties queue "metrics")
          (any-view_properties queue (metrics_role identity))
          (any-metric_properties identity queues)
    where
      all_three : (x y z : Bool) → x ≡ false → y ≡ false → z ≡ false → ((x || y) || z) ≡ false
      all_three x y z h g k = ground arith
