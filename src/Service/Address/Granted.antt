-- ===== src/Service/Address/Granted.antt =====
-- What the address tracker of controllers/brokerservice_controller.go holds of an address, by what the
-- app says of it.
pub mod Terms
pub mod Declared
pub mod Used
pub mod Claims
use activemq_artemis_operato.Base.{
  String, Bool, true, false, not, ◌&&◌, ◌||◌, Option, none, some, List, [], ◌∷◌, ◌≡◌, refl, sym, ap,
  ◌∙◌, ◌==◌, eq_iff, arith, has, has-add, lookup, insert, lookup-insert, Bool-cases, inl, inr,
  if_true, if_false, if◌then◌else◌,
}
use activemq_artemis_operato.Api.{AddressRef}
use activemq_artemis_operato.App.Address.{is_local}
use activemq_artemis_operato.Service.Address.{
  AddressConfig, Tracker, or_new, entry_of, own, as_multicast, as_sender, as_consumer,
  as_subscriber, change, track,
}

-- What can hold of an address: that a role sends to it, consumes from it or subscribes to it, that the
-- app owns it, and that it is multicast.
pub data Fact : Type 0 where
  sends consumes subscribes : String → Fact
  owned multicast : Fact

unfoldable pub holds_of : Fact → AddressConfig → Bool
holds_of (sends r) entry = has r entry.sender_roles
holds_of (consumes r) entry = has r entry.consumer_roles
holds_of (subscribes r) entry = has r entry.subscriber_roles
holds_of owned entry = entry.is_owned
holds_of multicast entry = entry.is_multicast

-- A change that makes a fact hold, or leaves it.
abbrev pub Makes : Fact → Bool → (AddressConfig → AddressConfig) → Type 0
Makes fact made f =
    (entry : AddressConfig) → holds_of fact (f entry) ≡ (holds_of fact entry || made)

or_comm : (a b : Bool) → (a || b) ≡ (b || a)
or_comm a b = ground arith

pub or_false : (a : Bool) → a ≡ (a || false)
or_false a = ground arith

-- What each change of an entry makes true.
abbrev pub owned_if : Bool → Fact → Bool
owned_if local (sends r) = false
owned_if local (consumes r) = false
owned_if local (subscribes r) = false
owned_if local owned = local
owned_if local multicast = false

abbrev pub multicast_if : Bool → Fact → Bool
multicast_if m (sends r) = false
multicast_if m (consumes r) = false
multicast_if m (subscribes r) = false
multicast_if m owned = false
multicast_if m multicast = m

abbrev pub sent_by : String → Fact → Bool
sent_by role (sends r) = role == r
sent_by role (consumes r) = false
sent_by role (subscribes r) = false
sent_by role owned = false
sent_by role multicast = false

abbrev pub consumed_by : String → Fact → Bool
consumed_by role (sends r) = false
consumed_by role (consumes r) = role == r
consumed_by role (subscribes r) = false
consumed_by role owned = false
consumed_by role multicast = false

abbrev pub subscribed_by : String → Fact → Bool
subscribed_by role (sends r) = false
subscribed_by role (consumes r) = false
subscribed_by role (subscribes r) = role == r
subscribed_by role owned = false
subscribed_by role multicast = false

pub own-Makes : (local : Bool) (fact : Fact) → Makes fact (owned_if local fact) (own local)
unfolding holds_of
own-Makes local (sends r) entry = or_false _
own-Makes local (consumes r) entry = or_false _
own-Makes local (subscribes r) entry = or_false _
own-Makes local owned entry = or_comm local entry.is_owned
own-Makes local multicast entry = or_false _

pub as_multicast-Makes :
    (m : Bool) (fact : Fact) → Makes fact (multicast_if m fact) (as_multicast m)
unfolding holds_of
as_multicast-Makes m (sends r) entry = or_false _
as_multicast-Makes m (consumes r) entry = or_false _
as_multicast-Makes m (subscribes r) entry = or_false _
as_multicast-Makes m owned entry = or_false _
as_multicast-Makes m multicast entry = or_comm m entry.is_multicast

pub as_sender-Makes :
    (role : String) (fact : Fact) → Makes fact (sent_by role fact) (as_sender role)
unfolding holds_of
as_sender-Makes role (sends r) entry =
    has-add role r entry.sender_roles ∙ or_comm (role == r) (has r entry.sender_roles)
as_sender-Makes role (consumes r) entry = or_false _
as_sender-Makes role (subscribes r) entry = or_false _
as_sender-Makes role owned entry = or_false _
as_sender-Makes role multicast entry = or_false _

pub as_consumer-Makes :
    (role : String) (fact : Fact) → Makes fact (consumed_by role fact) (as_consumer role)
unfolding holds_of
as_consumer-Makes role (sends r) entry = or_false _
as_consumer-Makes role (consumes r) entry =
    has-add role r entry.consumer_roles ∙ or_comm (role == r) (has r entry.consumer_roles)
as_consumer-Makes role (subscribes r) entry = or_false _
as_consumer-Makes role owned entry = or_false _
as_consumer-Makes role multicast entry = or_false _

pub as_subscriber-Makes :
    (role : String) (fact : Fact) → Makes fact (subscribed_by role fact) (as_subscriber role)
unfolding holds_of
as_subscriber-Makes role (sends r) entry = or_false _
as_subscriber-Makes role (consumes r) entry = or_false _
as_subscriber-Makes role (subscribes r) entry =
    has-add role r entry.subscriber_roles ∙ or_comm (role == r) (has r entry.subscriber_roles)
as_subscriber-Makes role owned entry = or_false _
as_subscriber-Makes role multicast entry = or_false _

module _ (fact : Fact) where
  -- One change after another.
  pub Makes-comp :
      (f g : AddressConfig → AddressConfig) (a b : Bool)
      → Makes fact a f
      → Makes fact b g
      → Makes fact (a || b) (λ entry. g (f entry))
  Makes-comp f g a b p q entry =
      q (f entry) ∙ ap (λ x. x || b) (p entry) ∙ or_assoc (holds_of fact entry) a b
    where
      or_assoc : (x y z : Bool) → ((x || y) || z) ≡ (x || (y || z))
      or_assoc x y z = ground arith

  -- What the tracker holds of an address.
  abbrev pub known : String → Tracker → Bool
  known a t = holds_of fact (entry_of a t)

  pub known-change :
      (name a : String) (t : Tracker) (f : AddressConfig → AddressConfig) (made : Bool)
      → Makes fact made f
      → known a (change name f t) ≡ (known a t || (name == a && made))
  unfolding change entry_of
  known-change name a t f made m =
      ap (λ o. holds_of fact (or_new o)) (lookup-insert name a (f (entry_of name t)) t)
      ∙ elim (Bool-cases (name == a)) [
        | inl same ↦ rw same (
            m (or_new (lookup name t))
            ∙ ap (λ n. holds_of fact (or_new (lookup n t)) || made) ((eq_iff name a).0 same))
        | inr other ↦ rw other (or_false _)
      ]

  pub known-track :
      (ref : AddressRef) (a : String) (t : Tracker)
      → known a (track ref t) ≡ (known a t || (ref.address == a && owned_if (is_local ref) fact))
  unfolding track
  known-track ref a t =
      unfold change in
      known-change ref.address a t (own (is_local ref)) (owned_if (is_local ref) fact)
        (own-Makes (is_local ref) fact)
