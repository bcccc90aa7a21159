-- ===== src/Service/Address.antt =====
-- The address tracker of controllers/brokerservice_controller.go: what an app does with each address,
-- from its declarations and its capabilities.
pub mod Granted
pub mod Keys
use activemq_artemis_operato.Base.{
  String, Bool, true, false, not, ◌&&◌, ◌||◌, Option, none, some, List, [], ◌∷◌, concat, is_empty,
  add, lookup, insert, if◌then◌else◌,
}
use activemq_artemis_operato.Errors.{Error, plain, Result, ok, err}
use activemq_artemis_operato.Loops.{and_then, each}
use activemq_artemis_operato.Api.{AddressType, AddressRef, AppCapabilityType, BrokerAppSpec}
use activemq_artemis_operato.App.Address.{is_multicast_address, is_local, fqqn_separator}

-- A map from a role to itself is the list of its keys.
pub record AddressConfig : Type 0 where
  pub sender_roles : List String
  pub consumer_roles : List String
  pub subscriber_roles : List String
  pub is_owned : Bool
  pub is_multicast : Bool

abbrev pub Tracker : Type 0
Tracker = List (String × AddressConfig)

abbrev pub new_address_config : AddressConfig
new_address_config = record {
  sender_roles = [];
  consumer_roles = [];
  subscriber_roles = [];
  is_owned = false;
  is_multicast = false;
}

abbrev pub or_new : Option AddressConfig → AddressConfig
or_new none = new_address_config
or_new (some entry) = entry

-- The entry of an address, a new one where there is none.
unfoldable pub entry_of : String → Tracker → AddressConfig
entry_of address t = or_new (lookup address t)

abbrev pub own : Bool → AddressConfig → AddressConfig
own local entry = record entry { is_owned = local || entry.is_owned }

abbrev pub as_multicast : Bool → AddressConfig → AddressConfig
as_multicast multicast entry = record entry { is_multicast = multicast || entry.is_multicast }

-- `track`. A change of the entry that it returns is a change at the address.
unfoldable pub track : AddressRef → Tracker → Tracker
track ref t = insert ref.address (own (is_local ref) (entry_of ref.address t)) t

unfoldable pub change : String → (AddressConfig → AddressConfig) → Tracker → Tracker
change address f t = insert address (f (entry_of address t)) t

abbrev pub fqqn : String → String → String
fqqn address queue = concat (address ∷ fqqn_separator ∷ queue ∷ [])

-- A reference to an address or to a queue of one, with the app that it is of.
abbrev pub ref_at : String → String → String → AddressRef
ref_at address namespace name = record {
  address = address;
  app_namespace = namespace;
  app_name = name;
  pub_sub = none;
  subscriptions = [];
}

unfoldable pub track_subscriptions : String → List String → Tracker → Tracker
track_subscriptions address [] t = t
track_subscriptions address (queue ∷ queues) t =
    let name = fqqn address queue in
    track_subscriptions address queues
      (change name (as_multicast true) (track (ref_at name "" "") t))

unfoldable pub track_address_type : AddressType → Tracker → Tracker
track_address_type declared t =
    let tracked = track (ref_at declared.address "" "") t in
    if is_multicast_address declared.pub_sub declared.subscriptions
    then track_subscriptions declared.address declared.subscriptions
        (change declared.address (as_multicast true) tracked)
    else tracked

unfoldable pub track_address_types : List AddressType → Tracker → Tracker
track_address_types [] t = t
track_address_types (d ∷ ds) t = track_address_types ds (track_address_type d t)

module _ (role : String) where
  abbrev pub as_sender : AddressConfig → AddressConfig
  as_sender entry = record entry { sender_roles = add role entry.sender_roles }

  abbrev pub as_consumer : AddressConfig → AddressConfig
  as_consumer entry = record entry { consumer_roles = add role entry.consumer_roles }

  abbrev pub as_subscriber : AddressConfig → AddressConfig
  as_subscriber entry = record entry { subscriber_roles = add role entry.subscriber_roles }

  -- One round of the loop over the producers.
  unfoldable pub produce : AddressRef → Tracker → Result Tracker
  produce ref t = ok (
      change ref.address
        (λ entry.
          as_multicast (is_multicast_address ref.pub_sub ref.subscriptions) (as_sender entry))
        (track ref t))

  unfoldable pub subscribe : AddressRef → List String → Tracker → Tracker
  subscribe ref [] t = t
  subscribe ref (queue ∷ queues) t =
      let name = fqqn ref.address queue in
      subscribe ref queues (
        change name (λ entry. as_multicast true (as_subscriber entry))
          (track (ref_at name ref.app_namespace ref.app_name) t))

  abbrev pub conflict : AddressRef → Error
  conflict ref = plain (
      concat (
        "address '" ∷ ref.address
        ∷ "' is referenced with both pubSub and non pubSub semantics. This creates a conflict. Use "
        ∷ "consistent semantics for the same address" ∷ []))

  unfoldable pub consume_queue : AddressRef → Tracker → Result Tracker
  consume_queue ref t =
      let entry = entry_of ref.address t in
      if entry.is_owned && entry.is_multicast
      then err (conflict ref)
      else ok (change ref.address as_consumer t)

  unfoldable pub consume_topic : AddressRef → Tracker → Result Tracker
  consume_topic ref t =
      let entry = entry_of ref.address t in
      if entry.is_owned && not (is_empty entry.consumer_roles) && not entry.is_multicast
      then err (conflict ref)
      else ok (subscribe ref ref.subscriptions (change ref.address (as_multicast true) t))

  -- One round of the loop over the consumers.
  unfoldable pub consume : AddressRef → Tracker → Result Tracker
  consume ref t =
      if is_multicast_address ref.pub_sub ref.subscriptions
      then consume_topic ref (track ref t)
      else consume_queue ref (track ref t)

  unfoldable pub use_capability : AppCapabilityType → Tracker → Result Tracker
  use_capability c t = and_then (each produce c.producer_of t) (λ s. each consume c.consumer_of s)

  -- The first half of `processCapabilities`.
  unfoldable pub track_app : BrokerAppSpec → Result Tracker
  track_app spec =
      each use_capability spec.capabilities
        (track_address_types spec.shared_addresses (track_address_types spec.addresses []))
