-- ===== src/Service/Address/Keys.antt =====
-- The address tracker of controllers/brokerservice_controller.go has one entry for an address.
use activemq_artemis_operato.Base.{
  String, List, [], ◌∷◌, ◌≡◌, true, Bool-cases, inl, inr, arith, Distinct, insert-Distinct,
}
use activemq_artemis_operato.Errors.{ok}
use activemq_artemis_operato.Loops.{and_then-ok, each, each-inv}
use activemq_artemis_operato.Api.{AddressType, AddressRef, AppCapabilityType, BrokerAppSpec}
use activemq_artemis_operato.App.Address.{is_multicast_address}
use activemq_artemis_operato.Service.Address.{
  AddressConfig, Tracker, as_multicast, as_sender, as_consumer, as_subscriber, fqqn, ref_at, change,
  track, track_subscriptions, track_address_type, track_address_types, produce, subscribe,
  consume_queue, consume_topic, consume, use_capability, track_app,
}

change-Distinct :
    (name : String) (f : AddressConfig → AddressConfig) (t : Tracker)
    → Distinct t
    → Distinct (change name f t)
unfolding change
change-Distinct name f t d = insert-Distinct name _ t d

track-Distinct : (ref : AddressRef) (t : Tracker) → Distinct t → Distinct (track ref t)
unfolding track
track-Distinct ref t d = insert-Distinct ref.address _ t d

track_subscriptions-Distinct :
    (address : String) (qs : List String) (t : Tracker)
    → Distinct t
    → Distinct (track_subscriptions address qs t)
unfolding track_subscriptions
track_subscriptions-Distinct address [] t d = d
track_subscriptions-Distinct address (q ∷ qs) t d = track_subscriptions-Distinct address qs _ (
    change-Distinct (fqqn address q) (as_multicast true) _
      (track-Distinct (ref_at (fqqn address q) "" "") t d))

track_address_type-Distinct :
    (a : AddressType) (t : Tracker) → Distinct t → Distinct (track_address_type a t)
unfolding track_address_type
track_address_type-Distinct a t d =
    let tracked = track-Distinct (ref_at a.address "" "") t d in
    elim (Bool-cases (is_multicast_address a.pub_sub a.subscriptions)) [
      | inl m ↦ rw m (
          track_subscriptions-Distinct a.address a.subscriptions _
            (change-Distinct a.address (as_multicast true) _ tracked))
      | inr m ↦ rw m tracked
    ]

track_address_types-Distinct :
    (ds : List AddressType) (t : Tracker) → Distinct t → Distinct (track_address_types ds t)
unfolding track_address_types
track_address_types-Distinct [] t d = d
track_address_types-Distinct (a ∷ ds) t d =
    track_address_types-Distinct ds (track_address_type a t) (track_address_type-Distinct a t d)

module _ (role : String) where
  subscribe-Distinct :
      (ref : AddressRef) (qs : List String) (t : Tracker)
      → Distinct t
      → Distinct (subscribe role ref qs t)
  unfolding subscribe
  subscribe-Distinct ref [] t d = d
  subscribe-Distinct ref (q ∷ qs) t d = subscribe-Distinct ref qs _ (
      change-Distinct (fqqn ref.address q) (λ entry. as_multicast true (as_subscriber role entry)) _
        (track-Distinct (ref_at (fqqn ref.address q) ref.app_namespace ref.app_name) t d))

  produce-Distinct :
      (ref : AddressRef) (s t : Tracker) → produce role ref s ≡ ok t → Distinct s → Distinct t
  unfolding produce
  produce-Distinct ref s t h d =
      let made : AddressConfig → AddressConfig = λ entry.
        as_multicast (is_multicast_address ref.pub_sub ref.subscriptions) (as_sender role entry) in
      let done : change ref.address made (track ref s) ≡ t = ground arith in
      rw (← done) (change-Distinct ref.address made (track ref s) (track-Distinct ref s d))

  consume-Distinct :
      (ref : AddressRef) (s t : Tracker) → consume role ref s ≡ ok t → Distinct s → Distinct t
  unfolding consume
  consume-Distinct ref s t h d =
      let tracked = track-Distinct ref s d in
      elim (Bool-cases (is_multicast_address ref.pub_sub ref.subscriptions)) [
        | inl m ↦ rw (← topic (track ref s) (rw m at h)) (
            subscribe-Distinct ref ref.subscriptions _
              (change-Distinct ref.address (as_multicast true) _ tracked))
        | inr m ↦
            rw (← queue (track ref s) (rw m at h))
              (change-Distinct ref.address (as_consumer role) _ tracked)
      ]
    where
      topic :
          (u : Tracker)
          → consume_topic role ref u ≡ ok t
          → subscribe role ref ref.subscriptions (change ref.address (as_multicast true) u) ≡ t
      topic u g = unfold consume_topic in ground arith

      queue :
          (u : Tracker)
          → consume_queue role ref u ≡ ok t
          → change ref.address (as_consumer role) u ≡ t
      queue u g = unfold consume_queue in ground arith

  use_capability-Distinct :
      (c : AppCapabilityType) (s t : Tracker)
      → use_capability role c s ≡ ok t
      → Distinct s
      → Distinct t
  unfolding use_capability
  use_capability-Distinct c s t h d =
      let q = and_then-ok (each (produce role) c.producer_of s) _ h in
      each-inv (consume role) Distinct c.consumer_of (λ x u v _. consume-Distinct x u v) q.0 t q.2
        (each-inv (produce role) Distinct c.producer_of (λ x u v _. produce-Distinct x u v) s q.0
          q.1 d)

  pub track_app-Distinct :
      (spec : BrokerAppSpec) (t : Tracker) → track_app role spec ≡ ok t → Distinct t
  unfolding track_app
  track_app-Distinct spec t h =
      each-inv (use_capability role) Distinct spec.capabilities
        (λ x u v _. use_capability-Distinct x u v) _ t h
        (track_address_types-Distinct spec.shared_addresses _
          (track_address_types-Distinct spec.addresses [] tt))
