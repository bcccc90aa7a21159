-- ===== src/Service/Address/Granted/Used.antt =====
-- The address tracker of controllers/brokerservice_controller.go: what the uses of addresses by
-- capabilities make of it.
use activemq_artemis_operato.Base.{
  String, Bool, true, false, ◌&&◌, ◌||◌, List, [], ◌∷◌, ◌≡◌, sym, ap, ◌∙◌, ◌==◌, arith, any,
  if◌then◌else◌,
}
use activemq_artemis_operato.Errors.{Result, ok}
use activemq_artemis_operato.Loops.{and_then-ok, each}
use activemq_artemis_operato.Api.{AddressRef, AppCapabilityType}
use activemq_artemis_operato.App.Address.{is_local}
use activemq_artemis_operato.Service.Address.{
  AddressConfig, Tracker, as_multicast, as_sender, as_consumer, as_subscriber, change, track, fqqn,
  ref_at, produce, subscribe, consume_queue, consume_topic, consume, use_capability,
}
use activemq_artemis_operato.Service.Address.Granted.{
  Fact, owned_if, multicast_if, sent_by, consumed_by, subscribed_by, as_multicast-Makes,
  as_sender-Makes, as_consumer-Makes, as_subscriber-Makes, Makes-comp, known, known-change,
  known-track,
}
use activemq_artemis_operato.Service.Address.Granted.Terms.{
  is_multicast_ref, producer_claims, consumer_claims, capability_claims, regroup_two, regroup_pair,
  or_assoc, or_none, regroup_all, regroup_queue,
}

module _ (role : String) (fact : Fact) (a : String) where
  -- A loop over references makes of each what its body makes.
  pub known-each :
      {A : Type 0} (body : A → Tracker → Result Tracker) (claim : A → Bool)
      → ((x : A) (s t : Tracker) → body x s ≡ ok t → known fact a t ≡ (known fact a s || claim x))
      → (xs : List A) (s t : Tracker) → each body xs s ≡ ok t
      → known fact a t ≡ (known fact a s || any claim xs)
  unfolding each
  known-each body claim step [] s t h = let e : s ≡ t = ground arith in rw (← e) (or_none _)
  known-each body claim step (x ∷ xs) s t h =
      let q = and_then-ok (body x s) (λ t. each body xs t) h in
      known-each body claim step xs q.0 t q.2
      ∙ ap (λ y. y || any claim xs) (step x s q.0 q.1)
      ∙ or_assoc (known fact a s) (claim x) (any claim xs)

  known-produce :
      (ref : AddressRef) (s t : Tracker)
      → produce role ref s ≡ ok t
      → known fact a t ≡ (known fact a s || producer_claims role fact a ref)
  unfolding produce
  known-produce ref s t h =
      let m = is_multicast_ref ref in
      let made : AddressConfig → AddressConfig = λ entry. as_multicast m (as_sender role entry) in
      let done : change ref.address made (track ref s) ≡ t = ground arith in
      ap (known fact a) (sym done)
      ∙ known-change fact ref.address a (track ref s) made
          (sent_by role fact || multicast_if m fact)
          (Makes-comp fact (as_sender role) (as_multicast m) (sent_by role fact)
            (multicast_if m fact) (as_sender-Makes role fact) (as_multicast-Makes m fact))
      ∙ ap (λ x. x || (ref.address == a && (sent_by role fact || multicast_if m fact)))
          (known-track fact ref a s)
      ∙ regroup_pair (known fact a s) (ref.address == a) (owned_if (is_local ref) fact) _

  abbrev subscription_claims : AddressRef → String → Bool
  subscription_claims ref q =
      fqqn ref.address q == a
      && (owned_if (is_local ref) fact || (subscribed_by role fact || multicast_if true fact))

  known-subscribe :
      (ref : AddressRef) (qs : List String) (t : Tracker)
      → known fact a (subscribe role ref qs t)
        ≡ (known fact a t || any (subscription_claims ref) qs)
  unfolding subscribe
  known-subscribe ref [] t = or_none _
  known-subscribe ref (q ∷ qs) t =
      let name = fqqn ref.address q in
      let queue = ref_at name ref.app_namespace ref.app_name in
      let made : AddressConfig → AddressConfig =
        λ entry. as_multicast true (as_subscriber role entry) in
      let gained = subscribed_by role fact || multicast_if true fact in
      let step = known-change fact name a (track queue t) made gained (
        Makes-comp fact (as_subscriber role) (as_multicast true) (subscribed_by role fact)
          (multicast_if true fact) (as_subscriber-Makes role fact)
          (as_multicast-Makes true fact)) in
      known-subscribe ref qs (change name made (track queue t))
      ∙ ap (λ x. x || any (subscription_claims ref) qs)
          (step ∙ ap (λ x. x || (name == a && gained)) (known-track fact queue a t))
      ∙ regroup_two (known fact a t) (name == a) (owned_if (is_local ref) fact) gained _

  queue_tracker :
      (ref : AddressRef) (s t : Tracker)
      → consume_queue role ref s ≡ ok t
      → change ref.address (as_consumer role) s ≡ t
  unfolding consume_queue
  queue_tracker ref s t h = ground arith

  topic_tracker :
      (ref : AddressRef) (s t : Tracker)
      → consume_topic role ref s ≡ ok t
      → subscribe role ref ref.subscriptions (change ref.address (as_multicast true) s) ≡ t
  unfolding consume_topic
  topic_tracker ref s t h = ground arith

  consume_step :
      (ref : AddressRef) (s t : Tracker) (m : Bool)
      → (if m then consume_topic role ref (track ref s) else consume_queue role ref (track ref s))
        ≡ ok t
      → known fact a t ≡ (
          known fact a s
          || (ref.address == a
                && (owned_if (is_local ref) fact
                    || (if m then multicast_if true fact else consumed_by role fact))
              || m && any (subscription_claims ref) ref.subscriptions))
  consume_step ref s t true h =
      let multi = change ref.address (as_multicast true) (track ref s) in
      let queues = any (subscription_claims ref) ref.subscriptions in
      ap (known fact a) (sym (topic_tracker ref (track ref s) t h))
      ∙ known-subscribe ref ref.subscriptions multi
      ∙ ap (λ x. x || queues)
          (known-change fact ref.address a (track ref s) (as_multicast true)
              (multicast_if true fact) (as_multicast-Makes true fact)
            ∙ ap (λ x. x || (ref.address == a && multicast_if true fact))
                (known-track fact ref a s))
      ∙ regroup_all (known fact a s) (ref.address == a) (owned_if (is_local ref) fact)
          (multicast_if true fact) queues
  consume_step ref s t false h =
      ap (known fact a) (sym (queue_tracker ref (track ref s) t h))
      ∙ known-change fact ref.address a (track ref s) (as_consumer role) (consumed_by role fact)
          (as_consumer-Makes role fact)
      ∙ ap (λ x. x || (ref.address == a && consumed_by role fact)) (known-track fact ref a s)
      ∙ regroup_queue (known fact a s) (ref.address == a) (owned_if (is_local ref) fact)
          (consumed_by role fact) (any (subscription_claims ref) ref.subscriptions)

  known-consume :
      (ref : AddressRef) (s t : Tracker)
      → consume role ref s ≡ ok t
      → known fact a t ≡ (known fact a s || consumer_claims role fact a ref)
  unfolding consume
  known-consume ref s t h = consume_step ref s t (is_multicast_ref ref) h

  pub known-use_capability :
      (c : AppCapabilityType) (s t : Tracker)
      → use_capability role c s ≡ ok t
      → known fact a t ≡ (known fact a s || capability_claims role fact a c)
  unfolding use_capability
  known-use_capability c s t h =
      let q = and_then-ok (each (produce role) c.producer_of s) _ h in
      known-each (consume role) (consumer_claims role fact a) known-consume c.consumer_of q.0 t q.2
      ∙ ap (λ x. x || any (consumer_claims role fact a) c.consumer_of)
          (known-each (produce role) (producer_claims role fact a) known-produce c.producer_of s q.0
            q.1)
      ∙ or_assoc (known fact a s) (any (producer_claims role fact a) c.producer_of)
          (any (consumer_claims role fact a) c.consumer_of)
