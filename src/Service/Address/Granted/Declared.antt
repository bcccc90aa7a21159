-- ===== src/Service/Address/Granted/Declared.antt =====
-- The address tracker of controllers/brokerservice_controller.go: what declared addresses make of it.
use activemq_artemis_operato.Base.{
  String, Bool, true, false, ◌&&◌, ◌||◌, List, [], ◌∷◌, ◌≡◌, refl, ap, ◌∙◌, ◌==◌, any,
  if◌then◌else◌,
}
use activemq_artemis_operato.Api.{AddressType}
use activemq_artemis_operato.App.Address.{is_multicast_address}
use activemq_artemis_operato.Service.Address.{
  Tracker, as_multicast, change, track, fqqn, ref_at, track_subscriptions, track_address_type,
  track_address_types,
}
use activemq_artemis_operato.Service.Address.Granted.{
  Fact, owned_if, multicast_if, as_multicast-Makes, known, known-change, known-track,
}
use activemq_artemis_operato.Service.Address.Granted.Terms.{
  declaration_claims, regroup_two, or_assoc, or_none, only_owned, regroup_all,
}

module _ (role : String) (fact : Fact) (a : String) where
  known-track_subscriptions :
      (address : String) (qs : List String) (t : Tracker)
      → known fact a (track_subscriptions address qs t) ≡ (
          known fact a t
          || any (λ q. fqqn address q == a && (owned_if true fact || multicast_if true fact)) qs)
  unfolding track_subscriptions
  known-track_subscriptions address [] t = or_none _
  known-track_subscriptions address (q ∷ qs) t =
      let name = fqqn address q in
      let tracked = track (ref_at name "" "") t in
      let own = known-track fact (ref_at name "" "") a t in
      let step =
        known-change fact name a tracked (as_multicast true) (multicast_if true fact)
          (as_multicast-Makes true fact) in
      known-track_subscriptions address qs (change name (as_multicast true) tracked)
      ∙ ap
          (λ x.
            x
            || any (λ q. fqqn address q == a && (owned_if true fact || multicast_if true fact)) qs)
          (step ∙ ap (λ x. x || (name == a && multicast_if true fact)) own)
      ∙ regroup_two (known fact a t) (name == a) (owned_if true fact) (multicast_if true fact) _

  not_multicast : multicast_if false fact ≡ false
  not_multicast = elim fact as (λ k. multicast_if false k ≡ false) [
    | Fact.sends r ↦ refl
    | Fact.consumes r ↦ refl
    | Fact.subscribes r ↦ refl
    | Fact.owned ↦ refl
    | Fact.multicast ↦ refl
  ]

  declared_step :
      (d : AddressType) (t : Tracker) (m : Bool)
      → known fact a (
          let tracked = track (ref_at d.address "" "") t in
          if m
          then track_subscriptions d.address d.subscriptions
              (change d.address (as_multicast true) tracked)
          else tracked)
        ≡ (known fact a t
            || (d.address == a && (owned_if true fact || multicast_if m fact)
                || m
                  && any
                      (λ q. fqqn d.address q == a && (owned_if true fact || multicast_if true fact))
                      d.subscriptions))
  declared_step d t true =
      let tracked = track (ref_at d.address "" "") t in
      let multi = change d.address (as_multicast true) tracked in
      let step =
        known-change fact d.address a tracked (as_multicast true) (multicast_if true fact)
          (as_multicast-Makes true fact) in
      let queues =
        any (λ q. fqqn d.address q == a && (owned_if true fact || multicast_if true fact))
          d.subscriptions in
      known-track_subscriptions d.address d.subscriptions multi
      ∙ ap (λ x. x || queues)
          (step
            ∙ ap (λ x. x || (d.address == a && multicast_if true fact))
                (known-track fact (ref_at d.address "" "") a t))
      ∙ regroup_all (known fact a t) (d.address == a) (owned_if true fact) (multicast_if true fact)
          queues
  declared_step d t false =
      known-track fact (ref_at d.address "" "") a t
      ∙ only_owned (known fact a t) (d.address == a) (owned_if true fact) (multicast_if false fact)
          (any (λ q. fqqn d.address q == a && (owned_if true fact || multicast_if true fact))
            d.subscriptions)
          not_multicast

  known-track_address_type :
      (d : AddressType) (t : Tracker)
      → known fact a (track_address_type d t) ≡ (known fact a t || declaration_claims role fact a d)
  unfolding track_address_type
  known-track_address_type d t = declared_step d t (is_multicast_address d.pub_sub d.subscriptions)

  pub known-track_address_types :
      (ds : List AddressType) (t : Tracker)
      → known fact a (track_address_types ds t)
        ≡ (known fact a t || any (declaration_claims role fact a) ds)
  unfolding track_address_types
  known-track_address_types [] t = or_none _
  known-track_address_types (d ∷ ds) t =
      known-track_address_types ds (track_address_type d t)
      ∙ ap (λ x. x || any (declaration_claims role fact a) ds) (known-track_address_type d t)
      ∙ or_assoc (known fact a t) (declaration_claims role fact a d)
          (any (declaration_claims role fact a) ds)
