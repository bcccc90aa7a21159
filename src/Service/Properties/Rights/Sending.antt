-- ===== src/Service/Properties/Rights/Sending.antt =====
-- Who may send to an address: `processCapabilities` of controllers/brokerservice_controller.go.
use activemq_artemis_operato.Base.{
  String, Bool, true, false, ◌&&◌, ◌||◌, ◌≡◌, sym, ap, ◌∙◌, ◌==◌, eq_iff, eq_refl, ◌↔◌, inl, inr,
  arith, any, any-true, Memᴰ-any, Memᴰ, Memᴰ-has, has-Memᴰ, if◌then◌else◌,
}
use activemq_artemis_operato.Errors.{ok}
use activemq_artemis_operato.Api.{AddressType, AddressRef, BrokerAppSpec}
use activemq_artemis_operato.App.Address.{is_multicast_address}
use activemq_artemis_operato.Service.Address.{Tracker, entry_of, fqqn, track_app}
use activemq_artemis_operato.Service.Address.Keys.{track_app-Distinct}
use activemq_artemis_operato.Service.Address.Granted.{Fact, holds_of}
use activemq_artemis_operato.Service.Address.Granted.Terms.{
  is_multicast_ref, declaration_claims, producer_claims, consumer_claims, app_claims,
}
use activemq_artemis_operato.Service.Address.Granted.Claims.{track_app-claims}
use activemq_artemis_operato.Service.Properties.{
  Property, routing_types, queue_routing_type, queue_address, may_send, may_consume, may_view,
  producer_role, properties_of,
}
use activemq_artemis_operato.Service.Properties.Permissions.{is_send}
use activemq_artemis_operato.Service.Properties.Permissions.Granted.{any-send}
use activemq_artemis_operato.Service.Properties.Rights.{
  Sends, or_cases, or_left, never, of_capability, by_capability, any_no, nothing, and_nothing,
}

-- A declaration gives no right to send or to read.
no_sends :
    (role r a : String) (d : AddressType) → declaration_claims role (Fact.sends r) a d ≡ false
no_sends role r a d =
    nothing (d.address == a) (is_multicast_address d.pub_sub d.subscriptions)
      (any (λ q. fqqn d.address q == a && (false || false)) d.subscriptions)
      (any_no (λ q. fqqn d.address q == a && (false || false)) d.subscriptions
        (λ q. and_nothing (fqqn d.address q == a)))

consumer_sends_not :
    (e m q : Bool) → q ≡ false → (e && (false || (if m then false else false)) || m && q) ≡ false
consumer_sends_not e true q h = ground arith
consumer_sends_not e false q h = ground arith

and_nothing_three : (e : Bool) → (e && (false || (false || false))) ≡ false
and_nothing_three e = ground arith

no_consumer_sends :
    (role r a : String) (ref : AddressRef) → consumer_claims role (Fact.sends r) a ref ≡ false
no_consumer_sends role r a ref =
    consumer_sends_not (ref.address == a) (is_multicast_ref ref)
      (any (λ q. fqqn ref.address q == a && (false || (false || false))) ref.subscriptions)
      (any_no (λ q. fqqn ref.address q == a && (false || (false || false))) ref.subscriptions
        (λ q. and_nothing_three (fqqn ref.address q == a)))

sender_parts : (e s : Bool) → (e && (false || (s || false))) ≡ true → (e ≡ true) × (s ≡ true)
sender_parts e s h = (ground arith, ground arith)

sender_whole : (e s : Bool) → e ≡ true → s ≡ true → (e && (false || (s || false))) ≡ true
sender_whole e s h g = ground arith

claims-Sends :
    (role r a : String) (spec : BrokerAppSpec)
    → app_claims role (Fact.sends r) a spec ≡ true
    → (role ≡ r) × Sends spec a
claims-Sends role r a spec h =
    let by = of_capability role (Fact.sends r) a spec (no_sends role r a) h in
    elim (or_cases _ _ by.2) [
      | inl produces ↦
          let ref = any-true (producer_claims role (Fact.sends r) a) by.0.producer_of produces in
          let parts = sender_parts (ref.0.address == a) (role == r) ref.2 in
          (
            (eq_iff role r).0 parts.1,
            (by.0, by.1, (ref.0, ref.1, (eq_iff ref.0.address a).0 parts.0)),
          )
      | inr consumes ↦ absurd (
          never (consumer_claims role (Fact.sends r) a) by.0.consumer_of
            (no_consumer_sends role r a) consumes)
    ]

Sends-claims :
    (role a : String) (spec : BrokerAppSpec)
    → Sends spec a
    → app_claims role (Fact.sends role) a spec ≡ true
Sends-claims role a spec (c, m, (ref, i, e)) = by_capability role (Fact.sends role) a spec c m (
    or_left (any (producer_claims role (Fact.sends role) a) c.producer_of)
      (any (consumer_claims role (Fact.sends role) a) c.consumer_of)
      (Memᴰ-any (producer_claims role (Fact.sends role) a) i (
        sender_whole (ref.address == a) (role == role) ((eq_iff ref.address a).1 e)
          (eq_refl role))))

is_send-eq : (a r : String) (p : Property) → is_send a r p ≡ true → p ≡ may_send a r
is_send-eq a r (routing_types x y) h = cc
is_send-eq a r (queue_routing_type x y z) h = cc
is_send-eq a r (queue_address x y) h = cc
is_send-eq a r (may_send x y) h = ground (arith, eq_iff x a, eq_iff y r)
is_send-eq a r (may_consume x y) h = cc
is_send-eq a r (may_view x y z) h = cc

-- Where the app's uses do not conflict, a role may send to an address exactly when it is the app's
-- role for producers and a capability of the app produces to the address.
pub may_send_iff :
    (identity a r : String) (spec : BrokerAppSpec) (t : Tracker)
    → track_app identity spec ≡ ok t
    → Memᴰ (may_send a r) (properties_of identity t) ↔ ((r ≡ producer_role identity) × Sends spec a)
unfolding holds_of
may_send_iff identity a r spec t h =
    let d = track_app-Distinct identity spec t h in
    let named : String → Bool = λ role. producer_role role == r in
    let senders = (entry_of a t).sender_roles in
    (
      λ m.
          let found = any-true named senders (
            sym (any-send a r identity t d)
            ∙ Memᴰ-any (is_send a r) m (ground (arith, eq_refl a, eq_refl r))) in
          let known =
            claims-Sends identity found.0 a spec (
              sym (track_app-claims identity (Fact.sends found.0) a spec t h) ∙ Memᴰ-has found.1) in
          (
            sym ((eq_iff (producer_role found.0) r).0 found.2) ∙ ap producer_role (sym known.0),
            known.1,
          ),
      λ p.
          let mine = has-Memᴰ identity senders (
            track_app-claims identity (Fact.sends identity) a spec t h
            ∙ Sends-claims identity a spec p.1) in
          let q = any-true (is_send a r) (properties_of identity t) (
            any-send a r identity t d
            ∙ Memᴰ-any named mine ((eq_iff (producer_role identity) r).1 (sym p.0))) in
          rw (← is_send-eq a r q.0 q.2) q.1,
    )
