-- ===== src/Service/Address/Granted/Terms.antt =====
-- What an app claims of an address of controllers/brokerservice_controller.go: a description that keeps
-- no state and knows no order.
use activemq_artemis_operato.Base.{
  String, Bool, true, false, ◌&&◌, ◌||◌, ◌≡◌, ◌==◌, arith, any, if◌then◌else◌,
}
use activemq_artemis_operato.Api.{AddressType, AddressRef, AppCapabilityType, BrokerAppSpec}
use activemq_artemis_operato.App.Address.{is_multicast_address, is_local}
use activemq_artemis_operato.Service.Address.{fqqn}
use activemq_artemis_operato.Service.Address.Granted.{
  Fact, owned_if, multicast_if, sent_by, consumed_by, subscribed_by,
}

abbrev pub is_multicast_ref : AddressRef → Bool
is_multicast_ref ref = is_multicast_address ref.pub_sub ref.subscriptions

module _ (role : String) (fact : Fact) (a : String) where
  -- What a declared address claims.
  abbrev pub declaration_claims : AddressType → Bool
  declaration_claims d =
      let m = is_multicast_address d.pub_sub d.subscriptions in
      d.address == a && (owned_if true fact || multicast_if m fact)
      || m
        && any (λ q. fqqn d.address q == a && (owned_if true fact || multicast_if true fact))
            d.subscriptions

  -- What a producer of an address claims.
  abbrev pub producer_claims : AddressRef → Bool
  producer_claims ref =
      ref.address == a
      && (owned_if (is_local ref) fact
          || (sent_by role fact || multicast_if (is_multicast_ref ref) fact))

  -- What a consumer claims: of the address, and of a queue for each subscription to a multicast one.
  abbrev pub consumer_claims : AddressRef → Bool
  consumer_claims ref =
      let m = is_multicast_ref ref in
      ref.address == a
        && (owned_if (is_local ref) fact
            || (if m then multicast_if true fact else consumed_by role fact))
      || m
        && any
            (λ q.
              fqqn ref.address q == a
              && (owned_if (is_local ref) fact
                  || (subscribed_by role fact || multicast_if true fact)))
            ref.subscriptions

  abbrev pub capability_claims : AppCapabilityType → Bool
  capability_claims c = any producer_claims c.producer_of || any consumer_claims c.consumer_of

  -- What an app claims of an address.
  abbrev pub app_claims : BrokerAppSpec → Bool
  app_claims spec =
      (any declaration_claims spec.addresses || any declaration_claims spec.shared_addresses)
      || any capability_claims spec.capabilities

pub regroup_two :
    (k e o m r : Bool) → (((k || (e && o)) || (e && m)) || r) ≡ (k || ((e && (o || m)) || r))
regroup_two k e o m r = ground arith

pub regroup_pair : (k e o m : Bool) → ((k || (e && o)) || (e && m)) ≡ (k || (e && (o || m)))
regroup_pair k e o m = ground arith

pub or_assoc : (x y z : Bool) → ((x || y) || z) ≡ (x || (y || z))
or_assoc x y z = ground arith

pub or_none : (x : Bool) → x ≡ (x || false)
or_none x = ground arith

pub only_owned :
    (k e o n x : Bool) → n ≡ false → (k || (e && o)) ≡ (k || (e && (o || n) || false && x))
only_owned k e o n x h = ground arith

pub regroup_all :
    (k e o m r : Bool) → (((k || (e && o)) || (e && m)) || r) ≡ (k || (e && (o || m) || true && r))
regroup_all k e o m r = ground arith

pub regroup_queue :
    (k e o c x : Bool) → ((k || (e && o)) || (e && c)) ≡ (k || (e && (o || c) || false && x))
regroup_queue k e o c x = ground arith
