-- ===== src/Examples/Provisioning.antt =====
-- The provisioning of apps by a service, on examples.
use activemq_artemis_operato.Base.{String, ◌≡◌, refl, [], ◌↔◌, Memᴰ, lookup, insert}
use activemq_artemis_operato.Errors.{Result, ok, err}
use activemq_artemis_operato.Loops.{each}
use activemq_artemis_operato.App.Address.{is_multicast_address}
use activemq_artemis_operato.Service.Address.{
  Tracker, entry_of, track, change, track_app, track_address_types, track_address_type,
  use_capability, produce, consume, consume_queue, consume_topic,
}
use activemq_artemis_operato.Service.Address.Granted.{Fact, holds_of}
use activemq_artemis_operato.Service.Address.Granted.Terms.{app_claims}
use activemq_artemis_operato.Service.Address.Granted.Claims.{track_app-claims}
use activemq_artemis_operato.Service.Properties.{
  may_send, may_consume, producer_role, consumer_role, properties_of,
}
use activemq_artemis_operato.Service.Properties.Rights.{Sends, Reads}
use activemq_artemis_operato.Service.Properties.Rights.Sending.{may_send_iff}
use activemq_artemis_operato.Service.Properties.Rights.Reading.{may_consume_iff}
use activemq_artemis_operato.Service.Acceptor.{OperatorCa}
use activemq_artemis_operato.Examples.{bound_orders}

-- The addresses of the app as the service tracks them.
abbrev or_nothing : Result Tracker → Tracker
or_nothing (ok t) = t
or_nothing (err e) = []

abbrev tracked : Tracker
tracked = or_nothing (track_app "shop-orders" bound_orders.spec)

orders_tracked : track_app "shop-orders" bound_orders.spec ≡ ok tracked
unfolding track_app each use_capability produce consume consume_queue consume_topic
    is_multicast_address track change track_address_types track_address_type entry_of lookup insert
orders_tracked = refl

track_app-claims_example :
    holds_of (Fact.sends "shop-orders") (entry_of "orders.in" tracked)
    ≡ app_claims "shop-orders" (Fact.sends "shop-orders") "orders.in" bound_orders.spec
track_app-claims_example =
    track_app-claims "shop-orders" (Fact.sends "shop-orders") "orders.in" bound_orders.spec tracked
      orders_tracked

may_send_iff_example :
    Memᴰ (may_send "orders.in" "shop-orders-producer") (properties_of "shop-orders" tracked) ↔ (
      ◌≡◌ {A = String} "shop-orders-producer" (producer_role "shop-orders")
      × Sends bound_orders.spec "orders.in")
may_send_iff_example =
    may_send_iff "shop-orders" "orders.in" "shop-orders-producer" bound_orders.spec tracked
      orders_tracked

may_consume_iff_example :
    Memᴰ (may_consume "prices" "shop-orders-consumer") (properties_of "shop-orders" tracked) ↔ (
      ◌≡◌ {A = String} "shop-orders-consumer" (consumer_role "shop-orders")
      × Reads bound_orders.spec "prices")
may_consume_iff_example =
    may_consume_iff "shop-orders" "prices" "shop-orders-consumer" bound_orders.spec tracked
      orders_tracked

abbrev pub known_ca : OperatorCa
known_ca = record { secret = ok "operator-ca"; key = ok "ca.pem" }
