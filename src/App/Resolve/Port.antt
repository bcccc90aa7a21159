-- ===== src/App/Resolve/Port.antt =====
-- The port that a placed app gets.
use activemq_artemis_operato.Base.{
  ℕ, ◌≡◌, ◌∙◌, sym, true, false, some, List, Memᴰ, any, any-false, ◌≤◌, ◌<◌, arith,
}
use activemq_artemis_operato.Errors.{ok}
use activemq_artemis_operato.Api.{BrokerApp, BrokerService}
use activemq_artemis_operato.Cluster.{Cluster, ConditionOps}
use activemq_artemis_operato.Ports.{default_start_port, max_valid_port}
use activemq_artemis_operato.Ports.Assign.{assign_next_available_port-IsLeastFree}
use activemq_artemis_operato.Ports.Used.{uses_port, has_port-collect_used_ports}
use activemq_artemis_operato.App.Checks.{list_other_apps_for_service}
use activemq_artemis_operato.App.Find.{find_service_with_capacity}
use activemq_artemis_operato.App.Find.Choice.{BestOffer, find_service_with_capacity_best}

-- The port lies in the range, none of the apps of the service holds it, and every port of the range
-- below it is held by one.
pub record FreePort (app : BrokerApp) (apps : List BrokerApp) (port : ℕ) : Type 0 where
  pub above : default_start_port ≤ port
  pub below : port ≤ max_valid_port
  pub free : (other : BrokerApp) → Memᴰ other apps → uses_port (some app) port other ≡ false
  pub least : (q : ℕ) → default_start_port ≤ q → q < port → any (uses_port (some app) q) apps ≡ true

-- The port chosen with a service is free there: no other app bound to the service holds it, it lies
-- from 61616 to 65535, and it is the least such port.
pub find_service_with_capacity_port :
    (k : Cluster) (c : ConditionOps) (app : BrokerApp) (services : List BrokerService)
    (b : BrokerService) (p : ℕ)
    → find_service_with_capacity k c app services ≡ ok (b, p)
    → (apps : List BrokerApp) × (list_other_apps_for_service k app b ≡ ok apps)
      × FreePort app apps p
unfolding BestOffer
find_service_with_capacity_port k c app services b p h =
    let (v, member, offer, most) = find_service_with_capacity_best k c app services b p h in
    let least = assign_next_available_port-IsLeastFree _ offer.free in
    (
      offer.apps,
      offer.listed,
      record {
        above = least.above;
        below = omega (arith, least.below);
        free = λ other m.
            any-false (uses_port (some app) p)
              (sym (has_port-collect_used_ports p offer.apps (some app)) ∙ least.free) m;
        least = λ q lo hi.
            sym (has_port-collect_used_ports q offer.apps (some app)) ∙ least.taken q lo hi;
      },
    )
