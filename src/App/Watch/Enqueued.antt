-- ===== src/App/Watch/Enqueued.antt =====
-- The requests that a change of an app makes.
use activemq_artemis_operato.Base.{
  ◌≡◌, refl, sym, ap, true, false, List, [], ◌∷◌, ◌↔◌, keep, map, Memᴰ, Memᴰ-keep, keep-Memᴰ,
  Bool-cases, inl, inr, arith,
}
use mathlib.Core.Path.{subst}
use activemq_artemis_operato.Errors.{ok}
use activemq_artemis_operato.Api.{BrokerApp}
use activemq_artemis_operato.Cluster.{Cluster, ConditionOps}
use activemq_artemis_operato.Ports.{same_app}
use activemq_artemis_operato.App.Watch.{
  Request, request_of, should_propagate_watch_for_referenced_app, has_address_ref_to,
  is_consumer_of, consumers_in, enqueue_apps_for_referenced_app,
}

-- The request is for a listed app other than the changed one, that refers to it.
abbrev pub IsConsumer : BrokerApp → List BrokerApp → Request → Type 0
IsConsumer changed apps request =
    (app : BrokerApp) × Memᴰ app apps
    × (request_of app ≡ request)
    × (same_app app changed ≡ false)
    × (has_address_ref_to app (request_of changed) ≡ true)

map-Memᴰ :
    (apps : List BrokerApp) {r : Request}
    → Memᴰ r (map request_of apps)
    → (app : BrokerApp) × Memᴰ app apps × (request_of app ≡ r)
map-Memᴰ [] h = elim h [ ]
map-Memᴰ (x ∷ apps) (Memᴰ.head e) = (x, Memᴰ.head refl, sym e)
map-Memᴰ (x ∷ apps) (Memᴰ.tail h) = let (app, m, e) = map-Memᴰ apps h in (app, Memᴰ.tail m, e)

Memᴰ-map :
    {app : BrokerApp} {apps : List BrokerApp}
    → Memᴰ app apps
    → Memᴰ (request_of app) (map request_of apps)
Memᴰ-map (Memᴰ.head e) = Memᴰ.head (ap request_of e)
Memᴰ-map (Memᴰ.tail m) = Memᴰ.tail (Memᴰ-map m)

consumers_iff :
    (changed : BrokerApp) (apps : List BrokerApp) (request : Request)
    → Memᴰ request (consumers_in changed (ok apps)) ↔ IsConsumer changed apps request
unfolding consumers_in is_consumer_of
consumers_iff changed apps request = (
  λ h.
      let (app, kept, e) = map-Memᴰ (keep (is_consumer_of changed) apps) h in
      let (member, consumes) = Memᴰ-keep (is_consumer_of changed) apps kept in
      (app, member, e, ground arith, ground arith),
  λ (app, member, e, other, refers).
      subst (λ r. Memᴰ r (consumers_in changed (ok apps))) e
        (Memᴰ-map (keep-Memᴰ (is_consumer_of changed) member (ground arith))),
)

-- A request is made exactly where the change propagates and the request is for a listed app, other
-- than the changed one, with a reference to it.
pub enqueue_apps_for_referenced_app_iff :
    (k : Cluster) (c : ConditionOps) (changed : BrokerApp) (apps : List BrokerApp)
    (request : Request)
    → k.list_apps ≡ ok apps
    → Memᴰ request (enqueue_apps_for_referenced_app k c changed) ↔ (
        (should_propagate_watch_for_referenced_app c changed ≡ true)
        × IsConsumer changed apps request)
unfolding enqueue_apps_for_referenced_app
enqueue_apps_for_referenced_app_iff k c changed apps request lists =
    elim (Bool-cases (should_propagate_watch_for_referenced_app c changed)) [
      | inl e ↦
          rw (e, lists)
            (
              λ h. (refl, (consumers_iff changed apps request).0 h),
              λ (u, h). (consumers_iff changed apps request).1 h,
            )
      | inr e ↦ rw e (λ h. elim h [ ], λ (u, h). cc)
    ]
