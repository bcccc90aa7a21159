-- ===== src/App/Find/Choice.antt =====
-- The service that `findServiceWithCapacity` chooses.
use activemq_artemis_operato.Base.{
  ◌↔◌, All-Memᴰ, ℕ, ◌≡◌, refl, Option, none, some, List, [], ◌∷◌, arith, ℤ, negsuc, ◌≤ℤ◌, inl, inr,
  Memᴰ, All, All-imp,
}
use mathlib.Core.Path.{subst}
use activemq_artemis_operato.Errors.{Error, ok, err, Result-cases}
use activemq_artemis_operato.Api.{BrokerApp, BrokerService, Quantity}
use activemq_artemis_operato.Cluster.{Cluster, ConditionOps}
use activemq_artemis_operato.App.Checks.Memory.{get_available_memory-nonneg}
use activemq_artemis_operato.App.Find.{
  Search, start, search_services, chosen, find_service_with_capacity,
}
use activemq_artemis_operato.App.Find.Eligible.{Offers}
use activemq_artemis_operato.App.Find.Improves.{OffersAtMost, Improves, search_services-Improves}

module _ (k : Cluster) (c : ConditionOps) (app : BrokerApp) where
  -- The service is listed and offers the port with an amount of memory that no listed one passes.
  unfoldable pub BestOffer : List BrokerService → BrokerService → ℕ → Type 0
  BestOffer services b p =
      (v : ℤ) × Memᴰ b services × Offers k c app b v p × All (OffersAtMost k c app v) services

  same_service :
      (q : Option Quantity) (r : Search) {a b b' : BrokerService} {p : ℕ}
      → some a ≡ r.best_service
      → r.best_service ≡ some b'
      → chosen q r (some a) ≡ ok (b, p)
      → b' ≡ b
  unfolding chosen
  same_service q r e best h = cc

  same_port :
      (q : Option Quantity) (r : Search) (a : BrokerService) {b : BrokerService} {p : ℕ}
      → chosen q r (some a) ≡ ok (b, p)
      → r.best_service_port ≡ p
  unfolding chosen
  same_port q r a h = cc

  chosen-found :
      (services : List BrokerService) (q : Option Quantity) (r : Search) (o : Option BrokerService)
      {b : BrokerService} {p : ℕ}
      → Improves k c app services start r
      → o ≡ r.best_service
      → chosen q r o ≡ ok (b, p)
      → BestOffer services b p
  unfolding chosen BestOffer
  chosen-found services q r none i e h = cc
  chosen-found services q r (some a) {b} {p} i e h = elim i.origin [
    | inl (same, amount, port) ↦ cc
    | inr (b', best, mem, offers) ↦ (
      r.max_available,
      subst (λ z. Memᴰ z services) (same_service q r e best h) mem,
      subst (λ z. Offers k c app z r.max_available p) (same_service q r e best h)
          (subst (λ z. Offers k c app b' r.max_available z) (same_port q r a h) offers),
      i.covers,
    )
  ]

  find_service_with_capacity-found :
      (services : List BrokerService) {b : BrokerService} {p : ℕ}
      → find_service_with_capacity k c app services ≡ ok (b, p)
      → BestOffer services b p
  unfolding find_service_with_capacity
  find_service_with_capacity-found [] h = cc
  find_service_with_capacity-found (x ∷ services) h =
      chosen-found (x ∷ services) _ (search_services k c app (x ∷ services) start) _
        (search_services-Improves k c app (x ∷ services) start) refl h

  -- The service makes no offer.
  unfoldable pub NoOffer : BrokerService → Type 0
  NoOffer x = (v : ℤ) (p : ℕ) → ¬ Offers k c app x v p

  below_zero : (x : BrokerService) (v : ℤ) (p : ℕ) → v ≤ℤ negsuc 0 → ¬ Offers k c app x v p
  below_zero x v p h o = let n = get_available_memory-nonneg k app x o.memory in omega arith

  chosen-failed :
      (services : List BrokerService) (q : Option Quantity) (r : Search) (o : Option BrokerService)
      {e : Error}
      → Improves k c app services start r
      → o ≡ r.best_service
      → chosen q r o ≡ err e
      → All NoOffer services
  unfolding chosen NoOffer
  chosen-failed services q r (some a) i e h = cc
  chosen-failed services q r none i e h = elim i.origin [
    | inl (same, amount, port) ↦
        All-imp (OffersAtMost k c app r.max_available) NoOffer
          (λ x most v p o. below_zero x v p (subst (λ z. v ≤ℤ z) amount (most v p o)) o) services
          i.covers
    | inr (b', best, mem, offers) ↦ cc
  ]

  find_service_with_capacity-failed :
      (services : List BrokerService) {e : Error}
      → find_service_with_capacity k c app services ≡ err e
      → All NoOffer services
  unfolding find_service_with_capacity
  find_service_with_capacity-failed [] h = tt
  find_service_with_capacity-failed (x ∷ services) h =
      chosen-failed (x ∷ services) _ (search_services k c app (x ∷ services) start) _
        (search_services-Improves k c app (x ∷ services) start) refl h

-- The service chosen is of the list and offers the port; no service of the list offers more memory.
pub find_service_with_capacity_best :
    (k : Cluster) (c : ConditionOps) (app : BrokerApp) (services : List BrokerService)
    (b : BrokerService) (p : ℕ)
    → find_service_with_capacity k c app services ≡ ok (b, p)
    → BestOffer k c app services b p
find_service_with_capacity_best k c app services b p h =
    find_service_with_capacity-found k c app services h

-- No service is chosen exactly when none of the list offers the app a place.
pub find_service_with_capacity_fails_iff :
    (k : Cluster) (c : ConditionOps) (app : BrokerApp) (services : List BrokerService)
    → ((e : Error) × (find_service_with_capacity k c app services ≡ err e))
      ↔ All (NoOffer k c app) services
unfolding BestOffer NoOffer
find_service_with_capacity_fails_iff k c app services = (
  λ (e, h). find_service_with_capacity-failed k c app services h,
  λ none_offers. elim (Result-cases (find_service_with_capacity k c app services)) [
    | inl ((b, p), h) ↦
        let (v, member, offer, most) = find_service_with_capacity-found k c app services h in
        absurd (All-Memᴰ (NoOffer k c app) b member none_offers v p offer)
    | inr failed ↦ failed
  ],
)
