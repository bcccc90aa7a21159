-- ===== src/Service/Metrics/Queues.antt =====
-- The queues whose metrics are exported, by what apps produce to and consume from:
-- `processControlPlaneOverrideSecret` of controllers/brokerservice_controller.go.
use activemq_artemis_operato.Base.{
  String, Bool, false, ◌||◌, List, [], ◌∷◌, ◌≡◌, ap, ◌∙◌, ◌==◌, arith, any, has, add, has-add,
  Bool-cases, inl, inr, if◌then◌else◌,
}
use activemq_artemis_operato.Api.{AddressRef, AppCapabilityType, BrokerApp}
use activemq_artemis_operato.App.Address.{is_multicast_address}
use activemq_artemis_operato.Service.Address.{fqqn}
use activemq_artemis_operato.Service.Metrics.{
  add_subscriptions, add_ref, add_refs, add_capabilities, app_queues,
}

-- The queues of a reference: its address or, where that is multicast, those of its subscriptions.
abbrev pub ref_has : String → AddressRef → Bool
ref_has q ref =
    if is_multicast_address ref.pub_sub ref.subscriptions
    then any (λ s. fqqn ref.address s == q) ref.subscriptions
    else ref.address == q

abbrev pub capability_has : String → AppCapabilityType → Bool
capability_has q c = any (ref_has q) c.consumer_of || any (ref_has q) c.producer_of

module _ (q : String) where
  swap_or : (a b c : Bool) → ((a || b) || c) ≡ (b || (a || c))
  swap_or a b c = ground arith

  or_assoc : (a b c : Bool) → ((a || b) || c) ≡ (a || (b || c))
  or_assoc a b c = ground arith

  or_comm : (a b : Bool) → (a || b) ≡ (b || a)
  or_comm a b = ground arith

  or_none : (a : Bool) → a ≡ (a || false)
  or_none a = ground arith

  has-add_subscriptions :
      (address : String) (ss queues : List String)
      → has q (add_subscriptions address ss queues)
        ≡ (has q queues || any (λ s. fqqn address s == q) ss)
  unfolding add_subscriptions
  has-add_subscriptions address [] queues = or_none (has q queues)
  has-add_subscriptions address (s ∷ ss) queues =
      has-add_subscriptions address ss (add (fqqn address s) queues)
      ∙ ap (λ b. b || any (λ s. fqqn address s == q) ss) (has-add (fqqn address s) q queues)
      ∙ swap_or (fqqn address s == q) (has q queues) (any (λ s. fqqn address s == q) ss)

  has-add_ref :
      (ref : AddressRef) (queues : List String)
      → has q (add_ref ref queues) ≡ (has q queues || ref_has q ref)
  unfolding add_ref
  has-add_ref ref queues = elim (Bool-cases (is_multicast_address ref.pub_sub ref.subscriptions)) [
    | inl m ↦ rw m (has-add_subscriptions ref.address ref.subscriptions queues)
    | inr m ↦ rw m (has-add ref.address q queues ∙ or_comm (ref.address == q) (has q queues))
  ]

  has-add_refs :
      (refs : List AddressRef) (queues : List String)
      → has q (add_refs refs queues) ≡ (has q queues || any (ref_has q) refs)
  unfolding add_refs
  has-add_refs [] queues = or_none (has q queues)
  has-add_refs (ref ∷ refs) queues =
      has-add_refs refs (add_ref ref queues)
      ∙ ap (λ b. b || any (ref_has q) refs) (has-add_ref ref queues)
      ∙ or_assoc (has q queues) (ref_has q ref) (any (ref_has q) refs)

  has-add_capabilities :
      (cs : List AppCapabilityType) (queues : List String)
      → has q (add_capabilities cs queues) ≡ (has q queues || any (capability_has q) cs)
  unfolding add_capabilities
  has-add_capabilities [] queues = or_none (has q queues)
  has-add_capabilities (c ∷ cs) queues =
      has-add_capabilities cs (add_refs c.producer_of (add_refs c.consumer_of queues))
      ∙ ap (λ b. b || any (capability_has q) cs)
          (has-add_refs c.producer_of (add_refs c.consumer_of queues)
            ∙ ap (λ b. b || any (ref_has q) c.producer_of) (has-add_refs c.consumer_of queues)
            ∙ or_assoc (has q queues) (any (ref_has q) c.consumer_of)
                (any (ref_has q) c.producer_of))
      ∙ or_assoc (has q queues) (capability_has q c) (any (capability_has q) cs)

  has-app_queues_from :
      (apps : List BrokerApp) (queues : List String)
      → has q (app_queues apps queues)
        ≡ (has q queues || any (λ app. any (capability_has q) app.spec.capabilities) apps)
  unfolding app_queues
  has-app_queues_from [] queues = or_none (has q queues)
  has-app_queues_from (app ∷ apps) queues =
      has-app_queues_from apps (add_capabilities app.spec.capabilities queues)
      ∙ ap (λ b. b || any (λ app. any (capability_has q) app.spec.capabilities) apps)
          (has-add_capabilities app.spec.capabilities queues)
      ∙ or_assoc (has q queues) (any (capability_has q) app.spec.capabilities) _

-- The queues whose metrics are exported are exactly those that a capability of one of the apps names:
-- a plain address, or the queue of a subscription to a multicast one.
pub has-app_queues :
    (q : String) (apps : List BrokerApp)
    → has q (app_queues apps []) ≡ any (λ app. any (capability_has q) app.spec.capabilities) apps
has-app_queues q apps = unfold has in has-app_queues_from q apps []
