-- ===== src/App/Watch/Complete.antt =====
-- The watch of referenced apps, for the apps that depend on the one that changed.
use activemq_artemis_operato.Base.{
  ℕ, suc, String, ◌≡◌, ◌≢◌, ◌↔◌, Memᴰ, Bool-cases, inl, inr, refl, ap, ◌∙◌, Bool, true, false, ◌&&◌,
  Option, none, some, List, [], ◌∷◌, ◌==◌, any, arith, if◌then◌else◌,
}
use activemq_artemis_operato.Errors.{Error, Result, ok, err, list_error}
use activemq_artemis_operato.Api.{
  BrokerServiceBindingStatus, AddressRef, AppCapabilityType, BrokerApp, BrokerService,
}
use activemq_artemis_operato.Cluster.{Cluster, ConditionOps}
use activemq_artemis_operato.Ports.{same_app}
use activemq_artemis_operato.App.Checks.{
  lacks_app, dependency_error, placement_error, address_ref_error, capability_ref_error,
  check_address_ref_capacity,
}
use activemq_artemis_operato.App.Watch.{
  Request, request_of, is_ref_to, capability_refers_to, has_address_ref_to,
  should_propagate_watch_for_referenced_app, enqueue_apps_for_referenced_app,
}
use activemq_artemis_operato.App.Watch.Enqueued.{enqueue_apps_for_referenced_app_iff}

list_error_ext {ℓ} :
    {A : Type ℓ} (p : A → Bool) (f g : ℕ → A → Option Error)
    → ((i : ℕ) (x : A) → p x ≡ false → f i x ≡ g i x)
    → (i : ℕ) (xs : List A) → any p xs ≡ false
    → list_error f i xs ≡ list_error g i xs
unfolding list_error
list_error_ext p f g same i [] h = refl
list_error_ext p f g same i (x ∷ xs) h =
    rw (same i x (ground arith), list_error_ext p f g same (suc i) xs (ground arith)) refl

module _ (k : Cluster) (read : String → String → Result BrokerApp) (target : Request) where
  -- Both read every app but the target alike.
  abbrev pub AgreesApartFrom : Type 0
  AgreesApartFrom =
      (namespace name : String)
      → (namespace == target.0 && name == target.1) ≡ false
      → k.get_app namespace name ≡ read namespace name

  placement_error_same :
      (ref : AddressRef) (service : BrokerService) (app : BrokerApp)
      (b : Option BrokerServiceBindingStatus)
      → placement_error k ref service app b
        ≡ placement_error (record k { get_app = read }) ref service app b
  unfolding placement_error
  placement_error_same ref service app none = refl
  placement_error_same ref service app (some b) = refl

  dependency_error_same :
      (ref : AddressRef) (service : BrokerService) (r : Result BrokerApp)
      → dependency_error k ref service r
        ≡ dependency_error (record k { get_app = read }) ref service r
  unfolding dependency_error
  dependency_error_same ref service (ok app) =
      placement_error_same ref service app app.status.service
  dependency_error_same ref service (err e) = refl

  module _ (agrees : AgreesApartFrom) where
    address_ref_error_same :
        (service : BrokerService) (ref : AddressRef)
        → is_ref_to target ref ≡ false
        → address_ref_error k service ref
          ≡ address_ref_error (record k { get_app = read }) service ref
    unfolding address_ref_error
    address_ref_error_same service ref h =
        ap (λ r. if lacks_app ref then none else dependency_error k ref service r)
          (agrees ref.app_namespace ref.app_name h)
        ∙ ap (λ e. if lacks_app ref then none else e) (dependency_error_same ref service _)

    capability_ref_error_same :
        (service : BrokerService) (i : ℕ) (c : AppCapabilityType)
        → capability_refers_to target c ≡ false
        → capability_ref_error k service c
          ≡ capability_ref_error (record k { get_app = read }) service c
    unfolding capability_ref_error
    capability_ref_error_same service i c h =
        let all = λ (refs : List AddressRef) (h : any (is_ref_to target) refs ≡ false).
          list_error_ext (is_ref_to target) (λ _. address_ref_error k service)
            (λ _. address_ref_error (record k { get_app = read }) service)
            (λ i ref. address_ref_error_same service ref) 0 refs h in
        rw (all c.producer_of (ground arith), all c.consumer_of (ground arith)) refl

-- An app without a reference to another is checked alike, whatever the other one is.
pub check_address_ref_capacity_same :
    (k : Cluster) (read : String → String → Result BrokerApp) (target : Request) (app : BrokerApp)
    (service : BrokerService)
    → AgreesApartFrom k read target
    → has_address_ref_to app target ≡ false
    → check_address_ref_capacity k app service
      ≡ check_address_ref_capacity (record k { get_app = read }) app service
unfolding check_address_ref_capacity has_address_ref_to
check_address_ref_capacity_same k read target app service agrees h =
    list_error_ext (capability_refers_to target) (λ _. capability_ref_error k service)
      (λ _. capability_ref_error (record k { get_app = read }) service)
      (capability_ref_error_same k read target agrees service) 0 app.spec.capabilities h

-- Where a change of an app propagates to the watch, which it does for an app that is deleted or that is
-- valid and deployed at its generation, every other listed app whose check of references on a service
-- comes out otherwise once the changed app is read otherwise is enqueued. Of an app that is neither,
-- the watch makes no request, whatever depends on it.
pub enqueue_apps_for_referenced_app_complete :
    (k : Cluster) (c : ConditionOps) (read : String → String → Result BrokerApp)
    (changed app : BrokerApp) (apps : List BrokerApp) (service : BrokerService)
    → k.list_apps ≡ ok apps
    → AgreesApartFrom k read (request_of changed)
    → Memᴰ app apps
    → same_app app changed ≡ false
    → check_address_ref_capacity k app service
      ≢ check_address_ref_capacity (record k { get_app = read }) app service
    → Memᴰ (request_of app) (enqueue_apps_for_referenced_app k c changed)
      ↔ (should_propagate_watch_for_referenced_app c changed ≡ true)
enqueue_apps_for_referenced_app_complete k c read changed app apps service lists agrees member other
      differs =
    let requests = enqueue_apps_for_referenced_app_iff k c changed apps (request_of app) lists in
    (
      λ h. (requests.0 h).0,
      λ propagates. elim (Bool-cases (has_address_ref_to app (request_of changed))) [
        | inl refers ↦ requests.1 (propagates, (app, member, refl, other, refers))
        | inr no_ref ↦ absurd (
            differs (
              check_address_ref_capacity_same k read (request_of changed) app service agrees
                no_ref))
      ],
    )
