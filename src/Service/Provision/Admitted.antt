-- ===== src/Service/Provision/Admitted.antt =====
-- Which apps `processAppSecrets` of controllers/brokerservice_controller.go provisions and which it
-- rejects.
use activemq_artemis_operato.Base.{
  String, Bool, true, false, Option, none, some, List, [], ◌∷◌, ◌++◌, ◌≡◌, refl, sym, ap, ◌∙◌, map,
  inl, inr, arith, Bool-cases, Option-cases, if◌then◌else◌,
}
use mathlib.Core.List.{append-nil, append_assoc, map-append}
use activemq_artemis_operato.Errors.{Error}
use activemq_artemis_operato.Api.{BrokerApp, BrokerService, RejectedApp}
use activemq_artemis_operato.App.Status.{app_identity}
use activemq_artemis_operato.App.Validate.{resource_name_error}
use activemq_artemis_operato.Service.Acceptor.{process_acceptor, Files}
use activemq_artemis_operato.Service.Provision.{
  Platform, validate_app_for_provisioning, process_capabilities, Provision, after_acceptor,
  after_capabilities, admit, rejection, judge, provision_app, provision_apps,
}

module _ (u : Platform) (service : BrokerService) where
  -- The app passes the checks of the service.
  abbrev pub is_admitted : BrokerApp → Bool
  is_admitted app = (validate_app_for_provisioning u service app).0

  abbrev pub rejection_of : BrokerApp → RejectedApp
  rejection_of app = rejection u service app (validate_app_for_provisioning u service app).1

  -- The apps that pass, and the reports on those that do not, in the order of the list.
  abbrev pub admitted : List BrokerApp → List BrokerApp
  admitted [] = []
  admitted (app ∷ apps) = if is_admitted app then app ∷ admitted apps else admitted apps

  abbrev pub rejections : List BrokerApp → List RejectedApp
  rejections [] = []
  rejections (app ∷ apps) =
      if is_admitted app then rejections apps else rejection_of app ∷ rejections apps

  -- What a loop without an error leaves.
  pub record Sorted (apps : List BrokerApp) (before after : Provision) : Type 0 where
    pub valid : after.valid ≡ before.valid ++ admitted apps
    pub identities : after.identities ≡ before.identities ++ map app_identity (admitted apps)
    pub rejected : after.rejected ≡ before.rejected ++ rejections apps

  -- A round without an error, on an app that passes.
  after_acceptor-valid :
      (app : BrokerApp) (s : Provision) (done : Files × Option Error)
      → (after_acceptor u service app s done).error ≡ none
      → s.error ≡ none
      → ((after_acceptor u service app s done).valid ≡ s.valid ++ app ∷ [])
        × ((after_acceptor u service app s done).identities ≡ s.identities ++ app_identity app ∷ [])
        × ((after_acceptor u service app s done).rejected ≡ s.rejected)
  unfolding after_acceptor
  after_acceptor-valid app s (files, none) h e = (refl, refl, refl)
  after_acceptor-valid app s (files, some x) h e = absurd (ground arith)

  after_capabilities-valid :
      (app : BrokerApp) (s : Provision) (done : Files × Option Error)
      → (after_capabilities u service app s done).error ≡ none
      → s.error ≡ none
      → ((after_capabilities u service app s done).valid ≡ s.valid ++ app ∷ [])
        × ((after_capabilities u service app s done).identities
            ≡ s.identities ++ app_identity app ∷ [])
        × ((after_capabilities u service app s done).rejected ≡ s.rejected)
  unfolding after_capabilities
  after_capabilities-valid app s (files, none) h e =
      after_acceptor-valid app s (process_acceptor u.operator_ca service.name app files) h e
  after_capabilities-valid app s (files, some x) h e = absurd (ground arith)

  admit-valid :
      (app : BrokerApp) (s : Provision) (name : Option Error)
      → (admit u service app s name).error ≡ none
      → s.error ≡ none
      → ((admit u service app s name).valid ≡ s.valid ++ app ∷ [])
        × ((admit u service app s name).identities ≡ s.identities ++ app_identity app ∷ [])
        × ((admit u service app s name).rejected ≡ s.rejected)
  unfolding admit
  admit-valid app s none h e = after_capabilities-valid app s (process_capabilities app s.files) h e
  admit-valid app s (some x) h e = absurd (ground arith)

  yes_admitted : (app : BrokerApp) → is_admitted app ≡ true → admitted (app ∷ []) ≡ app ∷ []
  yes_admitted app h = rw h refl

  yes_rejections : (app : BrokerApp) → is_admitted app ≡ true → rejections (app ∷ []) ≡ []
  yes_rejections app h = rw h refl

  not_admitted : (app : BrokerApp) → is_admitted app ≡ false → admitted (app ∷ []) ≡ []
  not_admitted app h = rw h refl

  not_rejections :
      (app : BrokerApp) → is_admitted app ≡ false → rejections (app ∷ []) ≡ rejection_of app ∷ []
  not_rejections app h = rw h refl

  judged :
      (app : BrokerApp) (s : Provision) (v : Bool × String)
      → validate_app_for_provisioning u service app ≡ v
      → (judge u service app s v).error ≡ none
      → s.error ≡ none
      → Sorted (app ∷ []) s (judge u service app s v)
  unfolding judge
  judged app s (true, reason) e h g =
      let is : is_admitted app ≡ true = ap (λ p. p.0) e in
      let done = admit-valid app s (resource_name_error app.name) h g in
      record {
        valid = done.0 ∙ ap (λ l. s.valid ++ l) (sym (yes_admitted app is));
        identities =
            done.1 ∙ ap (λ l. s.identities ++ map app_identity l) (sym (yes_admitted app is));
        rejected =
            done.2
            ∙ sym (append-nil s.rejected)
            ∙ ap (λ l. s.rejected ++ l) (sym (yes_rejections app is));
      }
  judged app s (false, reason) e h g =
      let is : is_admitted app ≡ false = ap (λ p. p.0) e in
      record {
        valid = sym (append-nil s.valid) ∙ ap (λ l. s.valid ++ l) (sym (not_admitted app is));
        identities =
            sym (append-nil s.identities)
            ∙ ap (λ l. s.identities ++ map app_identity l) (sym (not_admitted app is));
        rejected =
            ap (λ p. s.rejected ++ rejection u service app p.1 ∷ []) (sym e)
            ∙ ap (λ l. s.rejected ++ l) (sym (not_rejections app is));
      }

  admitted_cons :
      (app : BrokerApp) (apps : List BrokerApp)
      → admitted (app ∷ []) ++ admitted apps ≡ admitted (app ∷ apps)
  admitted_cons app apps = elim (Bool-cases (is_admitted app)) [
    | inl h ↦ rw h refl
    | inr h ↦ rw h refl
  ]

  rejections_cons :
      (app : BrokerApp) (apps : List BrokerApp)
      → rejections (app ∷ []) ++ rejections apps ≡ rejections (app ∷ apps)
  rejections_cons app apps = elim (Bool-cases (is_admitted app)) [
    | inl h ↦ rw h refl
    | inr h ↦ rw h refl
  ]

  Sorted-comp :
      (app : BrokerApp) (apps : List BrokerApp) (s t w : Provision)
      → Sorted (app ∷ []) s t
      → Sorted apps t w
      → Sorted (app ∷ apps) s w
  Sorted-comp app apps s t w one rest = record {
    valid =
        rest.valid
        ∙ ap (λ l. l ++ admitted apps) one.valid
        ∙ append_assoc s.valid (admitted (app ∷ [])) (admitted apps)
        ∙ ap (λ l. s.valid ++ l) (admitted_cons app apps);
    identities =
        rest.identities
        ∙ ap (λ l. l ++ map app_identity (admitted apps)) one.identities
        ∙ append_assoc s.identities (map app_identity (admitted (app ∷ [])))
            (map app_identity (admitted apps))
        ∙ ap (λ l. s.identities ++ l)
            (sym (map-append app_identity (admitted (app ∷ [])) (admitted apps))
              ∙ ap (map app_identity) (admitted_cons app apps));
    rejected =
        rest.rejected
        ∙ ap (λ l. l ++ rejections apps) one.rejected
        ∙ append_assoc s.rejected (rejections (app ∷ [])) (rejections apps)
        ∙ ap (λ l. s.rejected ++ l) (rejections_cons app apps);
  }

  -- A loop that ends without an error provisions exactly the apps that pass the checks of the service,
  -- and reports each of the others with the reason, both in the order of the list.
  pub provision_apps-Sorted :
      (apps : List BrokerApp) (s : Provision)
      → s.error ≡ none
      → (provision_apps u service apps s).error ≡ none
      → Sorted apps s (provision_apps u service apps s)
  unfolding provision_apps provision_app judge
  provision_apps-Sorted [] s g h = record {
    valid = sym (append-nil s.valid);
    identities = sym (append-nil s.identities);
    rejected = sym (append-nil s.rejected);
  }
  provision_apps-Sorted (app ∷ apps) s g h =
      let verdict = validate_app_for_provisioning u service app in
      let next = judge u service app s verdict in
      elim (Option-cases next.error) [
        | inl good ↦ rw good (
            Sorted-comp app apps s next (provision_apps u service apps next)
              (judged app s verdict refl good g)
              (provision_apps-Sorted apps next good (rw good at h)))
        | inr bad ↦ absurd (ground (arith, bad.1))
      ]
