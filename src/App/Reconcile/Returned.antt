-- ===== src/App/Reconcile/Returned.antt =====
-- What a ready app tells of its last reconcile.
use activemq_artemis_operato.Base.{
  String, ◌≡◌, refl, sym, ◌∙◌, Bool, true, ◌&&◌, Option, none, some, List, [], ◌∷◌, lookup, concat,
  decimal, arith, inl, inr,
}
use activemq_artemis_operato.Errors.{Error, Result, Result-cases, ok, err}
use activemq_artemis_operato.Api.{
  BrokerApp, BrokerServiceBindingStatus, BrokerService, ready_condition_type,
}
use activemq_artemis_operato.Cluster.{Cluster, ConditionOps}
use activemq_artemis_operato.Actions.{OwnerReference, Object}
use activemq_artemis_operato.Loop.{Kit, Loop, init_deployed}
use activemq_artemis_operato.Loop.Tracked.{tracked}
use activemq_artemis_operato.Loop.Stored.{ComparesSecrets, desired_secret, Stored, Applies-Stored}
use activemq_artemis_operato.Loop.Synced.{AllApply, sync_desired_with_deployed_iff}
use activemq_artemis_operato.App.Validate.{validate_spec}
use activemq_artemis_operato.App.Resolve.{Progress, Outcome, bindings_secret_name}
use activemq_artemis_operato.App.Binding.{
  secret_kind, binding_data, broker_host, process_binding_secret,
}
use activemq_artemis_operato.App.Binding.Secret.{ListsSecrets, AsksFor-process_binding_secret}
use activemq_artemis_operato.App.Status.{holds_at, is_provisioned, process_status}
use activemq_artemis_operato.App.Status.Ready.{is_success, is_deployed, process_status-ready}
use activemq_artemis_operato.App.Reconcile.{
  World, ordered_types, sync_binding, with_deployed, after_resolve, after_validate, process,
}

-- The owned objects were listed, the secret of the binding was asked for, and every creation and
-- update of the sync gave no error.
pub record Applied {W : Type 0} (u : World W) (app : BrokerApp) (w : W) (s : Progress)
    : Type 0 where
  pub loop : Loop
  pub listed : init_deployed u.kit (u.owner_of app) ≡ ok loop
  pub after : Loop
  pub asked : process_binding_secret u.cluster app s.status.service loop ≡ ok after
  pub applied :
      AllApply u.client
        (u.owner_of app)
        (u.kit.compare after.deployed after.desired)
        ordered_types
        w

-- The app is bound, its service was found, and lists it as provisioned.
pub record Provisioned (app : BrokerApp) (s : Progress) : Type 0 where
  pub bound : BrokerServiceBindingStatus
  pub binding : s.status.service ≡ some bound
  pub service : BrokerService
  pub found : s.service ≡ some service
  pub provisioned : is_provisioned app service ≡ true

module _ {W : Type 0} (u : World W) (app : BrokerApp) (w : W) where
  sync_binding-Applied :
      (s : Progress) (loop : Loop) (r : Result Loop)
      → init_deployed u.kit (u.owner_of app) ≡ ok loop
      → process_binding_secret u.cluster app s.status.service loop ≡ r
      → (sync_binding u app w r).1 ≡ none
      → Applied u app w s
  unfolding sync_binding
  sync_binding-Applied s loop (ok after) listed asked h = record {
    loop = loop;
    listed = listed;
    after = after;
    asked = asked;
    applied =
        (sync_desired_with_deployed_iff W u.client u.kit (u.owner_of app) ordered_types after w).0
          h;
  }
  sync_binding-Applied s loop (err e) listed asked h = cc

  with_deployed-Applied :
      (s : Progress) (r : Result Loop)
      → init_deployed u.kit (u.owner_of app) ≡ r
      → (with_deployed u app w s r).1 ≡ none
      → Applied u app w s
  unfolding with_deployed
  with_deployed-Applied s (ok loop) listed h = sync_binding-Applied s loop _ listed refl h
  with_deployed-Applied s (err e) listed h = cc

  after_resolve-Applied :
      (o : Outcome)
      → (after_resolve u app w o).2 ≡ none
      → Applied u app w (after_resolve u app w o).1
  unfolding after_resolve
  after_resolve-Applied (s, none) h = with_deployed-Applied s _ refl h
  after_resolve-Applied (s, some e) h = cc

  after_validate-Applied :
      (o : Option Error)
      → (after_validate u app w o).2 ≡ none
      → (o ≡ none) × Applied u app w (after_validate u app w o).1
  unfolding after_validate
  after_validate-Applied none h = (refl, after_resolve-Applied _ h)
  after_validate-Applied (some e) h = cc

  process-Applied :
      (process u app w).2 ≡ none → (validate_spec app ≡ none) × Applied u app w (process u app w).1
  unfolding process
  process-Applied h = after_validate-Applied (validate_spec app) h

module _ (c : ConditionOps) (app : BrokerApp) where
  without_error :
      (e : Option Error) (b : Bool) → (is_success c app e && b) ≡ true → (e ≡ none) × (b ≡ true)
  without_error none b h = (refl, h)
  without_error (some e) b h = cc

  Provisioned-is_deployed :
      (s : Progress) (b : Option BrokerServiceBindingStatus) (found : Option BrokerService)
      → s.status.service ≡ b
      → s.service ≡ found
      → is_deployed c app b found ≡ true
      → Provisioned app s
  Provisioned-is_deployed s none found e f h = cc
  Provisioned-is_deployed s (some bound) none e f h = cc
  Provisioned-is_deployed s (some bound) (some service) e f h = record {
    bound = bound;
    binding = e;
    service = service;
    found = f;
    provisioned = h;
  }

-- The data of the secret tells where the broker listens for the app.
pub record TellsBinding (k : Cluster) (bound : BrokerServiceBindingStatus)
    (content : List (String × String)) : Type 0 where
  pub host :
      lookup "host" content
      ≡ some (concat (bound.name ∷ "." ∷ bound.namespace ∷ ".svc." ∷ k.cluster_domain ∷ []))
  pub port : lookup "port" content ≡ some (decimal bound.assigned_port)
  pub uri :
      lookup "uri" content
      ≡ some (
          concat (
            "amqps://"
            ∷ concat (bound.name ∷ "." ∷ bound.namespace ∷ ".svc." ∷ k.cluster_domain ∷ [])
            ∷ ":"
            ∷ decimal bound.assigned_port
            ∷ []))

binding_data-TellsBinding :
    (k : Cluster) (bound : BrokerServiceBindingStatus) (content : List (String × String))
    → content ≡ binding_data k bound
    → TellsBinding k bound content
unfolding binding_data broker_host lookup
binding_data-TellsBinding k bound content e = rw e (record { host = refl; port = refl; uri = refl })

-- The secret of the binding, with what it tells, has reached the cluster.
pub record BindingStored {W : Type 0} (u : World W) (app : BrokerApp) (w : W)
    (bound : BrokerServiceBindingStatus) (loop : Loop) : Type 0 where
  pub secret : Object
  pub asked : desired_secret loop.desired (concat (app.name ∷ "-binding-secret" ∷ [])) ≡ some secret
  pub tells : TellsBinding u.cluster bound secret.content
  pub stored :
      Stored u.client
        (u.owner_of app)
        loop.deployed
        (u.kit.compare loop.deployed loop.desired secret_kind)
        w
        secret

ListsSecrets-init_deployed :
    (kit : Kit) (owner : OwnerReference) (loop : Loop)
    → ComparesSecrets kit
    → init_deployed kit owner ≡ ok loop
    → ListsSecrets loop
unfolding init_deployed
ListsSecrets-init_deployed kit owner loop laws h = elim (Result-cases (kit.list_all owner)) [
  | inl (deployed, e) ↦
      let same : record { deployed = deployed; desired = [] } ≡ loop = ground (arith, rw e at h) in
      rw (← same) (laws.lists owner deployed e)
  | inr (error, e) ↦ absurd (ground (arith, rw e at h))
]

module _ {W : Type 0} (u : World W) (app : BrokerApp) (w : W) (laws : ComparesSecrets u.kit) where
  Applied-BindingStored :
      (s : Progress) (bound : BrokerServiceBindingStatus)
      → s.status.service ≡ some bound
      → (a : Applied u app w s) → BindingStored u app w bound a.after
  unfolding tracked bindings_secret_name
  Applied-BindingStored s bound e a =
      let secrets = ListsSecrets-init_deployed u.kit (u.owner_of app) a.loop laws a.listed in
      let asks =
        AsksFor-process_binding_secret u.cluster app bound a.loop a.after secrets
          (rw e at a.asked) in
      record {
        secret = asks.0;
        asked = asks.1;
        tells = binding_data-TellsBinding u.cluster bound asks.0.content asks.2;
        stored =
            Applies-Stored u.client (u.owner_of app) u.kit a.after.deployed a.after.desired
              (bindings_secret_name app.name) asks.0 w laws asks.1 a.applied.0;
      }

-- What is known of the steps of a reconcile.
pub record Reconciled {W : Type 0} (u : World W) (app : BrokerApp) (w : W) : Type 0 where
  pub valid : validate_spec app ≡ none
  pub no_error : (process u app w).2 ≡ none
  pub provisioned : Provisioned app (process u app w).1
  pub applied : Applied u app w (process u app w).1
  pub secret : BindingStored u app w provisioned.bound applied.after

-- With a comparison that finds each desired secret deployed with its data, added or updated: where a
-- reconcile leaves the app ready at its generation, the spec is valid and no step had an error. The app
-- is bound, and its service lists it as provisioned. The secret of the app's name was asked for, with
-- the host, the port and the URI of the binding; it was deployed with these already, or the call that
-- creates or updates it was made and gave no error; and no other creation or update gave one.
pub process-Reconciled :
    (W : Type 0) (u : World W) (app : BrokerApp) (w : W)
    → ComparesSecrets u.kit
    → holds_at app.generation (
        u.conditions.find_status_condition
          (process_status u.conditions app (process u app w).1 (process u app w).2).conditions
          ready_condition_type)
      ≡ true
    → Reconciled u app w
process-Reconciled W u app w laws ready =
    let s = (process u app w).1 in
    let (clean, deployed) =
      without_error u.conditions app (process u app w).2 _
        (sym (process_status-ready u.conditions app s (process u app w).2) ∙ ready) in
    let (valid, applied) = process-Applied u app w clean in
    let provisioned =
      Provisioned-is_deployed u.conditions app s s.status.service s.service refl refl deployed in
    record {
      valid = valid;
      no_error = clean;
      provisioned = provisioned;
      applied = applied;
      secret = Applied-BindingStored u app w laws s provisioned.bound provisioned.binding applied;
    }
