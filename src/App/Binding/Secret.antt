-- ===== src/App/Binding/Secret.antt =====
-- The secret that is asked for.
use activemq_artemis_operato.Base.{
  if_true, if_false, String, sym, ◌≡◌, ◌≢◌, refl, ◌∙◌, Bool, true, ◌&&◌, Option, none, some, List,
  ◌=?◌, =?_iff, ◌==◌, eq_iff, Bool-cases, inl, inr, arith, find_first, find_first-some, lookup, All,
  All-Memᴰ,
}
use activemq_artemis_operato.Errors.{ok}
use activemq_artemis_operato.Api.{BrokerApp, BrokerServiceBindingStatus}
use activemq_artemis_operato.Cluster.{Cluster}
use activemq_artemis_operato.Ports.{unassigned_port}
use activemq_artemis_operato.Actions.{Object}
use activemq_artemis_operato.Loop.{Loop, none_yet, get_from_deployed, track_desired}
use activemq_artemis_operato.Loop.Tracked.{tracked, tracked-track_desired}
use activemq_artemis_operato.App.Resolve.{bindings_secret_name}
use activemq_artemis_operato.App.Binding.{
  secret_kind, secret_type, new_secret, existing_or_new, binding_data, process_binding_secret,
}

both_true : (a b : Bool) → a ≡ true → b ≡ true → (a && b) ≡ true
both_true a b h g = ground arith

-- The objects that are listed as secrets are secrets.
abbrev pub ListsSecrets : Loop → Type 0
ListsSecrets loop =
    All (λ (o : Object). o.type ≡ secret_type) (none_yet (lookup secret_kind loop.deployed))

-- A secret with the host, the port and the URI of the binding is asked for under the app's name.
abbrev pub AsksFor : Cluster → BrokerApp → BrokerServiceBindingStatus → Loop → Type 0
AsksFor k app bound loop =
    (o : Object) × (tracked loop secret_type (bindings_secret_name app.name) ≡ some o)
    × (o.content ≡ binding_data k bound)

made_of :
    (app : BrokerApp) (listed : List Object) (found : Option Object)
    → find_first (λ (o : Object). o.name == bindings_secret_name app.name) listed ≡ found
    → All (λ (o : Object). o.type ≡ secret_type) listed
    → ((existing_or_new app found).type ≡ secret_type)
      × ((existing_or_new app found).name ≡ bindings_secret_name app.name)
unfolding new_secret
made_of app listed none e secrets = (refl, refl)
made_of app listed (some o) e secrets =
    let name = bindings_secret_name app.name in
    let (member, named) = find_first-some (λ (o : Object). o.name == name) listed e in
    (All-Memᴰ (λ (o : Object). o.type ≡ secret_type) o member secrets, (eq_iff o.name name).0 named)

-- An object that is tracked is found, where its type and name are these.
tracked_as :
    (o : Object) (loop : Loop) (type name : String)
    → o.type ≡ type
    → o.name ≡ name
    → tracked (track_desired o loop) type name ≡ some o
tracked_as o loop type name same_type same_name =
    let t = (eq_iff o.type type).1 same_type in
    let n = (eq_iff o.name name).1 same_name in
    tracked-track_desired o loop type name
    ∙ if_true (o.type == type && o.name == name) _ _ (both_true _ _ t n)

-- With a port assigned, the secret of the binding is asked for; without one, nothing is and there is
-- an error.
pub process_binding_secret_asks :
    (k : Cluster) (app : BrokerApp) (bound : BrokerServiceBindingStatus) (loop : Loop)
    → ListsSecrets loop
    → bound.assigned_port ≢ unassigned_port
    → (after : Loop) × (process_binding_secret k app (some bound) loop ≡ ok after)
      × AsksFor k app bound after
unfolding process_binding_secret get_from_deployed
process_binding_secret_asks k app bound loop secrets assigned =
    let name = bindings_secret_name app.name in
    let found = get_from_deployed loop secret_kind name in
    let desired = record (existing_or_new app found) { content = binding_data k bound } in
    let (typed, named) =
      made_of app (none_yet (lookup secret_kind loop.deployed)) found refl secrets in
    elim (Bool-cases (bound.assigned_port =? unassigned_port)) [
      | inl unassigned ↦
          absurd (assigned ((=?_iff bound.assigned_port unassigned_port).0 unassigned))
      | inr known ↦ (
        track_desired desired loop,
        if_false (bound.assigned_port =? unassigned_port) _ _ known,
        (desired, tracked_as desired loop secret_type name typed named, refl),
      )
    ]

-- Where the step gives no error, the secret is asked for.
pub AsksFor-process_binding_secret :
    (k : Cluster) (app : BrokerApp) (bound : BrokerServiceBindingStatus) (loop after : Loop)
    → ListsSecrets loop
    → process_binding_secret k app (some bound) loop ≡ ok after
    → AsksFor k app bound after
AsksFor-process_binding_secret k app bound loop after secrets h =
    elim (Bool-cases (bound.assigned_port =? unassigned_port)) [
      | inl unassigned ↦
          absurd (unfold process_binding_secret in let e = rw unassigned at h in ground (arith, e))
      | inr known ↦
          let assigned : bound.assigned_port ≢ unassigned_port =
            λ e. absurd (ground (arith, e, known)) in
          let (made, e, asks) = process_binding_secret_asks k app bound loop secrets assigned in
          let same : made ≡ after = ground (arith, sym e ∙ h) in rw (← same) asks
    ]
