-- ===== src/Service/Broker/Apps.antt =====
-- The secret of the apps is among what a service asks for: `processSpec` of
-- controllers/brokerservice_controller.go.
use Prim.Native.String
use Prim.Native.String.append
use activemq_artemis_operato.Base.{
  String, true, false, Option, none, some, List, [], ◌∷◌, ◌&&◌, ◌≡◌, refl, sym, ap, ◌∙◌, ◌==◌,
  eq_iff, arith, inl, inr, Bool-cases, All, All-Memᴰ, find_first-some, lookup, insert, concat,
  if_true, if_false, is_none, false≢true,
}
use activemq_artemis_operato.Errors.{ok}
use activemq_artemis_operato.Api.{BrokerApp, BrokerService}
use activemq_artemis_operato.Actions.{Object}
use activemq_artemis_operato.Loop.{Deployed, Loop, none_yet, get_from_deployed, track_desired}
use activemq_artemis_operato.Loop.Tracked.{tracked, tracked-track_desired}
use activemq_artemis_operato.App.Binding.{secret_kind, secret_type, new_secret}
use activemq_artemis_operato.App.Checks.{service_key}
use activemq_artemis_operato.Service.Acceptor.{app_properties_secret_name}
use activemq_artemis_operato.Service.Metrics.{
  prometheus_config_file_name, generate_prometheus_config, app_queues,
  control_plane_override_secret_name, process_control_plane_override_secret,
}
use activemq_artemis_operato.Service.Provision.{
  Platform, Provision, nothing_yet, provision_apps, app_secret, secret_of, existing_or_new,
}
use activemq_artemis_operato.Service.Broker.{
  broker_kind, service_kind, generate_broker, wanted_broker, or_new_service, with_selector,
  with_provision, with_apps, process_app_secrets, process_broker, process_service, process_spec,
}

-- The objects that are listed under the type of a kind are of the type of pointers to it.
pub record ListsKinds (deployed : Deployed) : Type 0 where
  pub secrets : All (λ (o : Object). o.type ≡ secret_type) (none_yet (lookup secret_kind deployed))
  pub brokers :
      All (λ (o : Object). o.type ≡ "*v1beta2.Broker") (none_yet (lookup broker_kind deployed))
  pub services :
      All (λ (o : Object). o.type ≡ "*v1.Service") (none_yet (lookup service_kind deployed))

-- A text less as many characters as another has.
abbrev less : String → String → String
less String.[] t = t
less (String.◌∷◌ c s) String.[] = String.[]
less (String.◌∷◌ c s) (String.◌∷◌ d t) = less s t

less-append : (s t : String) → less s (String.◌++◌ s t) ≡ t
less-append String.[] t = append.nil t
less-append (String.◌∷◌ c s) t = rw (append.cons c s t) (less-append s t)

-- The two secrets of a service have different names.
names_differ :
    (service : String)
    → (control_plane_override_secret_name service == app_properties_secret_name service) ≡ false
unfolding control_plane_override_secret_name app_properties_secret_name
names_differ service =
    elim (Bool-cases
      (control_plane_override_secret_name service == app_properties_secret_name service)) [
        | inr e ↦ e
        | inl e ↦
            let tails : concat ("-control-plane-override" ∷ []) ≡ concat ("-app" ∷ "-bp" ∷ []) =
              sym (less-append service (concat ("-control-plane-override" ∷ [])))
              ∙ (ap (less service) (
                    (eq_iff (control_plane_override_secret_name service)
                        (app_properties_secret_name service)).0
                      e)
                  ∙ less-append service (concat ("-app" ∷ "-bp" ∷ []))) in
            absurd (false≢true (ap (λ (t : String). t == "-app-bp") tails))
      ]

found_as :
    (type kind name : String) (loop : Loop) (o : Object)
    → All (λ (o : Object). o.type ≡ type) (none_yet (lookup kind loop.deployed))
    → get_from_deployed loop kind name ≡ some o
    → (o.type ≡ type) × (o.name ≡ name)
unfolding get_from_deployed
found_as type kind name loop o h e =
    let (member, named) =
      find_first-some (λ (o : Object). o.name == name) (none_yet (lookup kind loop.deployed)) e in
    (All-Memᴰ (λ (o : Object). o.type ≡ type) o member h, (eq_iff o.name name).0 named)

module _ (service : BrokerService) (loop : Loop) where
  secret_as :
      (name : String) (found : Option Object)
      → ListsKinds loop.deployed
      → get_from_deployed loop secret_kind name ≡ found
      → ((existing_or_new service name found).type ≡ secret_type)
        × ((existing_or_new service name found).name ≡ name)
  unfolding new_secret
  secret_as name none h e = (refl, refl)
  secret_as name (some o) h e = found_as secret_type secret_kind name loop o h.secrets e

  broker_as :
      (found : Option Object)
      → ListsKinds loop.deployed
      → get_from_deployed loop broker_kind service.name ≡ found
      → (wanted_broker service found).type ≡ "*v1beta2.Broker"
  unfolding wanted_broker generate_broker
  broker_as none h e = refl
  broker_as (some o) h e =
      (found_as "*v1beta2.Broker" broker_kind service.name loop o h.brokers e).0

-- What is tracked beside an object of another type or name stays.
tracked_beside :
    (o : Object) (loop : Loop) (type name : String)
    → (o.type == type && o.name == name) ≡ false
    → tracked (track_desired o loop) type name ≡ tracked loop type name
tracked_beside o loop type name h =
    tracked-track_desired o loop type name
    ∙ if_false (o.type == type && o.name == name) (some o) (tracked loop type name) h

other_type :
    (o : Object) (type other name : String)
    → o.type ≡ other
    → (other == type) ≡ false
    → (o.type == type && o.name == name) ≡ false
other_type o type other name e h =
    let f : (o.type == type) ≡ false = ap (λ (t : String). t == type) e ∙ h in rw f refl

other_name :
    (o : Object) (type name other : String)
    → o.name ≡ other
    → (other == name) ≡ false
    → (o.type == type && o.name == name) ≡ false
other_name o type name other e h =
    let f : (o.name == name) ≡ false = ap (λ (t : String). t == name) e ∙ h in ground (arith, f)

module _ (u : Platform) (service : BrokerService) (loop : Loop) (h : ListsKinds loop.deployed) where
  -- The secret is asked for where it is made.
  first_tracked :
      (s : Provision)
      → tracked
          (track_desired (app_secret service loop s) loop)
          secret_type
          (app_properties_secret_name service.name)
        ≡ some (app_secret service loop s)
  unfolding app_secret secret_of
  first_tracked s =
      let name = app_properties_secret_name service.name in
      let o = app_secret service loop s in
      let (typed, named) =
        secret_as service loop name (get_from_deployed loop secret_kind name) h refl in
      tracked-track_desired o loop secret_type name
      ∙ if_true (o.type == secret_type && o.name == name) (some o) (tracked loop secret_type name)
          (rw ((eq_iff o.type secret_type).1 typed) ((eq_iff o.name name).1 named))

  override_beside :
      (apps : List BrokerApp) (before : Loop)
      → before.deployed ≡ loop.deployed
      → tracked
          (process_control_plane_override_secret u.operator_ca service apps before)
          secret_type
          (app_properties_secret_name service.name)
        ≡ tracked before secret_type (app_properties_secret_name service.name)
  unfolding process_control_plane_override_secret secret_of
  override_beside apps before e =
      let name = control_plane_override_secret_name service.name in
      let kinds : ListsKinds before.deployed = rw e h in
      let (typed, named) =
        secret_as service before name (get_from_deployed before secret_kind name) kinds refl in
      let made = record (existing_or_new service name (get_from_deployed before secret_kind name)) {
        content =
            insert prometheus_config_file_name
              (generate_prometheus_config u.operator_ca service.name (app_queues apps []))
              (existing_or_new service name (get_from_deployed before secret_kind name)).content;
      } in
      tracked_beside made before secret_type (app_properties_secret_name service.name) (
        other_name made secret_type (app_properties_secret_name service.name) name named
          (names_differ service.name))

  broker_beside :
      (before : Loop)
      → tracked
          (track_desired
            (wanted_broker service (get_from_deployed loop broker_kind service.name))
            before)
          secret_type
          (app_properties_secret_name service.name)
        ≡ tracked before secret_type (app_properties_secret_name service.name)
  broker_beside before =
      let made = wanted_broker service (get_from_deployed loop broker_kind service.name) in
      tracked_beside made before secret_type (app_properties_secret_name service.name) (
        other_type made secret_type "*v1beta2.Broker" (app_properties_secret_name service.name)
          (broker_as service loop (get_from_deployed loop broker_kind service.name) h refl) refl)

  service_as :
      (before : Loop) (found : Option Object)
      → before.deployed ≡ loop.deployed
      → get_from_deployed before service_kind service.name ≡ found
      → (or_new_service u service found).type ≡ "*v1.Service"
  service_as before none e f = refl
  service_as before (some o) e f =
      let kinds : ListsKinds before.deployed = rw e h in
      (found_as "*v1.Service" service_kind service.name before o kinds.services f).0

  service_beside :
      (before : Loop)
      → before.deployed ≡ loop.deployed
      → tracked
          (process_service u service before)
          secret_type
          (app_properties_secret_name service.name)
        ≡ tracked before secret_type (app_properties_secret_name service.name)
  unfolding process_service
  service_beside before e =
      let found = or_new_service u service (get_from_deployed before service_kind service.name) in
      let made = record found { detail = with_selector u service found.detail } in
      tracked_beside made before secret_type (app_properties_secret_name service.name) (
        other_type made secret_type "*v1.Service" (app_properties_secret_name service.name)
          (service_as before (get_from_deployed before service_kind service.name) e refl) refl)

  first_deployed :
      (s : Provision) → (track_desired (app_secret service loop s) loop).deployed ≡ loop.deployed
  unfolding track_desired
  first_deployed s = refl

  kept_deployed :
      (s : Provision)
      → (track_desired (wanted_broker service (get_from_deployed loop broker_kind service.name)) (
          process_control_plane_override_secret u.operator_ca service s.valid
            (track_desired (app_secret service loop s) loop))).deployed
        ≡ loop.deployed
  unfolding process_control_plane_override_secret track_desired
  kept_deployed s = refl

  -- Where the apps are provisioned without an error, the secret with their files is asked for.
  pub tracked-process_spec :
      (apps : List BrokerApp)
      → u.cluster.list_bound_apps (service_key service) ≡ ok apps
      → (provision_apps u service apps nothing_yet).error ≡ none
      → tracked
          (process_spec u service loop).loop
          secret_type
          (app_properties_secret_name service.name)
        ≡ some (app_secret service loop (provision_apps u service apps nothing_yet))
  unfolding process_spec process_broker process_app_secrets with_apps with_provision
  tracked-process_spec apps listed clean =
      let run = provision_apps u service apps nothing_yet in
      let first = track_desired (app_secret service loop run) loop in
      let second = process_control_plane_override_secret u.operator_ca service run.valid first in
      let third =
        track_desired (wanted_broker service (get_from_deployed loop broker_kind service.name))
          second in
      let no_error : is_none run.error ≡ true = ap is_none clean in
      rw listed (
        rw no_error (
          service_beside third (kept_deployed run)
          ∙ (broker_beside second
              ∙ (override_beside run.valid first (first_deployed run) ∙ first_tracked run))))
