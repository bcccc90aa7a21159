-- ===== src/Service/Provision.antt =====
-- `processAppSecrets` of controllers/brokerservice_controller.go: which of the apps bound to a service
-- are provisioned, and what its broker is told of them.
pub mod Admitted
pub mod Listed
pub mod Owners
use activemq_artemis_operato.Base.{
  String, Bool, true, false, not, Option, none, some, List, [], ◌∷◌, ◌++◌, concat, join, insert,
  is_none, sort_strings, if◌then◌else◌,
}
use activemq_artemis_operato.Errors.{Error, Result, ok, err}
use activemq_artemis_operato.Api.{BrokerApp, BrokerService, RejectedApp, LabelSelector}
use activemq_artemis_operato.Cluster.{Cluster}
use activemq_artemis_operato.Actions.{Object}
use activemq_artemis_operato.Loop.{Loop, get_from_deployed, track_desired}
use activemq_artemis_operato.App.Validate.{resource_name_error}
use activemq_artemis_operato.App.Checks.{service_key}
use activemq_artemis_operato.App.Status.{app_identity}
use activemq_artemis_operato.App.Binding.{secret_kind, new_secret}
use activemq_artemis_operato.Service.Properties.{capabilities_text}
use activemq_artemis_operato.Service.Acceptor.{
  Files, OperatorCa, app_identity_prefixed, app_properties_secret_name, process_acceptor,
}

-- What the service controller reads of the cluster besides: whether a selector, known by its text,
-- selects labels, the operator's CA, and the secrets.
pub record Platform : Type 0 where
  pub cluster : Cluster
  pub selects : String → List (String × String) → Bool
  pub operator_ca : OperatorCa

-- `appMatchesSelector`: an error is no match.
abbrev as_test : Result Bool → Bool
as_test (ok b) = b
as_test (err e) = false

module _ (u : Platform) (service : BrokerService) where
  unfoldable pub app_matches_selector : BrokerApp → Bool
  app_matches_selector app = as_test (u.cluster.app_matches app service)

  unfoldable pub check_expression : BrokerApp → Bool × String
  check_expression app =
      if app_matches_selector app
      then (true, "")
      else (false, "does not match appSelectorExpression")

  unfoldable pub check_labels : BrokerApp → Result String → Bool × String
  check_labels app (err e) = (false, "invalid label selector")
  check_labels app (ok selector) =
      if u.selects selector service.labels
      then check_expression app
      else (false, "does not match service labels")

  unfoldable pub check_selector : BrokerApp → Option LabelSelector → Bool × String
  check_selector app none = check_expression app
  check_selector app (some selector) =
      check_labels app (u.cluster.label_selector_as_selector (some selector))

  unfoldable pub validate_app_for_provisioning : BrokerApp → Bool × String
  validate_app_for_provisioning app = check_selector app app.spec.service_selector

unfoldable pub capabilities_key : BrokerApp → String
capabilities_key app = app_identity_prefixed app "capabilities.properties"

unfoldable pub write_capabilities : BrokerApp → Result String → Files → Files × Option Error
write_capabilities app (ok text) files = (insert (capabilities_key app) text files, none)
write_capabilities app (err e) files = (files, some e)

-- `processCapabilities`.
unfoldable pub process_capabilities : BrokerApp → Files → Files × Option Error
process_capabilities app files = write_capabilities app (capabilities_text app) files

-- The data of the secret, the lists that the loop fills, and the error that ended it.
pub record Provision : Type 0 where
  pub files : Files
  pub identities : List String
  pub rejected : List RejectedApp
  pub valid : List BrokerApp
  pub error : Option Error

abbrev pub nothing_yet : Provision
nothing_yet = record { files = []; identities = []; rejected = []; valid = []; error = none }

abbrev failed : Provision → Files → Error → Provision
failed s files e = record s { files = files; error = some e }

module _ (u : Platform) (service : BrokerService) where
  unfoldable pub after_acceptor : BrokerApp → Provision → Files × Option Error → Provision
  after_acceptor app s (files, some e) = failed s files e
  after_acceptor app s (files, none) = record s {
    files = files;
    identities = s.identities ++ app_identity app ∷ [];
    valid = s.valid ++ app ∷ [];
  }

  unfoldable pub after_capabilities : BrokerApp → Provision → Files × Option Error → Provision
  after_capabilities app s (files, some e) = failed s files e
  after_capabilities app s (files, none) =
      after_acceptor app s (process_acceptor u.operator_ca service.name app files)

  unfoldable pub admit : BrokerApp → Provision → Option Error → Provision
  admit app s (some e) = failed s s.files e
  admit app s none = after_capabilities app s (process_capabilities app s.files)

  abbrev pub rejection : BrokerApp → String → RejectedApp
  rejection app reason = record { name = app.name; namespace = app.namespace; reason = reason }

  -- One round of the loop over the apps.
  unfoldable pub judge : BrokerApp → Provision → Bool × String → Provision
  judge app s (false, reason) = record s { rejected = s.rejected ++ rejection app reason ∷ [] }
  judge app s (true, reason) = admit app s (resource_name_error app.name)

  unfoldable pub provision_app : BrokerApp → Provision → Provision
  provision_app app s = judge app s (validate_app_for_provisioning u service app)

  -- The loop, which an error ends.
  unfoldable pub provision_apps : List BrokerApp → Provision → Provision
  provision_apps [] s = s
  provision_apps (app ∷ apps) s =
      let next = provision_app app s in
      let rest = provision_apps apps next in if is_none next.error then rest else next

abbrev pub provisioned_apps_annotation : String
provisioned_apps_annotation = "arkmq.org/provisioned-apps"

abbrev pub existing_or_new : BrokerService → String → Option Object → Object
existing_or_new service name none = new_secret service.namespace name
existing_or_new service name (some o) = o

-- The deployed secret of a name, or a new one.
unfoldable pub secret_of : BrokerService → Loop → String → Object
secret_of service loop name = existing_or_new service name (get_from_deployed loop secret_kind name)

unfoldable pub provisioned_text : List String → String
provisioned_text identities = join (sort_strings identities) ","

-- The secret that mounts the apps' files in the broker.
unfoldable pub app_secret : BrokerService → Loop → Provision → Object
app_secret service loop s =
    let desired = secret_of service loop (app_properties_secret_name service.name) in
    record desired {
      content = s.files;
      annotations =
          insert provisioned_apps_annotation (provisioned_text s.identities) desired.annotations;
    }
