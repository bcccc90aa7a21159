-- ===== src/Service/Broker.antt =====
-- `processSpec` of controllers/brokerservice_controller.go: the broker, the secrets and the Kubernetes
-- service that a BrokerService asks for.
pub mod Apps
use activemq_artemis_operato.Base.{
  String, false, Option, none, some, List, [], ◌∷◌, is_none, if◌then◌else◌,
}
use activemq_artemis_operato.Errors.{Error, Result, ok, err}
use activemq_artemis_operato.Api.{BrokerApp, BrokerService, BrokerSpec, BrokerStatus}
use activemq_artemis_operato.Actions.{Object, Detail, no_detail, broker_detail, service_detail}
use activemq_artemis_operato.Loop.{Loop, get_from_deployed, track_desired}
use activemq_artemis_operato.App.Checks.{service_key}
use activemq_artemis_operato.Service.Acceptor.{app_properties_secret_name}
use activemq_artemis_operato.Service.Provision.{
  Platform, Provision, nothing_yet, provision_apps, app_secret,
}
use activemq_artemis_operato.Service.Metrics.{process_control_plane_override_secret}

abbrev pub broker_kind : String
broker_kind = "v1beta2.Broker"

abbrev pub service_kind : String
service_kind = "v1.Service"

abbrev service_label : String
service_label = "broker.arkmq.org/service"

abbrev new_object : String → BrokerService → Detail → Object
new_object type service detail = record {
  type = type;
  name = service.name;
  namespace = service.namespace;
  owner_references = [];
  annotations = [];
  content = [];
  detail = detail;
}

abbrev new_spec : BrokerSpec
new_spec = record {
  image = "";
  persistence_enabled = false;
  labels = [];
  env = [];
  resources = record { limits_memory = none; requests_memory = none };
  extra_mount_secrets = [];
}

abbrev new_status : BrokerStatus
new_status = record { conditions = []; external_configs = [] }

-- `common.GenerateBroker`.
unfoldable pub generate_broker : BrokerService → Object
generate_broker service = new_object "*v1beta2.Broker" service (broker_detail new_spec new_status)

abbrev pub or_generated : BrokerService → Option Object → Object
or_generated service none = generate_broker service
or_generated service (some o) = o

abbrev image_or : String → Option String → String
image_or old none = old
image_or old (some image) = image

-- The spec of the broker as the service wants it.
unfoldable pub wanted_spec : BrokerService → BrokerSpec → BrokerSpec
wanted_spec service spec = record {
  image = image_or spec.image service.spec.image;
  persistence_enabled = false;
  labels =
      ("app.kubernetes.io/instance", service.name)
      ∷ ("app.kubernetes.io/component", "broker-service")
      ∷ ("app.kubernetes.io/managed-by", "arkmq-org-broker-operator")
      ∷ (service_label, service.name)
      ∷ ("broker.arkmq.org/peer-index", "0")
      ∷ [];
  env = service.spec.env;
  resources = service.spec.resources;
  extra_mount_secrets = app_properties_secret_name service.name ∷ [];
}

-- An object that is not a broker is left; the deployed objects of the kind are brokers.
abbrev wanted_detail : BrokerService → Detail → Detail
wanted_detail service (broker_detail spec status) = broker_detail (wanted_spec service spec) status
wanted_detail service no_detail = no_detail
wanted_detail service (service_detail selector cluster_ip) = service_detail selector cluster_ip

unfoldable pub wanted_broker : BrokerService → Option Object → Object
wanted_broker service found =
    let desired = or_generated service found in
    record desired { detail = wanted_detail service desired.detail }

-- The resources that are asked for, the apps that are rejected, and the error or nil.
pub record Asked : Type 0 where
  pub loop : Loop
  pub provision : Option Provision
  pub error : Option Error

module _ (u : Platform) (service : BrokerService) where
  unfoldable pub with_provision : Loop → Provision → Asked
  with_provision loop s =
      let tracked = track_desired (app_secret service loop s) loop in
      record {
        loop =
            if is_none s.error
            then process_control_plane_override_secret u.operator_ca service s.valid tracked
            else tracked;
        provision = some s;
        error = s.error;
      }

  unfoldable pub with_apps : Loop → Result (List BrokerApp) → Asked
  with_apps loop (ok apps) = with_provision loop (provision_apps u service apps nothing_yet)
  with_apps loop (err e) = record { loop = loop; provision = none; error = some e }

  unfoldable pub process_app_secrets : Loop → Asked
  process_app_secrets loop = with_apps loop (u.cluster.list_bound_apps (service_key service))

  unfoldable pub process_broker : Loop → Asked
  process_broker loop =
      let desired = wanted_broker service (get_from_deployed loop broker_kind service.name) in
      let asked = process_app_secrets loop in
      record asked { loop = track_desired desired asked.loop }

  abbrev pub with_selector : Detail → Detail
  with_selector (service_detail selector cluster_ip) =
      service_detail ((service_label, service.name) ∷ []) cluster_ip
  with_selector no_detail = no_detail
  with_selector (broker_detail spec status) = broker_detail spec status

  abbrev pub or_new_service : Option Object → Object
  or_new_service none = new_object "*v1.Service" service (service_detail [] "None")
  or_new_service (some o) = o

  unfoldable pub process_service : Loop → Loop
  process_service loop =
      let desired = or_new_service (get_from_deployed loop service_kind service.name) in
      track_desired (record desired { detail = with_selector desired.detail }) loop

  unfoldable pub process_spec : Loop → Asked
  process_spec loop =
      let asked = process_broker loop in
      if is_none asked.error then record asked { loop = process_service asked.loop } else asked
