-- ===== src/Examples/Provisioned.antt =====
-- What the broker of a service is given, and what is reported of it, on examples: a service that one
-- of two bound apps matches.
use activemq_artemis_operato.Base.{
  String, ◌≡◌, ◌≢◌, refl, arith, true, false, Option, none, some, List, [], ◌∷◌, ◌↔◌, Memᴰ, All,
  map, has_prefix, contains, lacks, lookup, insert, decimal, ◌==◌, eq_iff,
}
use activemq_artemis_operato.Errors.{Error, plain, ok}
use activemq_artemis_operato.Api.{
  BrokerApp, BrokerStatus, Condition, status_true, ready_condition_type,
  apps_provisioned_condition_type,
}
use activemq_artemis_operato.Cluster.{is_true_condition}
use activemq_artemis_operato.Loops.{each}
use activemq_artemis_operato.App.Address.{is_multicast_address}
use activemq_artemis_operato.App.Validate.{resource_name_error}
use activemq_artemis_operato.App.Status.{app_identity, is_provisioned}
use activemq_artemis_operato.Service.Address.{
  entry_of, track, change, track_app, track_address_types, track_address_type, use_capability,
  produce, consume, consume_queue, consume_topic,
}
use activemq_artemis_operato.Service.Properties.{capabilities_text}
use activemq_artemis_operato.Service.Acceptor.{
  acceptor_key, app_identity_prefixed, login_files, pem_cfg_key, cert_users_cfg_key,
  cert_roles_cfg_key, underscore_app_identity_prefixed, get_cert_users_key, get_cert_roles_key,
  jaas_config_realm_name, realm_port, app_properties_secret_name, get_trust_store_path, bound_port,
  accept_at, accept_with, process_acceptor,
}
use activemq_artemis_operato.Service.Provision.{
  Platform, Provision, validate_app_for_provisioning, check_selector, check_expression,
  app_matches_selector, process_capabilities, write_capabilities, capabilities_key, after_acceptor,
  after_capabilities, admit, judge, provision_app, provision_apps, nothing_yet, app_secret,
  provisioned_apps_annotation,
}
use activemq_artemis_operato.Service.Provision.Admitted.{admitted, Sorted, provision_apps-Sorted}
use activemq_artemis_operato.Service.Provision.Owners.{IsOwned, provision_apps-IsOwned}
use activemq_artemis_operato.Service.Provision.Listed.{listed_apps-app_secret}
use activemq_artemis_operato.Service.Status.{
  StatusReader, applied_version, listed_apps, process_status, outcome, failed_deployed,
  valid_condition,
}
use activemq_artemis_operato.Conditions.{set_ready_condition, new_ready_condition}
use activemq_artemis_operato.Service.Status.Synced.{Applied}
use activemq_artemis_operato.Service.Status.Provisioned.{
  process_status-provisioned_iff, process_status-keeps_apps,
}
use activemq_artemis_operato.Service.Chain.{is_provisioned-process_status_iff}
use activemq_artemis_operato.Examples.{bound_orders, catalog, broker, cluster_with, front_ops}
use activemq_artemis_operato.Examples.Provisioning.{known_ca}
use activemq_artemis_operato.Examples.Reconciles.{empty_loop}

abbrev pub bound : List BrokerApp
bound = bound_orders ∷ catalog ∷ []

-- The service matches the app `orders` alone.
abbrev pub platform : Platform
platform = record {
  cluster = record (cluster_with bound (broker ∷ [])) {
    app_matches = λ app service. ok (app.name == "orders");
  };
  selects = λ selector labels. true;
  operator_ca = known_ca;
}

abbrev run : Provision
run = provision_apps platform broker bound nothing_yet

pub run_error : run.error ≡ none
unfolding provision_apps provision_app judge admit after_capabilities after_acceptor
    process_capabilities write_capabilities capabilities_text process_acceptor accept_with accept_at
    bound_port get_trust_store_path resource_name_error contains has_prefix
    validate_app_for_provisioning check_selector check_expression app_matches_selector track_app
    each use_capability produce consume consume_queue consume_topic is_multicast_address track
    change track_address_types track_address_type entry_of lookup insert
run_error = refl

provision_apps-Sorted_example : Sorted platform broker bound nothing_yet run
provision_apps-Sorted_example =
    provision_apps-Sorted platform broker bound nothing_yet refl run_error

-- The acceptor of the app that is matched.
abbrev key : String
key = "shop-orders-acceptor.properties"

abbrev text_in : Option String → String
text_in none = ""
text_in (some t) = t

key_there : lookup key run.files ≡ some (text_in (lookup key run.files))
unfolding provision_apps provision_app judge admit after_capabilities after_acceptor
    process_capabilities write_capabilities capabilities_text process_acceptor accept_with accept_at
    bound_port get_trust_store_path resource_name_error contains has_prefix
    validate_app_for_provisioning check_selector check_expression app_matches_selector track_app
    each use_capability produce consume consume_queue consume_topic is_multicast_address track
    change track_address_types track_address_type entry_of lookup insert acceptor_key
    app_identity_prefixed app_identity login_files capabilities_key pem_cfg_key cert_users_cfg_key
    cert_roles_cfg_key underscore_app_identity_prefixed get_cert_users_key get_cert_roles_key
    jaas_config_realm_name realm_port decimal
key_there = refl

provision_apps-IsOwned_example : IsOwned platform broker bound nothing_yet.files key
provision_apps-IsOwned_example =
    provision_apps-IsOwned platform broker bound nothing_yet key
      (text_in (lookup key run.files), key_there)

-- The identities that are admitted have no comma.
no_commas : All (λ t. lacks b',' t ≡ true) (map app_identity (admitted platform broker bound))
unfolding validate_app_for_provisioning check_selector check_expression app_matches_selector
    app_identity
no_commas = (refl, tt)

run_identities : run.identities ≡ map app_identity (admitted platform broker bound)
run_identities = provision_apps-Sorted_example.identities

clean : All (λ t. lacks b',' t ≡ true) run.identities
clean = rw run_identities no_commas

listed_apps-app_secret_example :
    Memᴰ "shop-orders" (
      listed_apps
        (lookup provisioned_apps_annotation (app_secret broker empty_loop run).annotations))
    ↔ Memᴰ "shop-orders" run.identities
listed_apps-app_secret_example =
    listed_apps-app_secret broker empty_loop run (admitted platform broker bound) run_identities
      clean "shop-orders"

-- The secret as it is read back, and a broker that has applied it.
abbrev pub reader : StatusReader
reader = record {
  get_secret = λ namespace name. ok (record {
    resource_version = "7";
    annotations = (app_secret broker empty_loop run).annotations;
  });
  printed = λ status. "status";
}

abbrev ready : Condition
ready = record {
  type = ready_condition_type;
  status = status_true;
  observed_generation = 0;
  reason = "";
  message = "";
}

abbrev ready_broker : BrokerStatus
ready_broker = record {
  conditions = ready ∷ [];
  external_configs = record { name = "broker-app-bp"; resource_version = "7" } ∷ [];
}

seven : ◌≢◌ {A = String} "7" ""
seven e = ground (arith, eq_iff "7" "")

applied : Applied front_ops reader broker ready_broker
unfolding applied_version app_properties_secret_name
applied = record {
  ready = refl;
  secret = record {
    resource_version = "7";
    annotations = (app_secret broker empty_loop run).annotations;
  };
  read = refl;
  version = refl;
  known = seven;
}

same_annotations : applied.secret.annotations ≡ (app_secret broker empty_loop run).annotations
unfolding applied
same_annotations = refl

is_provisioned-process_status_iff_example :
    (is_provisioned bound_orders (record broker {
      status = process_status front_ops reader broker broker.status none (some ready_broker);
    })
      ≡ true)
    ↔ Memᴰ (app_identity bound_orders) (map app_identity (admitted platform broker bound))
is_provisioned-process_status_iff_example =
    is_provisioned-process_status_iff platform front_ops reader broker bound empty_loop
      broker.status ready_broker bound_orders run_error no_commas applied same_annotations

process_status-provisioned_iff_example :
    (is_true_condition (
        front_ops.find_status_condition
          (process_status front_ops reader broker broker.status none (some ready_broker)).conditions
          apps_provisioned_condition_type)
      ≡ true)
    ↔ (◌≡◌ {A = Option Error} none none
        × ((b : BrokerStatus) × (some ready_broker ≡ some b) × Applied front_ops reader broker b))
process_status-provisioned_iff_example =
    process_status-provisioned_iff front_ops reader broker broker.status none (some ready_broker)

not_synced :
    is_true_condition (
      front_ops.find_status_condition
        (process_status front_ops reader broker broker.status (some (plain "lost")) none).conditions
        apps_provisioned_condition_type)
    ≡ false
unfolding process_status outcome failed_deployed valid_condition set_ready_condition
    new_ready_condition
not_synced = refl

process_status-keeps_apps_example :
    (process_status front_ops reader broker broker.status
      (some (plain "lost"))
      none).provisioned_apps
    ≡ broker.status.provisioned_apps
process_status-keeps_apps_example =
    process_status-keeps_apps front_ops reader broker broker.status (some (plain "lost")) none
      not_synced
