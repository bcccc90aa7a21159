-- ===== src/Examples/Written.antt =====
-- What a reconcile of a service writes, on examples.
use activemq_artemis_operato.Base.{ℕ, ◌≡◌, refl, false, none, some, has_prefix, contains}
use activemq_artemis_operato.Errors.{plain, ok, err}
use activemq_artemis_operato.Loop.{init_deployed}
use activemq_artemis_operato.App.Checks.{service_key}
use activemq_artemis_operato.App.Validate.{resource_name_error, validate_resource_name}
use activemq_artemis_operato.Service.Provision.Admitted.{rejections}
use activemq_artemis_operato.Service.Broker.{
  with_apps, process_app_secrets, process_broker, process_spec,
}
use activemq_artemis_operato.Service.Reconcile.{
  World, validate_spec, process, new_status, after_validate, with_deployed, after_spec,
}
use activemq_artemis_operato.Service.Reconcile.Steps.{new_status-rejected}
use activemq_artemis_operato.Examples.{broker, front_ops}
use activemq_artemis_operato.Examples.Reconciles.{counting, kit, owner, empty_loop}
use activemq_artemis_operato.Examples.Provisioned.{bound, platform, run_error, reader}

abbrev world : World ℕ
world = record {
  platform = platform;
  reader = reader;
  conditions = front_ops;
  client = counting;
  kit = kit;
  owner_of = λ service. owner;
  deep_equal = λ a b. false;
  validate_expression = λ expression. some (plain "no boolean");
}

broker_valid : validate_spec world broker ≡ none
unfolding validate_spec validate_resource_name resource_name_error contains has_prefix
broker_valid = refl

deployed_nothing : init_deployed kit owner ≡ ok empty_loop
unfolding init_deployed
deployed_nothing = refl

new_status-rejected_example :
    (new_status world broker (process world broker 0)).rejected_apps
    ≡ rejections platform broker bound
unfolding service_key
new_status-rejected_example =
    new_status-rejected world broker 0 empty_loop bound broker_valid deployed_nothing refl run_error

-- A cluster whose apps cannot be listed: the cluster is left as it was.
abbrev unlisted : World ℕ
unlisted = record world {
  platform = record platform {
    cluster = record platform.cluster { list_bound_apps = λ k. err (plain "timeout") };
  };
}

unlisted_valid : validate_spec unlisted broker ≡ none
unfolding validate_spec validate_resource_name resource_name_error contains has_prefix
unlisted_valid = refl

unlisted_error : (process unlisted broker 0).error ≡ some (plain "timeout")
unfolding process after_validate with_deployed after_spec process_spec process_broker
    process_app_secrets with_apps
unlisted_error = rw (unlisted_valid, deployed_nothing) refl

unlisted_unwritten : (process unlisted broker 0).cluster ≡ 0
unfolding process after_validate with_deployed after_spec process_spec process_broker
    process_app_secrets with_apps
unlisted_unwritten = rw (unlisted_valid, deployed_nothing) refl
