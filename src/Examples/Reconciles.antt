-- ===== src/Examples/Reconciles.antt =====
-- The actions on the cluster and whole reconciles, on examples. The state of the cluster is the number
-- of its writes.
use activemq_artemis_operato.Base.{
  Memᴰ, Memᴰ-image, lookup-Memᴰ, All, inl, inr, arith, ℕ, suc, String, ◌≡◌, refl, ap, ◌∙◌, Bool,
  true, false, ◌&&◌, Option, none, some, List, [], ◌↔◌, lookup, insert, contains, has_prefix, map,
}
use activemq_artemis_operato.Errors.{list_error, error_text, Error, validation_error, ok}
use activemq_artemis_operato.Api.{BrokerApp, ready_condition_type}
use activemq_artemis_operato.Actions.{
  OwnerReference, Object, no_detail, status_error, Client, create,
}
use activemq_artemis_operato.Loop.Stored.{ComparesSecrets, secrets_in}
use activemq_artemis_operato.Loop.{
  none_yet, Deployed, Loop, Kit, composite, sync_types, sync_delta, for_each, get_from_deployed,
  track_error, create_requested_resource, init_deployed, track_desired, sync_desired_with_deployed,
}
use activemq_artemis_operato.Loop.Synced.{AllApply, sync_desired_with_deployed_iff}
use activemq_artemis_operato.App.Validate.{
  validate_spec, validate_resource_name, resource_name_error, verify_capability_address_type,
  validate_addresses_disjoint, validate_address_capability_consistency, declared_addresses, declare,
  capability_usage_error, ref_usage_error,
}
use activemq_artemis_operato.App.Address.{is_multicast_address}
use activemq_artemis_operato.App.Validate.Capability.{
  capability_error, producer_error, ref_error, consumer_error, subscription_error, routing_error,
  producer_routing, consumer_routing,
}
use activemq_artemis_operato.App.Resolve.{
  Progress, resolve_broker_service, resolve_with, resolve_in, bind, check_binding, assign,
}
use activemq_artemis_operato.App.Resolve.Assign.{binding_of}
use activemq_artemis_operato.App.Binding.{new_secret, secret_type, process_binding_secret}
use activemq_artemis_operato.App.Status.{holds_at, is_provisioned, app_identity, process_status}
use activemq_artemis_operato.App.Status.Ready.{is_success, is_deployed, process_status-ready}
use activemq_artemis_operato.App.Reconcile.{
  World, ordered_types, begin, after_validate, after_resolve, with_deployed, sync_binding, process,
  write_status, reconcile,
}
use activemq_artemis_operato.App.Reconcile.Invalid.{reconcile_invalid}
use activemq_artemis_operato.App.Reconcile.Returned.{Reconciled, process-Reconciled}
use activemq_artemis_operato.Examples.{orders, broker, shop, front_ops, app_with}
use activemq_artemis_operato.Examples.Services.{broker_found}

abbrev pub owner : OwnerReference
owner = record {
  api_version = "broker.arkmq.org/v1beta2";
  kind = "BrokerApp";
  uid = "1";
  name = "orders";
}

abbrev secret : Object
secret = record {
  type = secret_type;
  name = "orders-binding-secret";
  namespace = "shop";
  owner_references = [];
  annotations = [];
  content = [];
  detail = no_detail;
}

-- Each write succeeds, but an update is refused as invalid.
abbrev pub counting : Client ℕ
counting = record {
  create = λ w o. (suc w, none);
  update = λ w o. (suc w, some (status_error "Failure" 422 "Invalid" "forbidden"));
  delete = λ w o. (suc w, none);
  update_status = λ w app. (suc w, none);
  update_service_status = λ w service. (suc w, none);
}

abbrev wanted : Option (List (String × Object)) → List Object
wanted none = []
wanted (some named) = map (λ (p : String × Object). p.1) named

-- Nothing is deployed, so what is desired is added.
abbrev pub kit : Kit
kit = record {
  list_all = λ o. ok [];
  compare = λ deployed desired t.
      some (record { added = wanted (lookup secret_type desired); updated = []; removed = [] });
  quoted = λ errors. "errors";
}

abbrev pub empty_loop : Loop
empty_loop = record { deployed = []; desired = [] }

abbrev world : World ℕ
world = record {
  cluster = shop;
  conditions = front_ops;
  client = counting;
  kit = kit;
  owner_of = λ app. owner;
  deep_equal = λ a b. false;
}

sync_desired_with_deployed_iff_example :
    ((sync_desired_with_deployed counting kit owner ordered_types
        (track_desired secret empty_loop)
        0).1
      ≡ none)
    ↔ AllApply counting owner
        (kit.compare
          (track_desired secret empty_loop).deployed
          (track_desired secret empty_loop).desired)
        ordered_types
        0
sync_desired_with_deployed_iff_example =
    sync_desired_with_deployed_iff ℕ counting kit owner ordered_types
      (track_desired secret empty_loop) 0

-- An app with a name that is not safe in a path.
abbrev unsafe : BrokerApp
unsafe = app_with "../orders" [] [] [] none none

abbrev unsafe_error : Error
unsafe_error =
    validation_error "InvalidResourceName"
      "invalid resource name: resource name contains illegal path separator: ../orders"

unsafe_rejected : validate_spec unsafe ≡ some unsafe_error
unfolding validate_spec validate_resource_name resource_name_error contains error_text
unsafe_rejected = refl

abbrev unsafe_world : World ℕ
unsafe_world = record world { cluster = record shop { get_app = λ namespace name. ok unsafe } }

reconcile_invalid_example : reconcile unsafe_world 0 "shop" "../orders" ≡ (
  (write_status unsafe_world unsafe 0
      (process_status front_ops unsafe (begin unsafe) (some unsafe_error))).0,
  none,
)
reconcile_invalid_example =
    reconcile_invalid ℕ unsafe_world 0 "shop" "../orders" unsafe unsafe_error refl unsafe_rejected

orders_valid : validate_spec orders ≡ none
unfolding validate_spec validate_resource_name resource_name_error contains has_prefix
    verify_capability_address_type list_error capability_error producer_error ref_error
    is_multicast_address consumer_error subscription_error routing_error producer_routing
    consumer_routing validate_addresses_disjoint validate_address_capability_consistency
    declared_addresses declare capability_usage_error ref_usage_error insert lookup
orders_valid = refl

-- The app is placed on the service.
placed : resolve_broker_service shop front_ops orders (begin orders) ≡ (
  record {
    status = record orders.status { service = some (binding_of orders broker 61617) };
    service = some broker;
  },
  none,
)
unfolding resolve_broker_service resolve_with resolve_in bind check_binding assign begin
placed = rw broker_found refl

is_placed : is_provisioned orders broker ≡ true
unfolding is_provisioned app_identity
is_placed = refl

orders_processed : process world orders 0 ≡ (
  1,
  record {
    status = record orders.status { service = some (binding_of orders broker 61617) };
    service = some broker;
  },
  none,
)
unfolding process after_validate after_resolve with_deployed sync_binding init_deployed
    process_binding_secret sync_desired_with_deployed composite sync_types sync_delta for_each
    lookup track_desired insert get_from_deployed new_secret track_error create_requested_resource
    create
orders_processed = rw (orders_valid, placed) refl

abbrev deployed_after : ℕ × Progress × Option Error → Bool
deployed_after (w, s, e) =
    is_success front_ops orders e && is_deployed front_ops orders s.status.service s.service

orders_ready :
    holds_at orders.generation (
      front_ops.find_status_condition
        (process_status front_ops orders
          (process world orders 0).1
          (process world orders 0).2).conditions
        ready_condition_type)
    ≡ true
orders_ready =
    process_status-ready front_ops orders (process world orders 0).1 (process world orders 0).2
    ∙ ap deployed_after orders_processed
    ∙ is_placed

wanted-Memᴰ :
    (named : Option (List (String × Object))) (name : String) (o : Object)
    → lookup name (none_yet named) ≡ some o
    → Memᴰ o (wanted named)
wanted-Memᴰ none name o h = absurd (unfold lookup in ground (arith, h))
wanted-Memᴰ (some named) name o h =
    Memᴰ-image (λ (p : String × Object). p.1) (lookup-Memᴰ name o named h)

pub kit-ComparesSecrets : ComparesSecrets kit
unfolding lookup
kit-ComparesSecrets = record {
  lists = λ owner deployed e. nothing_listed deployed (ground (arith, e));
  compares = λ deployed desired name o e. inr (
    record { added = wanted (lookup secret_type desired); updated = []; removed = [] },
    refl,
    inl (wanted-Memᴰ (lookup secret_type desired) name o e),
  );
}
  where
    nothing_listed :
        (deployed : Deployed)
        → [] ≡ deployed
        → All (λ (o : Object). o.type ≡ secret_type) (secrets_in deployed)
    nothing_listed deployed e = rw (← e) tt

process-Reconciled_example : Reconciled world orders 0
process-Reconciled_example = process-Reconciled ℕ world orders 0 kit-ComparesSecrets orders_ready
