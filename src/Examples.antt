-- ===== src/Examples.antt =====
-- A small cluster, on which the theorems are tried: a service, an app bound to it that shares an
-- address, and an app that refers to the address and is not bound yet.
pub mod Ports
pub mod Specs
pub mod Services
pub mod Bindings
pub mod Conditions
pub mod Reconciles
pub mod Provisioning
pub mod Provisioned
pub mod Written
pub mod Versions
pub mod Pods
pub mod Selectors
use activemq_artemis_operato.Base.{
  ℕ, String, Bool, true, false, Option, none, some, List, [], ◌∷◌, ◌==◌, ℤ, pos, refl,
  if◌then◌else◌,
}
use activemq_artemis_operato.Errors.{Error, plain, Result, ok, err}
use activemq_artemis_operato.Api.{
  ObjectMeta, ConditionStatus, status_true, Condition, LabelSelector, Quantity,
  ResourceRequirements, AddressType, AddressRef, AppCapabilityType, BrokerAppSpec,
  BrokerServiceBindingStatus, BrokerAppStatus, BrokerApp, BrokerServiceSpec, BrokerServiceStatus,
  RejectedApp, BrokerService, deployed_condition_type, provisioned_reason,
}
use activemq_artemis_operato.Cluster.{Cluster, ConditionOps, is_true_condition}

abbrev meta : String → String → ObjectMeta
meta namespace name = record {
  name = name;
  namespace = namespace;
  generation = 2;
  deletion_timestamp = none;
  labels = [];
}

abbrev pub mebibytes : ℕ → Quantity
mebibytes n = record { value = pos n; printed = "n" }

abbrev pub plain_address : String → AddressType
plain_address a = record { address = a; pub_sub = none; subscriptions = [] }

abbrev pub local_ref : String → AddressRef
local_ref a = record {
  address = a;
  app_namespace = "";
  app_name = "";
  pub_sub = none;
  subscriptions = [];
}

abbrev pub prices_ref : AddressRef
prices_ref = record {
  address = "prices";
  app_namespace = "shop";
  app_name = "catalog";
  pub_sub = none;
  subscriptions = [];
}

abbrev pub capability : List AddressRef → List AddressRef → AppCapabilityType
capability producers consumers = record { producer_of = producers; consumer_of = consumers }

abbrev pub requests : Option Quantity → ResourceRequirements
requests q = record { limits_memory = none; requests_memory = q }

abbrev pub app_with :
    String
    → List AddressType
    → List AddressType
    → List AppCapabilityType
    → Option Quantity
    → Option BrokerServiceBindingStatus
    → BrokerApp
app_with name addresses shared capabilities request bound = record {
  metadata = meta "shop" name;
  spec = record {
    service_selector = none;
    addresses = addresses;
    shared_addresses = shared;
    capabilities = capabilities;
    resources = requests request;
  };
  status = record { observed_generation = 1; conditions = []; service = bound };
}

abbrev pub binding_at : String → ℕ → BrokerServiceBindingStatus
binding_at app port = record {
  name = "broker";
  namespace = "infra";
  secret = app;
  assigned_port = port;
}

-- The app that shares an address, bound at the first port.
abbrev pub catalog : BrokerApp
catalog =
    app_with "catalog" [] (plain_address "prices" ∷ []) [] (some (mebibytes 10))
      (some (binding_at "catalog" 61616))

-- The app that refers to it.
abbrev pub orders : BrokerApp
orders =
    app_with "orders" (plain_address "orders.in" ∷ []) []
      (capability (local_ref "orders.in" ∷ []) (prices_ref ∷ []) ∷ []) (some (mebibytes 20)) none

-- The same app, bound.
abbrev pub bound_orders : BrokerApp
bound_orders = record orders {
  status = record orders.status { service = some (binding_at "orders" 61617) };
}

abbrev pub deployed_at : ℕ → Condition
deployed_at generation = record {
  type = deployed_condition_type;
  status = status_true;
  observed_generation = generation;
  reason = provisioned_reason;
  message = "";
}

abbrev pub service_with : ℕ → List RejectedApp → BrokerService
service_with limit rejected = record {
  metadata = meta "infra" "broker";
  spec = record {
    image = none;
    env = [];
    resources = record { limits_memory = some (mebibytes limit); requests_memory = none };
    app_selector_expression = "";
  };
  status = record {
    conditions = deployed_at 2 ∷ [];
    provisioned_apps = "shop-orders" ∷ [];
    rejected_apps = rejected;
  };
}

abbrev pub broker : BrokerService
broker = service_with 100 []

abbrev missing : Error
missing = plain "not found"

-- The cluster with these apps bound to the service, and these services.
abbrev pub cluster_with : List BrokerApp → List BrokerService → Cluster
cluster_with apps services = record {
  label_selector_as_selector = λ _. ok "all";
  list_services = λ _. ok services;
  list_bound_apps = λ key. if key == "infra:broker" then ok apps else ok [];
  list_apps = ok (catalog ∷ orders ∷ []);
  get_app = λ namespace name. if name == "catalog" then ok catalog else err missing;
  get_service = λ namespace name. err missing;
  is_not_found = λ _. true;
  app_matches = λ app service. ok true;
  cluster_domain = "cluster.local";
}

abbrev pub shop : Cluster
shop = cluster_with (catalog ∷ []) (broker ∷ [])

abbrev find_condition : List Condition → String → Option Condition
find_condition [] t = none
find_condition (c ∷ cs) t = if c.type == t then some c else find_condition cs t

-- A condition is set in front of those there are, and found first.
abbrev pub front_ops : ConditionOps
front_ops = record {
  set_status_condition = λ cs c. c ∷ cs;
  find_status_condition = find_condition;
  find-set = λ cs c t. refl;
  is_status_condition_true = λ cs t. is_true_condition (find_condition cs t);
  is_true-find = λ cs t. refl;
}
