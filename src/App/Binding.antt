-- ===== src/App/Binding.antt =====
-- `processBindingSecret` of controllers/brokerapp_controller.go: the secret that tells an app where its
-- broker listens.
pub mod Secret
use activemq_artemis_operato.Base.{
  ℕ, String, Bool, true, false, Option, none, some, List, [], ◌∷◌, ◌=?◌, concat, decimal,
  if◌then◌else◌,
}
use activemq_artemis_operato.Errors.{Error, plain, Result, ok, err}
use activemq_artemis_operato.Api.{BrokerApp, BrokerServiceBindingStatus}
use activemq_artemis_operato.Cluster.{Cluster}
use activemq_artemis_operato.Ports.{unassigned_port}
use activemq_artemis_operato.Actions.{Object, no_detail}
use activemq_artemis_operato.Loop.{Loop, get_from_deployed, track_desired}
use activemq_artemis_operato.App.Resolve.{bindings_secret_name}

-- `reflect.TypeOf(corev1.Secret{})`, under which the deployed secrets are listed.
abbrev pub secret_kind : String
secret_kind = "v1.Secret"

-- The type of the pointer to a secret, under which the desired ones are kept.
abbrev pub secret_type : String
secret_type = "*v1.Secret"

-- `secrets.NewSecret` with no data and no labels.
unfoldable pub new_secret : String → String → Object
new_secret namespace name = record {
  type = secret_type;
  name = name;
  namespace = namespace;
  owner_references = [];
  annotations = [];
  content = [];
  detail = no_detail;
}

abbrev pub existing_or_new : BrokerApp → Option Object → Object
existing_or_new instance none = new_secret instance.namespace (bindings_secret_name instance.name)
existing_or_new instance (some o) = o

-- The host as `name.namespace.svc.domain`.
unfoldable pub broker_host : Cluster → BrokerServiceBindingStatus → String
broker_host k bound = concat (bound.name ∷ "." ∷ bound.namespace ∷ ".svc." ∷ k.cluster_domain ∷ [])

unfoldable pub binding_data : Cluster → BrokerServiceBindingStatus → List (String × String)
binding_data k bound =
    ("host", broker_host k bound)
    ∷ ("port", decimal bound.assigned_port)
    ∷ ("uri", concat ("amqps://" ∷ broker_host k bound ∷ ":" ∷ decimal bound.assigned_port ∷ []))
    ∷ []

unfoldable pub process_binding_secret :
    Cluster → BrokerApp → Option BrokerServiceBindingStatus → Loop → Result Loop
process_binding_secret k instance none loop = ok loop
process_binding_secret k instance (some bound) loop =
    let name = bindings_secret_name instance.name in
    let desired = existing_or_new instance (get_from_deployed loop secret_kind name) in
    if bound.assigned_port =? unassigned_port
    then err (plain (concat ("no port assigned for app " ∷ instance.name ∷ [])))
    else ok (track_desired (record desired { content = binding_data k bound }) loop)
