-- ===== src/Service/Acceptor.antt =====
-- `processAcceptor` of controllers/brokerservice_controller.go: the acceptor of an app, with the files
-- that its login module reads. A secret's data is a map from file names to texts.
pub mod Files
use activemq_artemis_operato.Base.{
  ℕ, String, Bool, true, false, not, Option, none, some, List, [], ◌∷◌, ◌=?◌, concat, decimal, add,
  insert, replace_all, is_empty, sort_strings, if◌then◌else◌,
}
use activemq_artemis_operato.Errors.{Error, plain, Result, ok, err}
use activemq_artemis_operato.Loops.{and_then}
use activemq_artemis_operato.Api.{AppCapabilityType, BrokerApp, BrokerServiceBindingStatus}
use activemq_artemis_operato.Ports.{unassigned_port, default_start_port}
use activemq_artemis_operato.App.Status.{app_identity}
use activemq_artemis_operato.Service.Properties.{producer_role, consumer_role, props_header}

-- The data of a secret.
abbrev pub Files : Type 0
Files = List (String × String)

-- The secret with the operator's CA: its name, and the key of the CA in it.
pub record OperatorCa : Type 0 where
  pub secret : Result String
  pub key : Result String

unfoldable pub get_trust_store_path : OperatorCa → Result String
get_trust_store_path ca =
    and_then ca.secret
      λ secret. and_then ca.key λ key. ok (concat ("/amq/extra/secrets/" ∷ secret ∷ "/" ∷ key ∷ []))

-- `AppIdentityPrefixed`.
unfoldable pub app_identity_prefixed : BrokerApp → String → String
app_identity_prefixed app v = concat (app_identity app ∷ "-" ∷ v ∷ [])

-- `UnderscoreAppIdentityPrefixed`.
unfoldable pub underscore_app_identity_prefixed : BrokerApp → String → String
underscore_app_identity_prefixed app v = concat ("_" ∷ app_identity_prefixed app v ∷ [])

-- `AppPropertiesSecretName`.
unfoldable pub app_properties_secret_name : String → String
app_properties_secret_name name = concat (name ∷ "-app" ∷ "-bp" ∷ [])

unfoldable pub cert_secret_name : String → String
cert_secret_name service = concat (service ∷ "-broker-cert" ∷ [])

unfoldable pub make_pem_cfg_props : String → String
make_pem_cfg_props service = concat (
    props_header
    ∷ "source.key=/amq/extra/secrets/"
    ∷ cert_secret_name service
    ∷ "/tls.key\n"
    ∷ "source.cert=/amq/extra/secrets/"
    ∷ cert_secret_name service
    ∷ "/tls.crt\n"
    ∷ [])

unfoldable pub realm_port : Option BrokerServiceBindingStatus → ℕ
realm_port none = default_start_port
realm_port (some bound) =
    if bound.assigned_port =? unassigned_port then default_start_port else bound.assigned_port

unfoldable pub jaas_config_realm_name : BrokerApp → String
jaas_config_realm_name app = concat ("port-" ∷ decimal (realm_port app.status.service) ∷ [])

unfoldable pub get_cert_users_key : String → String
get_cert_users_key realm = concat ("_" ∷ realm ∷ "-cert-users" ∷ [])

unfoldable pub get_cert_roles_key : String → String
get_cert_roles_key realm = concat ("_" ∷ realm ∷ "-cert-roles" ∷ [])

unfoldable pub escape_for_regex : String → String
escape_for_regex s = replace_all (replace_all s b'.' "\\.") b'-' "\\-"

unfoldable pub users_text : BrokerApp → String
users_text app =
    concat (props_header ∷ app_identity app ∷ "=/.*" ∷ escape_for_regex app.name ∷ ".*/\n" ∷ [])

abbrev role_line : String → String → String
role_line role user = concat (role ∷ "=" ∷ user ∷ "\n" ∷ [])

-- The lines that the capabilities of an app come to, each once.
unfoldable pub role_lines : String → List AppCapabilityType → List String → List String
role_lines user [] lines = lines
role_lines user (c ∷ cs) lines =
    let consumers =
      if is_empty c.consumer_of then lines else add (role_line (consumer_role user) user) lines in
    role_lines user cs (
      if is_empty c.producer_of
      then consumers
      else add (role_line (producer_role user) user) consumers)

unfoldable pub roles_text : BrokerApp → String
roles_text app =
    concat (props_header ∷ sort_strings (role_lines (app_identity app) app.spec.capabilities []))

-- The files that the acceptor's configuration names.
unfoldable pub pem_cfg_key : BrokerApp → String
pem_cfg_key app = underscore_app_identity_prefixed app "tls.pemcfg"

unfoldable pub cert_users_cfg_key : BrokerApp → String
cert_users_cfg_key app =
    underscore_app_identity_prefixed app (get_cert_users_key (jaas_config_realm_name app))

unfoldable pub cert_roles_cfg_key : BrokerApp → String
cert_roles_cfg_key app =
    underscore_app_identity_prefixed app (get_cert_roles_key (jaas_config_realm_name app))

abbrev param : String → String → String → String
param name key value =
    concat ("acceptorConfigurations.\"" ∷ name ∷ "\"." ∷ key ∷ "=" ∷ value ∷ "\n" ∷ [])

abbrev module_param : String → String → String → String
module_param realm key value =
    concat ("jaasConfigs.\"" ∷ realm ∷ "\".modules.cert." ∷ key ∷ "=" ∷ value ∷ "\n" ∷ [])

unfoldable pub acceptor_lines : String → String → BrokerApp → ℕ → List String
acceptor_lines service trust_store_path app port =
    let name = decimal port in
    let realm = jaas_config_realm_name app in
    let secret = app_properties_secret_name service in
    (props_header
      ∷ "# tls acceptor\n"
      ∷ param name "factoryClassName"
          "org.apache.activemq.artemis.core.remoting.impl.netty.NettyAcceptorFactory"
      ∷ param name "params.securityDomain" realm
      ∷ param name "params.host" "${HOSTNAME}"
      ∷ param name "params.port" (decimal port)
      ∷ param name "params.sslEnabled" "true"
      ∷ param name "params.needClientAuth" "true"
      ∷ param name "params.saslMechanisms" "EXTERNAL"
      ∷ param name "params.keyStoreType" "PEMCFG"
      ∷ param name "params.keyStorePath"
          (concat ("/amq/extra/secrets/" ∷ secret ∷ "/" ∷ pem_cfg_key app ∷ []))
      ∷ param name "params.trustStoreType" "PEMCA"
      ∷ param name "params.trustStorePath" trust_store_path
      ∷ module_param realm "loginModuleClass"
          "org.apache.activemq.artemis.spi.core.security.jaas.TextFileCertificateLoginModule"
      ∷ module_param realm "controlFlag" "required"
      ∷ module_param realm "params.\"org.apache.activemq.jaas.textfiledn.role\""
          (cert_roles_cfg_key app)
      ∷ module_param realm "params.\"org.apache.activemq.jaas.textfiledn.user\""
          (cert_users_cfg_key app)
      ∷ module_param realm "params.baseDir" (concat ("/amq/extra/secrets/" ∷ secret ∷ []))
      ∷ [])

unfoldable pub acceptor_text : String → String → BrokerApp → ℕ → String
unfolding acceptor_lines
acceptor_text service trust_store_path app port =
    concat (acceptor_lines service trust_store_path app port)

-- The files of the login module, which are written before the binding is looked at.
unfoldable pub login_files : String → BrokerApp → Files → Files
login_files service app files = insert (cert_roles_cfg_key app) (roles_text app) (
    insert (cert_users_cfg_key app) (users_text app)
      (insert (pem_cfg_key app) (make_pem_cfg_props service) files))

unfoldable pub acceptor_key : BrokerApp → String
acceptor_key app = app_identity_prefixed app "acceptor.properties"

unfoldable pub bound_port : BrokerApp → Option BrokerServiceBindingStatus → Result ℕ
bound_port app none =
    err (plain (concat ("app " ∷ app_identity app ∷ " has no service binding" ∷ [])))
bound_port app (some bound) =
    if bound.assigned_port =? unassigned_port
    then err (plain (concat ("app " ∷ app_identity app ∷ " has no assigned port" ∷ [])))
    else ok bound.assigned_port

-- The data that is left, and the error or nil: what was written before an error stays.
unfoldable pub accept_at : String → BrokerApp → String → Result ℕ → Files → Files × Option Error
accept_at service app path (ok port) files =
    (insert (acceptor_key app) (acceptor_text service path app port) files, none)
accept_at service app path (err e) files = (files, some e)

unfoldable pub accept_with : String → BrokerApp → Result String → Files → Files × Option Error
accept_with service app (ok path) files =
    accept_at service app path (bound_port app app.status.service) (login_files service app files)
accept_with service app (err e) files = (files, some e)

unfoldable pub process_acceptor : OperatorCa → String → BrokerApp → Files → Files × Option Error
process_acceptor ca service app files = accept_with service app (get_trust_store_path ca) files
