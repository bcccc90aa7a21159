-- ===== src/Service/Acceptor/Files.antt =====
-- `processAcceptor` of controllers/brokerservice_controller.go: when an app gets an acceptor, and the
-- files that its configuration names.
use activemq_artemis_operato.Base.{
  ℕ, String, some, ◌≡◌, ◌≢◌, lookup, concat, decimal, List, [], ◌∷◌, Memᴰ,
}
use activemq_artemis_operato.Errors.{ok}
use activemq_artemis_operato.Api.{BrokerApp, BrokerServiceBindingStatus}
use activemq_artemis_operato.Ports.{unassigned_port}
use activemq_artemis_operato.Service.Acceptor.{
  Files, OperatorCa, get_trust_store_path, app_properties_secret_name, acceptor_key,
}

-- There is a file of this name.
abbrev pub Present : String → Files → Type 0
Present key files = (text : String) × (lookup key files ≡ some text)

-- A text that is put together of pieces, one of which is the line.
abbrev pub HasLine : String → String → Type 0
HasLine text line = (pieces : List String) × (text ≡ concat pieces) × Memᴰ line pieces

-- A property of the acceptor for a port, and one of the login module of the realm for a port.
abbrev pub acceptor_line : ℕ → String → String → String
acceptor_line port key value =
    concat ("acceptorConfigurations.\"" ∷ decimal port ∷ "\"." ∷ key ∷ "=" ∷ value ∷ "\n" ∷ [])

abbrev pub login_line : String → String → String → String
login_line realm key value =
    concat ("jaasConfigs.\"" ∷ realm ∷ "\".modules.cert." ∷ key ∷ "=" ∷ value ∷ "\n" ∷ [])

-- The configuration of the acceptor of a port, for the realm of the port. Each file that it names is in
-- the secret: the key store by its path, and the users and the roles in the directory of the secret.
pub record Configures (service path realm : String) (port : ℕ) (files : Files) (text : String)
    : Type 0 where
  pub listens : HasLine text (acceptor_line port "params.port" (decimal port))
  pub encrypted : HasLine text (acceptor_line port "params.sslEnabled" "true")
  pub authenticated : HasLine text (acceptor_line port "params.needClientAuth" "true")
  pub trust_store : HasLine text (acceptor_line port "params.trustStorePath" path)
  pub secured : HasLine text (acceptor_line port "params.securityDomain" realm)
  pub key_store : String
  pub key_store_named : HasLine text (
      acceptor_line port "params.keyStorePath" (
        concat ("/amq/extra/secrets/" ∷ app_properties_secret_name service ∷ "/" ∷ key_store ∷ [])))
  pub key_store_there : Present key_store files
  pub directory : HasLine text (
      login_line realm "params.baseDir"
        (concat ("/amq/extra/secrets/" ∷ app_properties_secret_name service ∷ [])))
  pub users : String
  pub users_named :
      HasLine text (login_line realm "params.\"org.apache.activemq.jaas.textfiledn.user\"" users)
  pub users_there : Present users files
  pub roles : String
  pub roles_named :
      HasLine text (login_line realm "params.\"org.apache.activemq.jaas.textfiledn.role\"" roles)
  pub roles_there : Present roles files

-- An app with an acceptor: the path of the trust store is known, the app is bound at a port, and the
-- file of the acceptor configures it for this port.
pub record Accepted (ca : OperatorCa) (service : String) (app : BrokerApp) (files : Files)
    : Type 0 where
  pub path : String
  pub trusted : get_trust_store_path ca ≡ ok path
  pub bound : BrokerServiceBindingStatus
  pub is_bound : app.status.service ≡ some bound
  pub assigned : bound.assigned_port ≢ unassigned_port
  pub text : String
  pub written : lookup (acceptor_key app) files ≡ some text
  pub configured :
      Configures service path
        (concat ("port-" ∷ decimal bound.assigned_port ∷ []))
        bound.assigned_port
        files
        text
