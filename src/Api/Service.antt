-- ===== src/Api/Service.antt =====
-- api/v1beta2/brokerservice_types.go: a service that applications are bound to.
use activemq_artemis_operato.Base.{String, List, Bool, Option}
use activemq_artemis_operato.Api.Meta.{ObjectMeta, Condition, ResourceRequirements}

-- An environment variable is a name with its value.
pub record BrokerServiceSpec : Type 0 where
  pub image : Option String
  pub env : List (String × String)
  pub resources : ResourceRequirements
  pub app_selector_expression : String

pub record RejectedApp : Type 0 where
  pub name : String
  pub namespace : String
  pub reason : String

pub record BrokerServiceStatus : Type 0 where
  pub conditions : List Condition
  pub provisioned_apps : List String
  pub rejected_apps : List RejectedApp

pub record BrokerService : Type 0 where
  pub metadata : ObjectMeta
  pub open metadata use *
  pub spec : BrokerServiceSpec
  pub status : BrokerServiceStatus

-- What a service writes of the spec of its broker, of api/v1beta2/broker_types.go.
pub record BrokerSpec : Type 0 where
  pub image : String
  pub persistence_enabled : Bool
  pub labels : List (String × String)
  pub env : List (String × String)
  pub resources : ResourceRequirements
  pub extra_mount_secrets : List String

-- A configuration that the broker has applied, with the version of its secret.
pub record ExternalConfigStatus : Type 0 where
  pub name : String
  pub resource_version : String

-- What it reads of the broker's status.
pub record BrokerStatus : Type 0 where
  pub conditions : List Condition
  pub external_configs : List ExternalConfigStatus
