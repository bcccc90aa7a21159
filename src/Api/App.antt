-- ===== src/Api/App.antt =====
-- api/v1beta2/brokerapp_types.go: an application's addresses, capabilities and binding.
use activemq_artemis_operato.Base.{ℕ, String, List, Option, Bool, concat, ◌∷◌, []}
use activemq_artemis_operato.Api.Meta.{ObjectMeta, Condition, LabelSelector, ResourceRequirements}

pub record AddressType : Type 0 where
  pub address : String
  pub pub_sub : Option Bool
  pub subscriptions : List String

pub record AddressRef : Type 0 where
  pub address : String
  pub app_namespace : String
  pub app_name : String
  pub pub_sub : Option Bool
  pub subscriptions : List String

pub record AppCapabilityType : Type 0 where
  pub producer_of : List AddressRef
  pub consumer_of : List AddressRef

pub record BrokerAppSpec : Type 0 where
  pub service_selector : Option LabelSelector
  pub addresses : List AddressType
  pub shared_addresses : List AddressType
  pub capabilities : List AppCapabilityType
  pub resources : ResourceRequirements

-- The assigned port is 0 while none is assigned.
pub record BrokerServiceBindingStatus : Type 0 where
  pub name : String
  pub namespace : String
  pub secret : String
  pub assigned_port : ℕ

-- `Key` of a binding.
unfoldable pub binding_key : BrokerServiceBindingStatus → String
binding_key s = concat (s.namespace ∷ ":" ∷ s.name ∷ [])

pub record BrokerAppStatus : Type 0 where
  pub observed_generation : ℕ
  pub conditions : List Condition
  pub service : Option BrokerServiceBindingStatus

pub record BrokerApp : Type 0 where
  pub metadata : ObjectMeta
  pub open metadata use *
  pub spec : BrokerAppSpec
  pub status : BrokerAppStatus
