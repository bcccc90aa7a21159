-- ===== src/Service/Properties.antt =====
-- `processCapabilities` of controllers/brokerservice_controller.go: the broker properties that an app's
-- use of addresses comes to, its addresses, queues and security roles.
pub mod Permissions
pub mod Rights
pub mod Lines
use activemq_artemis_operato.Base.{
  String, Bool, true, false, not, List, [], ◌∷◌, ◌++◌, map, concat, contains, before, after,
  replace_first, replace_all, sort_strings, add, if◌then◌else◌,
}
use activemq_artemis_operato.Errors.{Error, Result, ok, err}
use activemq_artemis_operato.Loops.{and_then}
use activemq_artemis_operato.Api.{BrokerApp}
use activemq_artemis_operato.App.Address.{fqqn_separator}
use activemq_artemis_operato.App.Status.{app_identity}
use activemq_artemis_operato.Service.Address.{AddressConfig, Tracker, track_app}

unfoldable pub escape_for_properties : String → String
escape_for_properties s =
    replace_all (replace_all (replace_first s "::" "\\:\\:") b'=' "\\=") b' ' "\\ "

unfoldable pub producer_role : String → String
producer_role prefix = concat (prefix ∷ "-producer" ∷ [])

unfoldable pub consumer_role : String → String
consumer_role prefix = concat (prefix ∷ "-consumer" ∷ [])

unfoldable pub metrics_role : String → String
metrics_role prefix = concat (prefix ∷ "-metrics" ∷ [])

-- A property, with the names as they are before they are escaped.
pub data Property : Type 0 where
  routing_types : (address routing : String) → Property
  queue_routing_type : (address queue routing : String) → Property
  queue_address : (address queue : String) → Property
  may_send : (address role : String) → Property
  may_consume : (address role : String) → Property
  may_view : (queue attribute role : String) → Property

-- The line of a property, which the code prints with `%s`.
unfoldable pub property_line : Property → String
unfolding escape_for_properties
property_line (routing_types address routing) = concat (
    "addressConfigurations.\""
    ∷ escape_for_properties address
    ∷ "\".routingTypes="
    ∷ routing
    ∷ "\n"
    ∷ [])
property_line (queue_routing_type address queue routing) = concat (
    "addressConfigurations.\""
    ∷ escape_for_properties address
    ∷ "\".queueConfigs.\""
    ∷ escape_for_properties queue
    ∷ "\".routingType="
    ∷ routing
    ∷ "\n"
    ∷ [])
property_line (queue_address address queue) = concat (
    "addressConfigurations.\""
    ∷ escape_for_properties address
    ∷ "\".queueConfigs.\""
    ∷ escape_for_properties queue
    ∷ "\".address="
    ∷ escape_for_properties address
    ∷ "\n"
    ∷ [])
property_line (may_send address role) =
    concat
      ("securityRoles.\"" ∷ escape_for_properties address ∷ "\".\"" ∷ role ∷ "\".send=true\n" ∷ [])
property_line (may_consume address role) =
    concat (
      "securityRoles.\""
      ∷ escape_for_properties address
      ∷ "\".\""
      ∷ role
      ∷ "\".consume=true\n"
      ∷ [])
property_line (may_view queue attribute role) = concat (
    "securityRoles.\"mops.queue."
    ∷ escape_for_properties queue
    ∷ attribute
    ∷ "\".\""
    ∷ role
    ∷ "\".view=true\n"
    ∷ [])

-- `len(strings.SplitN(name, "::", 2)) > 1`.
abbrev pub is_fqqn : String → Bool
is_fqqn name = contains name fqqn_separator

unfoldable pub address_part : String → String
address_part name = if is_fqqn name then before name fqqn_separator else name

unfoldable pub queue_part : String → String
queue_part name = if is_fqqn name then after name fqqn_separator else name

-- The properties of a queue with its routing.
unfoldable pub queue_properties : String → String → List Property
queue_properties name routing =
    queue_routing_type (address_part name) (queue_part name) routing
    ∷ queue_address (address_part name) (queue_part name)
    ∷ []

abbrev pub if_so {ℓ} : {A : Type ℓ} → Bool → List A → List A
if_so b xs = if b then xs else []

unfoldable pub routing_properties : String → AddressConfig → List Property
routing_properties name addr =
    if_so addr.is_owned (
      routing_types (address_part name) (if addr.is_multicast then "MULTICAST" else "ANYCAST") ∷ [])
    ++ (if_so (not addr.is_multicast) (queue_properties name "ANYCAST")
        ++ if_so (is_fqqn name) (queue_properties name "MULTICAST"))

unfoldable pub role_properties : String → AddressConfig → List Property
role_properties name addr =
    map (λ role. may_send name (producer_role role)) addr.sender_roles
    ++ (map (λ role. may_consume name (consumer_role role)) addr.consumer_roles
        ++ map (λ role. may_consume name (consumer_role role)) addr.subscriber_roles)

-- The queues whose metrics are shown.
unfoldable pub metric_queues : Tracker → List String → List String
metric_queues [] queues = queues
metric_queues ((name, addr) ∷ t) queues = metric_queues t (
    if is_fqqn name
    then add (queue_part name) queues
    else if addr.is_multicast
    then queues
    else add (queue_part name) queues)

unfoldable pub view_properties : String → String → List Property
view_properties queue role =
    may_view queue "" role
    ∷ may_view queue ".getMessageCount" role
    ∷ may_view queue ".getConsumerCount" role
    ∷ may_view queue ".getDeliveringCount" role
    ∷ may_view queue ".getPersistentSize" role
    ∷ []

unfoldable pub metric_properties : String → List String → List Property
metric_properties identity [] = []
metric_properties identity (queue ∷ queues) =
    (view_properties queue "metrics" ++ view_properties queue (metrics_role identity))
    ++ metric_properties identity queues

unfoldable pub address_properties : Tracker → List Property
address_properties [] = []
address_properties ((name, addr) ∷ t) =
    (routing_properties name addr ++ role_properties name addr) ++ address_properties t

unfoldable pub properties_of : String → Tracker → List Property
properties_of identity t = address_properties t ++ metric_properties identity (metric_queues t [])

-- The keys of `props`, each once.
unfoldable pub line_set : List Property → List String
line_set [] = []
line_set (p ∷ ps) = add (property_line p) (line_set ps)

-- `NewPropsWithHeader`.
abbrev pub props_header : String
props_header = "# generated by crd\n#\n"

unfoldable pub properties_text : List Property → String
properties_text ps = concat (props_header ∷ sort_strings (line_set ps))

-- The text of the app's `capabilities.properties`, where its uses do not conflict.
unfoldable pub capabilities_text : BrokerApp → Result String
capabilities_text app =
    let identity = app_identity app in
    and_then (track_app identity app.spec) (λ t. ok (properties_text (properties_of identity t)))
