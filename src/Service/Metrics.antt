-- ===== src/Service/Metrics.antt =====
-- `processControlPlaneOverrideSecret` of controllers/brokerservice_controller.go: the queues whose
-- metrics the broker exports, and the configuration of the exporter.
pub mod Queues
use activemq_artemis_operato.Base.{
  String, Bool, true, false, Option, none, some, List, [], ◌∷◌, ◌++◌, concat, contains, before,
  after, add, insert, is_empty, if◌then◌else◌,
}
use activemq_artemis_operato.Errors.{Result, ok, err}
use activemq_artemis_operato.Api.{AddressRef, AppCapabilityType, BrokerApp, BrokerService}
use activemq_artemis_operato.Actions.{Object}
use activemq_artemis_operato.Loop.{Loop, track_desired}
use activemq_artemis_operato.App.Address.{is_multicast_address}
use activemq_artemis_operato.Service.Address.{fqqn}
use activemq_artemis_operato.Service.Properties.{props_header}
use activemq_artemis_operato.Service.Acceptor.{OperatorCa}
use activemq_artemis_operato.Service.Provision.{secret_of}

unfoldable pub add_subscriptions : String → List String → List String → List String
add_subscriptions address [] queues = queues
add_subscriptions address (q ∷ qs) queues =
    add_subscriptions address qs (add (fqqn address q) queues)

unfoldable pub add_ref : AddressRef → List String → List String
add_ref ref queues =
    if is_multicast_address ref.pub_sub ref.subscriptions
    then add_subscriptions ref.address ref.subscriptions queues
    else add ref.address queues

unfoldable pub add_refs : List AddressRef → List String → List String
add_refs [] queues = queues
add_refs (ref ∷ refs) queues = add_refs refs (add_ref ref queues)

unfoldable pub add_capabilities : List AppCapabilityType → List String → List String
add_capabilities [] queues = queues
add_capabilities (c ∷ cs) queues =
    add_capabilities cs (add_refs c.producer_of (add_refs c.consumer_of queues))

-- The keys of `appQueues`.
unfoldable pub app_queues : List BrokerApp → List String → List String
app_queues [] queues = queues
app_queues (app ∷ apps) queues = app_queues apps (add_capabilities app.spec.capabilities queues)

-- The name of the secret and the key of the CA; an error leaves a name empty.
abbrev or_empty : Result String → String
or_empty (ok s) = s
or_empty (err e) = ""

abbrev key_of : OperatorCa → Result String → String
key_of ca (ok secret) = or_empty ca.key
key_of ca (err e) = ""

unfoldable pub object_name : String → String → String
object_name broker address =
    if contains address "::"
    then concat (
        "  org.apache.activemq.artemis:broker=\""
        ∷ broker
        ∷ "\",component=addresses,address=\""
        ∷ before address "::"
        ∷ "\",subcomponent=queues,routing-type=\"multicast\",queue=\""
        ∷ after address "::"
        ∷ "\":\n"
        ∷ [])
    else concat (
        "  org.apache.activemq.artemis:broker=\"" ∷ broker ∷ "\",component=addresses,address=\""
        ∷ address ∷ "\",subcomponent=queues,routing-type=\"anycast\",queue=\"" ∷ address ∷ "\":\n"
        ∷ [])

unfoldable pub queue_lines : String → List String → List String
queue_lines broker [] = []
queue_lines broker (address ∷ addresses) =
    object_name broker address
    ∷ "    - MessageCount\n"
    ∷ "    - ConsumerCount\n"
    ∷ "    - DeliveringCount\n"
    ∷ "    - PersistentSize\n"
    ∷ queue_lines broker addresses

unfoldable pub server_lines : OperatorCa → String → List String
server_lines ca broker =
    let root = concat ("/amq/extra/secrets/" ∷ broker ∷ "-props" ∷ []) in
    "httpServer:\n"
    ∷ "  authentication:\n"
    ∷ "    plugin:\n"
    ∷ "      class: org.apache.activemq.artemis.spi.core.security.jaas.HttpServerAuthenticator\n"
    ∷ "      subjectAttributeName: org.jolokia.jaasSubject\n"
    ∷ "  ssl:\n"
    ∷ "    mutualTLS: true\n"
    ∷ "    keyStore:\n"
    ∷ concat ("      filename: " ∷ root ∷ "/_cert.pemcfg\n" ∷ [])
    ∷ "      type: PEMCFG\n"
    ∷ "    trustStore:\n"
    ∷ concat (
        "      filename: /amq/extra/secrets/"
        ∷ or_empty ca.secret
        ∷ "/"
        ∷ key_of ca ca.secret
        ∷ "\n"
        ∷ [])
    ∷ "      type: PEMCA\n"
    ∷ "    certificate:\n"
    ∷ "      alias: alias\n"
    ∷ "attrNameSnakeCase: true\n"
    ∷ "includeObjectNames:\n"
    ∷ "  - \"org.apache.activemq.artemis:broker=*,component=addresses,address=*,subcomponent=queues,routing-type=*,queue=*\"\n"
    ∷ []

abbrev rule_lines : List String
rule_lines =
    "rules:\n"
    ∷ "  - pattern: \"org.apache.activemq.artemis<broker=\\\"([^\\\"]+)\\\", component=addresses, address=\\\"([^\\\"]+)\\\", subcomponent=queues, routing-type=\\\"([^\\\"]+)\\\", queue=\\\"([^\\\"]+)\\\"><>([^:]+):\"\n"
    ∷ "    name: broker_queue_$5\n" ∷ "    help: $5\n" ∷ "    attrNameSnakeCase: true\n"
    ∷ "    type: GAUGE\n" ∷ "    labels:\n" ∷ "      broker: \"$1\"\n" ∷ "      address: \"$2\"\n"
    ∷ "      routing_type: \"$3\"\n" ∷ "      queue: \"$4\"\n" ∷ []

-- The range over the map is not sorted: the lines of the queues stand in the order of this list.
unfoldable pub attribute_lines : String → List String → List String
attribute_lines broker queues =
    if is_empty queues then [] else "includeObjectNameAttributes:\n" ∷ queue_lines broker queues

unfoldable pub generate_prometheus_config : OperatorCa → String → List String → String
generate_prometheus_config ca broker queues =
    concat (props_header ∷ server_lines ca broker ++ (attribute_lines broker queues ++ rule_lines))

abbrev pub prometheus_config_file_name : String
prometheus_config_file_name = "_prometheus_exporter_config"

unfoldable pub control_plane_override_secret_name : String → String
control_plane_override_secret_name service = concat (service ∷ "-control-plane-override" ∷ [])

unfoldable pub process_control_plane_override_secret :
    OperatorCa → BrokerService → List BrokerApp → Loop → Loop
process_control_plane_override_secret ca service apps loop =
    let desired = secret_of service loop (control_plane_override_secret_name service.name) in
    track_desired
      (record desired {
        content =
            insert prometheus_config_file_name
              (generate_prometheus_config ca service.name (app_queues apps [])) desired.content;
      })
      loop
