-- ===== src/Examples/Specs.antt =====
-- The addresses and the validation of specs, on examples.
use activemq_artemis_operato.Base.{◌≡◌, none, [], ◌∷◌, ◌↔◌}
use activemq_artemis_operato.Api.{AppCapabilityType}
use activemq_artemis_operato.App.Validate.{validate_spec}
use activemq_artemis_operato.App.Validate.Capability.{routing_error}
use activemq_artemis_operato.App.Validate.Routing.{HasRouting, routing_error_iff}
use activemq_artemis_operato.App.Validate.Spec.{IsValidApp, validate_spec_iff}
use activemq_artemis_operato.Examples.{orders, local_ref, capability}

-- One capability that produces to an address and consumes from it.
abbrev loopback : AppCapabilityType
loopback = capability (local_ref "orders.in" ∷ []) (local_ref "orders.in" ∷ [])

routing_error_iff_example : (routing_error loopback ≡ none) ↔ HasRouting loopback
routing_error_iff_example = routing_error_iff loopback

validate_spec_iff_example : (validate_spec orders ≡ none) ↔ IsValidApp orders
validate_spec_iff_example = validate_spec_iff orders
