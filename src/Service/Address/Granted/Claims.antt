-- ===== src/Service/Address/Granted/Claims.antt =====
-- The address tracker of controllers/brokerservice_controller.go against a description of an app's use
-- of addresses that keeps no state and knows no order.
use activemq_artemis_operato.Base.{String, false, ◌||◌, [], ◌≡◌, refl, ap, ◌∙◌, any, has, lookup}
use activemq_artemis_operato.Errors.{ok}
use activemq_artemis_operato.Api.{BrokerAppSpec}
use activemq_artemis_operato.Service.Address.{
  Tracker, new_address_config, entry_of, track_address_types, use_capability, track_app,
}
use activemq_artemis_operato.Service.Address.Granted.{Fact, holds_of}
use activemq_artemis_operato.Service.Address.Granted.Terms.{
  declaration_claims, capability_claims, app_claims,
}
use activemq_artemis_operato.Service.Address.Granted.Declared.{known-track_address_types}
use activemq_artemis_operato.Service.Address.Granted.Used.{known-each, known-use_capability}

nothing_known : (fact : Fact) → holds_of fact new_address_config ≡ false
unfolding holds_of has
nothing_known (Fact.sends r) = refl
nothing_known (Fact.consumes r) = refl
nothing_known (Fact.subscribes r) = refl
nothing_known Fact.owned = refl
nothing_known Fact.multicast = refl

-- Where the tracker is built without a conflict, a fact holds of an address exactly when a declaration
-- or a reference of the app claims it, in whatever order they come.
pub track_app-claims :
    (role : String) (fact : Fact) (a : String) (spec : BrokerAppSpec) (t : Tracker)
    → track_app role spec ≡ ok t
    → holds_of fact (entry_of a t) ≡ app_claims role fact a spec
unfolding track_app entry_of lookup
track_app-claims role fact a spec t h =
    let declared = any (declaration_claims role fact a) spec.addresses in
    let shared = any (declaration_claims role fact a) spec.shared_addresses in
    let start : holds_of fact (entry_of a []) ≡ false = nothing_known fact in
    known-each role fact a (use_capability role) (capability_claims role fact a)
      (known-use_capability role fact a) spec.capabilities _ t h
    ∙ ap (λ x. x || any (capability_claims role fact a) spec.capabilities)
        (known-track_address_types role fact a spec.shared_addresses
            (track_address_types spec.addresses [])
          ∙ ap (λ x. x || shared)
              (known-track_address_types role fact a spec.addresses []
                ∙ ap (λ x. x || declared) start))
