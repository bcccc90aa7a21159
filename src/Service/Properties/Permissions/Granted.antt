-- ===== src/Service/Properties/Permissions/Granted.antt =====
-- Who may send to and consume from which address, by the properties that `processCapabilities` of
-- controllers/brokerservice_controller.go makes of an app.
use activemq_artemis_operato.Base.{
  String, Bool, false, ◌&&◌, ◌||◌, none, List, [], ◌∷◌, ◌++◌, ◌≡◌, refl, sym, ap, ◌∙◌, map, ◌==◌,
  eq_iff, arith, any, lookup, Distinct, Bool-cases, inl, inr,
}
use activemq_artemis_operato.Service.Address.{AddressConfig, Tracker, entry_of, or_new}
use activemq_artemis_operato.Service.Properties.{
  Property, routing_types, queue_routing_type, queue_address, may_send, may_consume, may_view,
  producer_role, consumer_role, routing_properties, role_properties, metric_properties,
  metric_queues, address_properties, properties_of,
}
use activemq_artemis_operato.Service.Properties.Permissions.{
  any-append, any-three, any-map, any-never, any-and, is_send, is_consume, any-routing_properties,
  any-metric_properties,
}

-- A permission, by the test for its properties, the roles that have it and the name of such a role.
module _ (is : String → String → Property → Bool) (named : String → String)
    (roles : AddressConfig → List String)
    (no_routing : (a r b c : String) → is a r (routing_types b c) ≡ false)
    (no_type : (a r b q c : String) → is a r (queue_routing_type b q c) ≡ false)
    (no_address : (a r b q : String) → is a r (queue_address b q) ≡ false)
    (no_view : (a r q b c : String) → is a r (may_view q b c) ≡ false)
    (of_roles : (a r name : String) (addr : AddressConfig)
      → any (is a r) (role_properties name addr)
        ≡ (name == a && any (λ role. named role == r) (roles addr)))
    (no_roles : roles (or_new none) ≡ []) where
  abbrev granted_in : String → String → String × AddressConfig → Bool
  granted_in a r e = e.0 == a && any (λ role. named role == r) (roles e.1)

  any-address_properties :
      (a r : String) (t : Tracker) → any (is a r) (address_properties t) ≡ any (granted_in a r) t
  unfolding address_properties
  any-address_properties a r [] = refl
  any-address_properties a r ((name, addr) ∷ t) =
      any-append (is a r) (routing_properties name addr ++ role_properties name addr)
        (address_properties t)
      ∙ ap (λ b. b || any (is a r) (address_properties t))
          (any-append (is a r) (routing_properties name addr) (role_properties name addr)
            ∙ ap (λ b. b || any (is a r) (role_properties name addr))
                (any-routing_properties (is a r) (no_routing a r) (no_type a r) (no_address a r)
                  (no_view a r) name addr)
            ∙ of_roles a r name addr)
      ∙ ap (λ b. granted_in a r (name, addr) || b) (any-address_properties a r t)

  -- No entry of the rest is of the address.
  not_in_rest : (a r : String) (t : Tracker) → lookup a t ≡ none → any (granted_in a r) t ≡ false
  unfolding lookup
  not_in_rest a r [] h = refl
  not_in_rest a r ((name, addr) ∷ t) h = elim (Bool-cases (name == a)) [
    | inl same ↦ absurd (ground arith)
    | inr other ↦ rw other (not_in_rest a r t (rw other at h))
  ]

  or_rest : (x y : Bool) → y ≡ false → (x || y) ≡ x
  or_rest x y h = ground arith

  any-granted_in :
      (a r : String) (t : Tracker)
      → Distinct t
      → any (granted_in a r) t ≡ any (λ role. named role == r) (roles (entry_of a t))
  unfolding entry_of lookup
  any-granted_in a r [] d = ap (any (λ role. named role == r)) (sym no_roles)
  any-granted_in a r ((name, addr) ∷ t) d = elim (Bool-cases (name == a)) [
    | inl same ↦
        let gone = not_in_rest a r t (rw (← (eq_iff name a).0 same) d.0) in
        rw same (or_rest (any (λ role. named role == r) (roles addr)) (any (granted_in a r) t) gone)
    | inr other ↦ rw other (any-granted_in a r t d.1)
  ]

  -- The permission is among the properties exactly when the entry has a role of this name.
  pub any-properties_of :
      (a r identity : String) (t : Tracker)
      → Distinct t
      → any (is a r) (properties_of identity t)
        ≡ any (λ role. named role == r) (roles (entry_of a t))
  unfolding properties_of
  any-properties_of a r identity t d =
      any-append (is a r) (address_properties t) (metric_properties identity (metric_queues t []))
      ∙ or_rest (any (is a r) (address_properties t))
          (any (is a r) (metric_properties identity (metric_queues t [])))
          (any-metric_properties (is a r) (no_routing a r) (no_type a r) (no_address a r)
            (no_view a r) identity (metric_queues t []))
      ∙ any-address_properties a r t
      ∙ any-granted_in a r t d

-- The properties of the three groups of roles.
abbrev sending : String → List String → List Property
sending name roles = map (λ role. may_send name (producer_role role)) roles

abbrev consuming : String → List String → List Property
consuming name roles = map (λ role. may_consume name (consumer_role role)) roles

send_consuming :
    (a r name : String) (roles : List String) → any (is_send a r) (consuming name roles) ≡ false
send_consuming a r name roles =
    any-map (is_send a r) (λ role. may_consume name (consumer_role role)) roles ∙ any-never roles

send_sending :
    (a r name : String) (roles : List String)
    → any (is_send a r) (sending name roles)
      ≡ (name == a && any (λ role. producer_role role == r) roles)
send_sending a r name roles =
    any-map (is_send a r) (λ role. may_send name (producer_role role)) roles
    ∙ any-and (name == a) (λ role. producer_role role == r) roles

first_only : (x y z : Bool) → y ≡ false → z ≡ false → (x || (y || z)) ≡ x
first_only x y z h g = ground arith

send_roles :
    (a r name : String) (addr : AddressConfig)
    → any (is_send a r) (role_properties name addr)
      ≡ (name == a && any (λ role. producer_role role == r) addr.sender_roles)
unfolding role_properties
send_roles a r name addr =
    let senders = sending name addr.sender_roles in
    let consumers = consuming name addr.consumer_roles in
    let subscribers = consuming name addr.subscriber_roles in
    any-three (is_send a r) senders consumers subscribers
    ∙ first_only (any (is_send a r) senders) (any (is_send a r) consumers)
        (any (is_send a r) subscribers) (send_consuming a r name addr.consumer_roles)
        (send_consuming a r name addr.subscriber_roles)
    ∙ send_sending a r name addr.sender_roles

-- The roles that may consume: those of the consumers and those of the subscribers.
abbrev pub readers : AddressConfig → List String
readers addr = addr.consumer_roles ++ addr.subscriber_roles

consume_sending :
    (a r name : String) (roles : List String) → any (is_consume a r) (sending name roles) ≡ false
consume_sending a r name roles =
    any-map (is_consume a r) (λ role. may_send name (producer_role role)) roles ∙ any-never roles

consume_consuming :
    (a r name : String) (roles : List String)
    → any (is_consume a r) (consuming name roles)
      ≡ (name == a && any (λ role. consumer_role role == r) roles)
consume_consuming a r name roles =
    any-map (is_consume a r) (λ role. may_consume name (consumer_role role)) roles
    ∙ any-and (name == a) (λ role. consumer_role role == r) roles

last_two :
    (x y z e u v w : Bool)
    → x ≡ false
    → y ≡ (e && u)
    → z ≡ (e && v)
    → w ≡ (u || v)
    → (x || (y || z)) ≡ (e && w)
last_two x y z e u v w h g k l = ground arith

consume_roles :
    (a r name : String) (addr : AddressConfig)
    → any (is_consume a r) (role_properties name addr)
      ≡ (name == a && any (λ role. consumer_role role == r) (readers addr))
unfolding role_properties
consume_roles a r name addr =
    let senders = sending name addr.sender_roles in
    let consumers = consuming name addr.consumer_roles in
    let subscribers = consuming name addr.subscriber_roles in
    let named : String → Bool = λ role. consumer_role role == r in
    any-three (is_consume a r) senders consumers subscribers
    ∙ last_two (any (is_consume a r) senders) (any (is_consume a r) consumers)
        (any (is_consume a r) subscribers) (name == a) (any named addr.consumer_roles)
        (any named addr.subscriber_roles) (any named (readers addr))
        (consume_sending a r name addr.sender_roles)
        (consume_consuming a r name addr.consumer_roles)
        (consume_consuming a r name addr.subscriber_roles)
        (any-append named addr.consumer_roles addr.subscriber_roles)

module _ (a r identity : String) (t : Tracker) (d : Distinct t) where
  pub any-send :
      any (is_send a r) (properties_of identity t)
      ≡ any (λ role. producer_role role == r) (entry_of a t).sender_roles
  any-send =
      any-properties_of is_send producer_role (λ addr. addr.sender_roles) (λ a r b c. refl)
        (λ a r b q c. refl) (λ a r b q. refl) (λ a r q b c. refl) send_roles refl a r identity t d

  pub any-consume :
      any (is_consume a r) (properties_of identity t)
      ≡ any (λ role. consumer_role role == r) (readers (entry_of a t))
  any-consume =
      any-properties_of is_consume consumer_role readers (λ a r b c. refl) (λ a r b q c. refl)
        (λ a r b q. refl) (λ a r q b c. refl) consume_roles refl a r identity t d
