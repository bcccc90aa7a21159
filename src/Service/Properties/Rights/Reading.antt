-- ===== src/Service/Properties/Rights/Reading.antt =====
-- Who may consume from an address or a queue: `processCapabilities` of
-- controllers/brokerservice_controller.go.
use activemq_artemis_operato.Base.{
  String, Bool, true, List, ◌++◌, ◌≡◌, sym, ap, ◌∙◌, ◌==◌, eq_iff, eq_refl, ◌↔◌, ◌⊎◌, inl, inr,
  arith, any, any-true, Memᴰ-any, Memᴰ, Memᴰ-has, has-Memᴰ,
}
use activemq_artemis_operato.Errors.{ok}
use activemq_artemis_operato.Api.{BrokerAppSpec}
use activemq_artemis_operato.Service.Address.{Tracker, entry_of, track_app}
use activemq_artemis_operato.Service.Address.Keys.{track_app-Distinct}
use activemq_artemis_operato.Service.Address.Granted.{Fact, holds_of}
use activemq_artemis_operato.Service.Address.Granted.Claims.{track_app-claims}
use activemq_artemis_operato.Service.Properties.{
  Property, routing_types, queue_routing_type, queue_address, may_send, may_consume, may_view,
  consumer_role, properties_of,
}
use activemq_artemis_operato.Service.Properties.Permissions.{any-append, is_consume}
use activemq_artemis_operato.Service.Properties.Permissions.Granted.{any-consume}
use activemq_artemis_operato.Service.Properties.Rights.{Reads, or_cases, or_left}
use activemq_artemis_operato.Service.Properties.Rights.Readers.{
  no_consumes, no_subscribes, produces_not, consumer_reads, subscriber_reads, claims-Reads,
  Reads-claims, or_right,
}

is_consume-eq : (a r : String) (p : Property) → is_consume a r p ≡ true → p ≡ may_consume a r
is_consume-eq a r (routing_types x y) h = cc
is_consume-eq a r (queue_routing_type x y z) h = cc
is_consume-eq a r (queue_address x y) h = cc
is_consume-eq a r (may_send x y) h = cc
is_consume-eq a r (may_consume x y) h = ground (arith, eq_iff x a, eq_iff y r)
is_consume-eq a r (may_view x y z) h = cc

module _ (identity a : String) (spec : BrokerAppSpec) (t : Tracker)
    (h : track_app identity spec ≡ ok t) where
  -- A role among the readers of an entry is the app's, which reads.
  reader_of :
      (role : String)
      → (Memᴰ role (entry_of a t).consumer_roles) ⊎ (Memᴰ role (entry_of a t).subscriber_roles)
      → (identity ≡ role) × Reads spec a
  unfolding holds_of
  reader_of role (inl m) =
      claims-Reads identity role a spec (Fact.consumes role) (no_consumes identity role a)
        (λ ref. produces_not (ref.address == a)) (consumer_reads identity role a spec)
        (sym (track_app-claims identity (Fact.consumes role) a spec t h) ∙ Memᴰ-has m)
  reader_of role (inr m) =
      claims-Reads identity role a spec (Fact.subscribes role) (no_subscribes identity role a)
        (λ ref. produces_not (ref.address == a)) (subscriber_reads identity role a spec)
        (sym (track_app-claims identity (Fact.subscribes role) a spec t h) ∙ Memᴰ-has m)

  is_reader :
      Reads spec a
      → (Memᴰ identity (entry_of a t).consumer_roles)
        ⊎ (Memᴰ identity (entry_of a t).subscriber_roles)
  unfolding holds_of
  is_reader reads = elim (Reads-claims identity a spec reads) [
    | inl c ↦ inl (
        has-Memᴰ identity (entry_of a t).consumer_roles
          (track_app-claims identity (Fact.consumes identity) a spec t h ∙ c))
    | inr c ↦ inr (
        has-Memᴰ identity (entry_of a t).subscriber_roles
          (track_app-claims identity (Fact.subscribes identity) a spec t h ∙ c))
  ]

either_list :
    (p : String → Bool) (xs ys : List String)
    → any p (xs ++ ys) ≡ true
    → (role : String) × ((Memᴰ role xs) ⊎ (Memᴰ role ys)) × (p role ≡ true)
either_list p xs ys h = elim (or_cases (any p xs) (any p ys) (sym (any-append p xs ys) ∙ h)) [
  | inl x ↦ let q = any-true p xs x in (q.0, inl q.1, q.2)
  | inr y ↦ let q = any-true p ys y in (q.0, inr q.1, q.2)
]

list_either :
    (p : String → Bool) {role : String} (xs ys : List String)
    → (Memᴰ role xs) ⊎ (Memᴰ role ys)
    → p role ≡ true
    → any p (xs ++ ys) ≡ true
list_either p xs ys (inl m) h = any-append p xs ys ∙ or_left _ _ (Memᴰ-any p m h)
list_either p xs ys (inr m) h = any-append p xs ys ∙ or_right _ _ (Memᴰ-any p m h)

-- Where the app's uses do not conflict, a role may consume from an address or a queue exactly when it
-- is the app's role for consumers and a consumer of the app reads from it: from the address, or where
-- it is multicast, from the queue of one of its subscriptions.
pub may_consume_iff :
    (identity a r : String) (spec : BrokerAppSpec) (t : Tracker)
    → track_app identity spec ≡ ok t
    → Memᴰ (may_consume a r) (properties_of identity t)
      ↔ ((r ≡ consumer_role identity) × Reads spec a)
may_consume_iff identity a r spec t h =
    let d = track_app-Distinct identity spec t h in
    let named : String → Bool = λ role. consumer_role role == r in
    let entry = entry_of a t in
    (
      λ m.
          let found = either_list named entry.consumer_roles entry.subscriber_roles (
            sym (any-consume a r identity t d)
            ∙ Memᴰ-any (is_consume a r) m (ground (arith, eq_refl a, eq_refl r))) in
          let known = reader_of identity a spec t h found.0 found.1 in
          (
            sym ((eq_iff (consumer_role found.0) r).0 found.2) ∙ ap consumer_role (sym known.0),
            known.1,
          ),
      λ p.
          let q = any-true (is_consume a r) (properties_of identity t) (
            any-consume a r identity t d
            ∙ list_either named entry.consumer_roles entry.subscriber_roles
                (is_reader identity a spec t h p.1)
                ((eq_iff (consumer_role identity) r).1 (sym p.0))) in
          rw (← is_consume-eq a r q.0 q.2) q.1,
    )
