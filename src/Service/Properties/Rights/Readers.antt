-- ===== src/Service/Properties/Rights/Readers.antt =====
-- What the claims of an app on an address of controllers/brokerservice_controller.go say of its readers.
use activemq_artemis_operato.Base.{
  String, Bool, true, false, ◌&&◌, ◌||◌, ◌≡◌, refl, ◌==◌, eq_iff, eq_refl, ◌⊎◌, inl, inr, arith,
  any, any-true, Memᴰ-any, Memᴰ, if◌then◌else◌,
}
use activemq_artemis_operato.Api.{AddressType, AddressRef, AppCapabilityType, BrokerAppSpec}
use activemq_artemis_operato.App.Address.{is_multicast_address}
use activemq_artemis_operato.Service.Address.{fqqn}
use activemq_artemis_operato.Service.Address.Granted.{Fact}
use activemq_artemis_operato.Service.Address.Granted.Terms.{
  is_multicast_ref, declaration_claims, producer_claims, consumer_claims, app_claims,
}
use activemq_artemis_operato.Service.Properties.Rights.{
  ReadsBy, Reads, or_cases, never, of_capability, by_capability, any_no, nothing, and_nothing,
}

-- A declaration and a producer give no right to consume.
pub no_consumes :
    (role r a : String) (d : AddressType) → declaration_claims role (Fact.consumes r) a d ≡ false
no_consumes role r a d =
    nothing (d.address == a) (is_multicast_address d.pub_sub d.subscriptions)
      (any (λ q. fqqn d.address q == a && (false || false)) d.subscriptions)
      (any_no (λ q. fqqn d.address q == a && (false || false)) d.subscriptions
        (λ q. and_nothing (fqqn d.address q == a)))

pub no_subscribes :
    (role r a : String) (d : AddressType) → declaration_claims role (Fact.subscribes r) a d ≡ false
no_subscribes role r a d =
    nothing (d.address == a) (is_multicast_address d.pub_sub d.subscriptions)
      (any (λ q. fqqn d.address q == a && (false || false)) d.subscriptions)
      (any_no (λ q. fqqn d.address q == a && (false || false)) d.subscriptions
        (λ q. and_nothing (fqqn d.address q == a)))

pub produces_not : (e : Bool) → (e && (false || (false || false))) ≡ false
produces_not e = ground arith

consumer_parts :
    (e m s q : Bool)
    → (e && (false || (if m then false else s)) || m && q) ≡ true
    → q ≡ false
    → (m ≡ false) × (e ≡ true) × (s ≡ true)
consumer_parts e true s q h g = absurd (ground arith)
consumer_parts e false s q h g = (refl, ground arith, ground arith)

subscriber_parts :
    (e m q : Bool)
    → (e && (false || (if m then false else false)) || m && q) ≡ true
    → (m ≡ true) × (q ≡ true)
subscriber_parts e true q h = (refl, ground arith)
subscriber_parts e false q h = absurd (ground arith)

queue_parts : (e s : Bool) → (e && (false || (s || false))) ≡ true → (e ≡ true) × (s ≡ true)
queue_parts e s h = (ground arith, ground arith)

module _ (role r a : String) (spec : BrokerAppSpec) where
  pub consumer_reads :
      (ref : AddressRef)
      → consumer_claims role (Fact.consumes r) a ref ≡ true
      → (role ≡ r) × ReadsBy ref a
  consumer_reads ref h =
      let parts =
        consumer_parts (ref.address == a) (is_multicast_ref ref) (role == r)
          (any (λ q. fqqn ref.address q == a && (false || (false || false))) ref.subscriptions) h
          (any_no (λ q. fqqn ref.address q == a && (false || (false || false))) ref.subscriptions
            (λ q. produces_not (fqqn ref.address q == a))) in
      ((eq_iff role r).0 parts.2, inl (parts.0, (eq_iff ref.address a).0 parts.1))

  pub subscriber_reads :
      (ref : AddressRef)
      → consumer_claims role (Fact.subscribes r) a ref ≡ true
      → (role ≡ r) × ReadsBy ref a
  subscriber_reads ref h =
      let claim : String → Bool = λ q. fqqn ref.address q == a && (false || (role == r || false)) in
      let parts =
        subscriber_parts (ref.address == a) (is_multicast_ref ref) (any claim ref.subscriptions)
          h in
      let queue = any-true claim ref.subscriptions parts.1 in
      let both = queue_parts (fqqn ref.address queue.0 == a) (role == r) queue.2 in
      (
        (eq_iff role r).0 both.1,
        inr (parts.0, (queue.0, queue.1, (eq_iff (fqqn ref.address queue.0) a).0 both.0)),
      )

  pub claims-Reads :
      (fact : Fact)
      → ((d : AddressType) → declaration_claims role fact a d ≡ false)
      → ((ref : AddressRef) → producer_claims role fact a ref ≡ false)
      → ((ref : AddressRef) → consumer_claims role fact a ref ≡ true → (role ≡ r) × ReadsBy ref a)
      → app_claims role fact a spec ≡ true
      → (role ≡ r) × Reads spec a
  claims-Reads fact undeclared unproduced reads h =
      let by = of_capability role fact a spec undeclared h in
      elim (or_cases _ _ by.2) [
        | inl produces ↦
            absurd (never (producer_claims role fact a) by.0.producer_of unproduced produces)
        | inr consumes ↦
            let ref = any-true (consumer_claims role fact a) by.0.consumer_of consumes in
            let read = reads ref.0 ref.2 in (read.0, (by.0, by.1, (ref.0, ref.1, read.1)))
      ]

consumer_whole :
    (e m s q : Bool)
    → m ≡ false
    → e ≡ true
    → s ≡ true
    → (e && (false || (if m then false else s)) || m && q) ≡ true
consumer_whole e m s q h g k = ground arith

subscriber_whole :
    (e m q : Bool)
    → m ≡ true
    → q ≡ true
    → (e && (false || (if m then false else false)) || m && q) ≡ true
subscriber_whole e m q h g = ground arith

queue_whole : (e s : Bool) → e ≡ true → s ≡ true → (e && (false || (s || false))) ≡ true
queue_whole e s h g = ground arith

pub or_right : (x y : Bool) → y ≡ true → (x || y) ≡ true
or_right x y h = ground arith

module _ (role a : String) (spec : BrokerAppSpec) where
  reader_claims :
      (ref : AddressRef)
      → ReadsBy ref a
      → (consumer_claims role (Fact.consumes role) a ref ≡ true)
        ⊎ (consumer_claims role (Fact.subscribes role) a ref ≡ true)
  reader_claims ref (inl (m, e)) = inl (
      consumer_whole (ref.address == a) (is_multicast_ref ref) (role == role) _ m
        ((eq_iff ref.address a).1 e) (eq_refl role))
  reader_claims ref (inr (m, (q, i, e))) =
      let claim : String → Bool =
        λ q. fqqn ref.address q == a && (false || (role == role || false)) in
      inr (
        subscriber_whole (ref.address == a) (is_multicast_ref ref) (any claim ref.subscriptions) m (
          Memᴰ-any claim i (
            queue_whole (fqqn ref.address q == a) (role == role)
              ((eq_iff (fqqn ref.address q) a).1 e) (eq_refl role))))

  consumer_claim :
      (fact : Fact) (c : AppCapabilityType) (ref : AddressRef)
      → Memᴰ c spec.capabilities
      → Memᴰ ref c.consumer_of
      → consumer_claims role fact a ref ≡ true
      → app_claims role fact a spec ≡ true
  consumer_claim fact c ref m i h = by_capability role fact a spec c m (
      or_right (any (producer_claims role fact a) c.producer_of)
        (any (consumer_claims role fact a) c.consumer_of)
        (Memᴰ-any (consumer_claims role fact a) i h))

  pub Reads-claims :
      Reads spec a
      → (app_claims role (Fact.consumes role) a spec ≡ true)
        ⊎ (app_claims role (Fact.subscribes role) a spec ≡ true)
  Reads-claims (c, m, (ref, i, e)) = elim (reader_claims ref e) [
    | inl h ↦ inl (consumer_claim (Fact.consumes role) c ref m i h)
    | inr h ↦ inr (consumer_claim (Fact.subscribes role) c ref m i h)
  ]
