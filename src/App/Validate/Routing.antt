-- ===== src/App/Validate/Routing.antt =====
-- What the check of the routing types of one capability accepts.
use activemq_artemis_operato.Base.{
  String, ◌≡◌, refl, sym, ◌∙◌, ap, Bool, true, false, ◌&&◌, none, some, List, [], ◌∷◌, ◌==◌, ◌↔◌,
  arith, false≢true, eq_iff, All, All-imp, Bool-cases, inl, inr, Option-cases, is_true, lookup,
  insert, lookup-insert,
}
use activemq_artemis_operato.Errors.{ok, Result-cases}
use activemq_artemis_operato.Api.{AddressRef, AppCapabilityType}
use activemq_artemis_operato.App.Address.{is_multicast_address, is_local}
use activemq_artemis_operato.App.Validate.Capability.{
  conflicts, producer_routing, consumer_routing, routing_error,
}

abbrev pub multicast : AddressRef → Bool
multicast ref = is_multicast_address ref.pub_sub ref.subscriptions

abbrev Types : Type 0
Types = List (String × Bool)

-- The types give this type to a local consumer's address, and multicast to the address of a local
-- producer that is multicast.
abbrev pub ConsumerHas : (String → Bool → Type 0) → AddressRef → Type 0
ConsumerHas gives ref = is_local ref ≡ true → gives ref.address (multicast ref)

abbrev pub ProducerHas : (String → Bool → Type 0) → AddressRef → Type 0
ProducerHas gives ref = is_local ref ≡ true → multicast ref ≡ true → gives ref.address true

-- One choice of a routing type for each address fits every local use.
abbrev pub HasRouting : AppCapabilityType → Type 0
HasRouting c =
    (type_of : String → Bool) × All (ProducerHas (λ a b. type_of a ≡ b)) c.producer_of
    × All (ConsumerHas (λ a b. type_of a ≡ b)) c.consumer_of

abbrev Gives : Types → String → Bool → Type 0
Gives types a b = lookup a types ≡ some b

abbrev Extends : Types → Types → Type 0
Extends m n = (a : String) (b : Bool) → lookup a m ≡ some b → lookup a n ≡ some b

Extends-insert :
    (a : String) (v : Bool) (m : Types)
    → conflicts (lookup a m) v ≡ false
    → Extends m (insert a v m)
Extends-insert a v m free j b h = ground (arith, lookup-insert a j v m, eq_iff a j, same a j m)
  where
    same : (a j : String) (m : Types) → a ≡ j → lookup a m ≡ lookup j m
    same a j m e = ap (λ k. lookup k m) e

lookup-insert_self : (a : String) (v : Bool) (m : Types) → lookup a (insert a v m) ≡ some v
lookup-insert_self a v m = ground (arith, lookup-insert a a v m, eq_iff a a)

consumer_routing-ok :
    (refs : List AddressRef) (m : Types) {n : Types}
    → consumer_routing refs m ≡ ok n
    → Extends m n × All (ConsumerHas (Gives n)) refs
unfolding consumer_routing
consumer_routing-ok [] m {n} h = let e : m ≡ n = ground arith in (λ a b p. rw (← e) p, tt)
consumer_routing-ok (ref ∷ refs) m {n} h = elim (Bool-cases (is_local ref)) [
  | inl here ↦ elim (Bool-cases (conflicts (lookup ref.address m) (multicast ref))) [
    | inl clash ↦ absurd (ground arith)
    | inr free ↦
        let r =
          consumer_routing-ok refs (insert ref.address (multicast ref) m)
            (rw free at (rw here at h)) in
        (
          λ a b p. r.0 a b (Extends-insert ref.address (multicast ref) m free a b p),
          (
            λ _. r.0 ref.address (multicast ref) (lookup-insert_self ref.address (multicast ref) m),
            r.1,
          ),
        )
  ]
  | inr other ↦
      let r = consumer_routing-ok refs m (rw other at h) in
      (r.0, (λ l. absurd (false≢true (sym other ∙ l)), r.1))
]

producer_routing-ok :
    (refs : List AddressRef) (m : Types) {n : Types}
    → producer_routing refs m ≡ ok n
    → Extends m n × All (ProducerHas (Gives n)) refs
unfolding producer_routing
producer_routing-ok [] m {n} h = let e : m ≡ n = ground arith in (λ a b p. rw (← e) p, tt)
producer_routing-ok (ref ∷ refs) m {n} h = elim (Bool-cases (is_local ref && multicast ref)) [
  | inl here ↦ elim (Bool-cases (conflicts (lookup ref.address m) true)) [
    | inl clash ↦ absurd (ground arith)
    | inr free ↦
        let r = producer_routing-ok refs (insert ref.address true m) (rw free at (rw here at h)) in
        (
          λ a b p. r.0 a b (Extends-insert ref.address true m free a b p),
          (λ _ _. r.0 ref.address true (lookup-insert_self ref.address true m), r.1),
        )
  ]
  | inr other ↦
      let r = producer_routing-ok refs m (rw other at h) in
      (r.0, (λ l k. absurd (ground arith), r.1))
]

-- The types agree with a choice.
abbrev Fits : (String → Bool) → Types → Type 0
Fits type_of m = (a : String) (b : Bool) → lookup a m ≡ some b → type_of a ≡ b

Fits-nil : (f : String → Bool) → Fits f []
unfolding lookup
Fits-nil f a b h = cc

Fits-insert :
    (f : String → Bool) (a : String) (v : Bool) (m : Types)
    → Fits f m
    → f a ≡ v
    → Fits f (insert a v m)
Fits-insert f a v m fits e j b h = elim (Bool-cases (a == j)) [
  | inl same ↦ ap f (sym ((eq_iff a j).0 same)) ∙ e ∙ ground (arith, lookup-insert a j v m)
  | inr other ↦ fits j b (ground (arith, lookup-insert a j v m))
]

Fits-free :
    (f : String → Bool) (a : String) (v : Bool) (m : Types)
    → Fits f m
    → f a ≡ v
    → conflicts (lookup a m) v ≡ false
Fits-free f a v m fits e = elim (Option-cases (lookup a m)) [
  | inl open_ ↦ rw open_
  | inr known ↦ ground (arith, fits a known.0 known.1)
]

consumer_routing-Fits :
    (f : String → Bool) (refs : List AddressRef) (m : Types)
    → Fits f m
    → All (ConsumerHas (λ a b. f a ≡ b)) refs
    → (n : Types) × (consumer_routing refs m ≡ ok n)
unfolding consumer_routing
consumer_routing-Fits f [] m fits h = (m, refl)
consumer_routing-Fits f (ref ∷ refs) m fits h = elim (Bool-cases (is_local ref)) [
  | inl here ↦ rw here (
      rw (Fits-free f ref.address (multicast ref) m fits (h.0 here)) (
        consumer_routing-Fits f refs (insert ref.address (multicast ref) m)
          (Fits-insert f ref.address (multicast ref) m fits (h.0 here)) h.1))
  | inr other ↦ rw other (consumer_routing-Fits f refs m fits h.1)
]

producer_routing-Fits :
    (f : String → Bool) (refs : List AddressRef) (m : Types)
    → Fits f m
    → All (ProducerHas (λ a b. f a ≡ b)) refs
    → (n : Types) × (producer_routing refs m ≡ ok n) × Fits f n
unfolding producer_routing
producer_routing-Fits f [] m fits h = (m, refl, fits)
producer_routing-Fits f (ref ∷ refs) m fits h = elim (Bool-cases (is_local ref && multicast ref)) [
  | inl here ↦
      let agrees = h.0 (ground arith) (ground arith) in
      rw here (
        rw (Fits-free f ref.address true m fits agrees) (
          producer_routing-Fits f refs (insert ref.address true m)
            (Fits-insert f ref.address true m fits agrees) h.1))
  | inr other ↦ rw other (producer_routing-Fits f refs m fits h.1)
]

-- The choice that the final types give.
abbrev chosen : Types → String → Bool
chosen types a = is_true (lookup a types)

HasRouting_of_final :
    (c : AppCapabilityType) {m n : Types}
    → producer_routing c.producer_of [] ≡ ok m
    → consumer_routing c.consumer_of m ≡ ok n
    → HasRouting c
HasRouting_of_final c {m} {n} hm hn =
    let produced = producer_routing-ok c.producer_of [] hm in
    let consumed = consumer_routing-ok c.consumer_of m hn in
    (
      chosen n,
      All-imp (ProducerHas (Gives m)) (ProducerHas (λ a b. chosen n a ≡ b))
          (λ ref p l k. ap is_true (consumed.0 ref.address true (p l k))) c.producer_of produced.1,
      All-imp (ConsumerHas (Gives n)) (ConsumerHas (λ a b. chosen n a ≡ b))
          (λ ref p l. ap is_true (p l)) c.consumer_of consumed.1,
    )

routing_error-none : (c : AppCapabilityType) → routing_error c ≡ none → HasRouting c
unfolding routing_error
routing_error-none c h = elim (Result-cases (producer_routing c.producer_of [])) [
  | inl m ↦ elim (Result-cases (consumer_routing c.consumer_of m.0)) [
    | inl n ↦ HasRouting_of_final c m.1 n.1
    | inr failed ↦ absurd (ground (arith, m.1, failed.1))
  ]
  | inr failed ↦ absurd (ground (arith, failed.1))
]

HasRouting-routing_error : (c : AppCapabilityType) → HasRouting c → routing_error c ≡ none
unfolding routing_error
HasRouting-routing_error c r =
    let m = producer_routing-Fits r.0 c.producer_of [] (Fits-nil r.0) r.1 in
    let n = consumer_routing-Fits r.0 c.consumer_of m.0 m.2 r.2 in rw m.1 (rw n.1)

-- The routing types of a capability are accepted exactly when one choice of a routing type for each
-- address, pubSub or not, fits every local consumer and every local producer that is pubSub.
pub routing_error_iff : (c : AppCapabilityType) → (routing_error c ≡ none) ↔ HasRouting c
routing_error_iff c = (routing_error-none c, HasRouting-routing_error c)
