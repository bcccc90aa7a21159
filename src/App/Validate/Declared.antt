-- ===== src/App/Validate/Declared.antt =====
-- The checks of the declared addresses: private and shared ones are disjoint, and uses agree with
-- declarations.
use activemq_artemis_operato.Base.{
  String, ◌≡◌, refl, Bool, true, false, ◌||◌, Option, none, some, List, [], ◌∷◌, ◌==◌, ◌↔◌, arith,
  All, All-intro, Option-cases, if◌then◌else◌, Bool-cases, inl, inr, lookup, insert, lookup-insert,
  any, has, has-add, add, is_empty,
}
use mathlib.Core.Path.{fun_ext, subst}
use activemq_artemis_operato.Errors.{list_error, list_error-none, All-list_error, or_else_iff}
use activemq_artemis_operato.Api.{AddressType, AddressRef, AppCapabilityType, BrokerApp}
use activemq_artemis_operato.App.Address.{is_multicast_address, is_local}
use activemq_artemis_operato.App.Address.Owned.{declares}
use activemq_artemis_operato.App.Validate.{
  private_addresses, shared_error, validate_addresses_disjoint, declare, ref_usage_error,
  capability_usage_error, declared_addresses, validate_address_capability_consistency,
}
use activemq_artemis_operato.App.Validate.Routing.{multicast}

-- No address is both private and shared.
abbrev pub IsDisjoint : BrokerApp → Type 0
IsDisjoint app =
    All (λ (t : AddressType). any (declares t.address) app.spec.addresses ≡ false)
      app.spec.shared_addresses

has-private_addresses :
    (a : String) (ts : List AddressType) (m : List String)
    → has a (private_addresses ts m) ≡ (any (declares a) ts || has a m)
unfolding private_addresses
has-private_addresses a [] m = refl
has-private_addresses a (t ∷ ts) m =
    ground (arith, has-private_addresses a ts (add t.address m), has-add t.address a m)

shared_error_iff :
    (ts : List AddressType) (t : AddressType)
    → (shared_error (private_addresses ts []) t ≡ none) ↔ (any (declares t.address) ts ≡ false)
unfolding shared_error has
shared_error_iff ts t = (
  λ h. ground (arith, has-private_addresses t.address ts []),
  λ h. ground (arith, has-private_addresses t.address ts []),
)

disjoint_iff :
    (ps ss : List AddressType)
    → ((if is_empty ps || is_empty ss
          then none
          else list_error (λ _. shared_error (private_addresses ps [])) 0 ss)
        ≡ none)
      ↔ All (λ (t : AddressType). any (declares t.address) ps ≡ false) ss
disjoint_iff [] ss = (
  λ _. All-intro (λ (t : AddressType). any (declares t.address) [] ≡ false) (λ t. refl) ss,
  λ _. refl,
)
disjoint_iff (p ∷ ps) [] = (λ _. tt, λ _. refl)
disjoint_iff (p ∷ ps) (s ∷ ss) =
    let accepted = λ (t : AddressType). any (declares t.address) (p ∷ ps) ≡ false in
    let check = shared_error (private_addresses (p ∷ ps) []) in
    (
      list_error-none (λ _. check) accepted (λ _ t. (shared_error_iff (p ∷ ps) t).0) 0 (s ∷ ss),
      All-list_error (λ _. check) accepted (λ _ t. (shared_error_iff (p ∷ ps) t).1) 0 (s ∷ ss),
    )

-- The check on private and shared addresses passes exactly when no shared address is declared
-- private too.
pub validate_addresses_disjoint_iff :
    (app : BrokerApp) → (validate_addresses_disjoint app ≡ none) ↔ IsDisjoint app
unfolding validate_addresses_disjoint
validate_addresses_disjoint_iff app = disjoint_iff app.spec.addresses app.spec.shared_addresses

-- The routing type of the last declaration of an address.
abbrev pub last_declared : String → List AddressType → Option Bool
last_declared a [] = none
last_declared a (t ∷ ts) = elim (last_declared a ts) [
  | some b ↦ some b
  | none ↦ if t.address == a then some (is_multicast_address t.pub_sub t.subscriptions) else none
]

-- The routing type that the app declares for an address; a shared declaration comes after the
-- private ones.
abbrev pub declared_type : BrokerApp → String → Option Bool
declared_type app a = elim (last_declared a app.spec.shared_addresses) [
  | some b ↦ some b
  | none ↦ last_declared a app.spec.addresses
]

abbrev or_before : Option Bool → Option Bool → Option Bool
or_before (some b) earlier = some b
or_before none earlier = earlier

lookup-declare :
    (a : String) (ts : List AddressType) (m : List (String × Bool))
    → lookup a (declare ts m) ≡ or_before (last_declared a ts) (lookup a m)
unfolding declare
lookup-declare a [] m = refl
lookup-declare a (t ∷ ts) m =
    let b = is_multicast_address t.pub_sub t.subscriptions in
    ground (arith, lookup-declare a ts (insert t.address b m), lookup-insert t.address a b m)

lookup-declared_addresses :
    (app : BrokerApp) (a : String) → lookup a (declared_addresses app) ≡ declared_type app a
unfolding declared_addresses lookup
lookup-declared_addresses app a = ground (
  arith,
  lookup-declare a app.spec.shared_addresses (declare app.spec.addresses []),
  lookup-declare a app.spec.addresses [],
)

-- A local use has the routing type that is declared for its address, if one is.
abbrev pub AgreesWith : (String → Option Bool) → AddressRef → Type 0
AgreesWith declared ref =
    is_local ref ≡ true → (b : Bool) → declared ref.address ≡ some b → multicast ref ≡ b

abbrev pub UsesAsDeclared : BrokerApp → AppCapabilityType → Type 0
UsesAsDeclared app c =
    All (AgreesWith (declared_type app)) c.producer_of
    × All (AgreesWith (declared_type app)) c.consumer_of

ref_usage_error_iff :
    (where_used : String) (d : List (String × Bool)) (ref : AddressRef)
    → (ref_usage_error where_used d ref ≡ none) ↔ AgreesWith (λ a. lookup a d) ref
unfolding ref_usage_error
ref_usage_error_iff where_used d ref = (
  λ h l b k. ground arith,
  λ h. elim (Option-cases (lookup ref.address d)) [
    | inl open_ ↦ rw open_ (ground arith)
    | inr known ↦ elim (Bool-cases (is_local ref)) [
      | inl l ↦ ground (arith, known.1, h l known.0 known.1)
      | inr other ↦ rw other
    ]
  ],
)

abbrev Agrees : List (String × Bool) → AppCapabilityType → Type 0
Agrees d c =
    All (AgreesWith (λ a. lookup a d)) c.producer_of
    × All (AgreesWith (λ a. lookup a d)) c.consumer_of

refs_usage_iff :
    (where_used : String) (d : List (String × Bool)) (refs : List AddressRef)
    → (list_error (λ _. ref_usage_error where_used d) 0 refs ≡ none)
      ↔ All (AgreesWith (λ a. lookup a d)) refs
refs_usage_iff where_used d refs =
    let agrees = AgreesWith (λ a. lookup a d) in
    let check = ref_usage_error where_used d in
    (
      list_error-none (λ _. check) agrees (λ _ r. (ref_usage_error_iff where_used d r).0) 0 refs,
      All-list_error (λ _. check) agrees (λ _ r. (ref_usage_error_iff where_used d r).1) 0 refs,
    )

capability_usage_error_iff :
    (d : List (String × Bool)) (c : AppCapabilityType)
    → (capability_usage_error d c ≡ none) ↔ Agrees d c
unfolding capability_usage_error
capability_usage_error_iff d c =
    let producers = refs_usage_iff "producerOf" d c.producer_of in
    let consumers = refs_usage_iff "consumerOf" d c.consumer_of in
    let parts =
      or_else_iff (list_error (λ _. ref_usage_error "producerOf" d) 0 c.producer_of)
        (list_error (λ _. ref_usage_error "consumerOf" d) 0 c.consumer_of) in
    (
      λ h. (producers.0 (parts.0 h).0, consumers.0 (parts.0 h).1),
      λ h. parts.1 (producers.1 h.0, consumers.1 h.1),
    )

AgreesWith-nil : (ref : AddressRef) → AgreesWith (λ a. lookup a []) ref
unfolding lookup
AgreesWith-nil ref l b h = cc

Agrees-nil : (c : AppCapabilityType) → Agrees [] c
Agrees-nil c =
    let agrees = AgreesWith (λ a. lookup a []) in
    (All-intro agrees AgreesWith-nil c.producer_of, All-intro agrees AgreesWith-nil c.consumer_of)

usage_iff :
    (d : List (String × Bool)) (cs : List AppCapabilityType)
    → ((if is_empty d then none else list_error (λ _. capability_usage_error d) 0 cs) ≡ none)
      ↔ All (Agrees d) cs
usage_iff [] cs = (λ _. All-intro (Agrees []) Agrees-nil cs, λ _. refl)
usage_iff (x ∷ d) cs = (
  list_error-none (λ _. capability_usage_error (x ∷ d)) (Agrees (x ∷ d))
      (λ _ c. (capability_usage_error_iff (x ∷ d) c).0) 0 cs,
  All-list_error (λ _. capability_usage_error (x ∷ d)) (Agrees (x ∷ d))
      (λ _ c. (capability_usage_error_iff (x ∷ d) c).1) 0 cs,
)

-- The check of the uses passes exactly when every local use in a capability has the routing type that
-- is declared for its address, the last declaration counting, if one is.
pub validate_address_capability_consistency_iff :
    (app : BrokerApp)
    → (validate_address_capability_consistency app ≡ none)
      ↔ All (UsesAsDeclared app) app.spec.capabilities
unfolding validate_address_capability_consistency
validate_address_capability_consistency_iff app =
    subst
      (λ (declared : String → Option Bool).
        (validate_address_capability_consistency app ≡ none)
        ↔ All
            (λ (c : AppCapabilityType).
              All (AgreesWith declared) c.producer_of × All (AgreesWith declared) c.consumer_of)
            app.spec.capabilities)
      (fun_ext (lookup-declared_addresses app))
      (usage_iff (declared_addresses app) app.spec.capabilities)
