-- ===== src/App/Validate/Refs.antt =====
-- The references that the checks on `ProducerOf` and `ConsumerOf` accept.
use activemq_artemis_operato.Base.{
  ℕ, String, ◌≡◌, ◌≢◌, true, false, none, some, List, [], ◌↔◌, arith, eq_iff, contains, All,
}
use activemq_artemis_operato.Errors.{list_error, list_error-none, All-list_error}
use activemq_artemis_operato.Api.{AddressRef}
use activemq_artemis_operato.App.Address.{fqqn_separator, is_multicast_address}
use activemq_artemis_operato.App.Validate.Capability.{
  ref_error, producer_error, subscription_error, consumer_error,
}

-- An address that is given and plain, with both names of another app or neither.
pub record IsPlainRef (ref : AddressRef) : Type 0 where
  pub given : ref.address ≢ ""
  pub plain : contains ref.address fqqn_separator ≡ false
  pub paired : (ref.app_namespace ≡ "") ↔ (ref.app_name ≡ "")

-- A producer names no queue.
pub record IsProducerRef (ref : AddressRef) : Type 0 where
  pub reference : IsPlainRef ref
  pub no_queues : ref.subscriptions ≡ []

abbrev pub IsQueueName : String → Type 0
IsQueueName q = (q ≢ "") × (contains q fqqn_separator ≡ false)

-- A consumer names queues exactly where it does not leave the routing type open or non pubSub.
pub record IsConsumerRef (ref : AddressRef) : Type 0 where
  pub reference : IsPlainRef ref
  pub without_pub_sub : ref.pub_sub ≡ some false → ref.subscriptions ≡ []
  pub with_pub_sub : ref.pub_sub ≡ some true → ref.subscriptions ≢ []
  pub queues : All IsQueueName ref.subscriptions

-- `pubSub: false` goes with no queue names.
abbrev pub IsSettled : AddressRef → Type 0
IsSettled ref = ref.pub_sub ≡ some false → ref.subscriptions ≡ []

ref_error-none :
    (field : String) (i : ℕ) (ref : AddressRef)
    → ref_error field i ref ≡ none
    → IsPlainRef ref × IsSettled ref
unfolding ref_error
ref_error-none field i ref h =
    ground (arith, eq_iff ref.address "", eq_iff ref.app_namespace "", eq_iff ref.app_name "")

IsPlainRef-ref_error :
    (field : String) (i : ℕ) (ref : AddressRef)
    → IsPlainRef ref
    → IsSettled ref
    → ref_error field i ref ≡ none
unfolding ref_error
IsPlainRef-ref_error field i ref h s =
    ground (arith, eq_iff ref.address "", eq_iff ref.app_namespace "", eq_iff ref.app_name "")

-- A reference in `producerOf` is accepted exactly when its address is given and plain, it names both
-- parts of another app or neither, and it lists no subscription.
pub producer_error_iff :
    (i : ℕ) (ref : AddressRef) → (producer_error i ref ≡ none) ↔ IsProducerRef ref
unfolding producer_error is_multicast_address
producer_error_iff i ref = (
  λ h. ground (arith, ref_error-none "ProducerOf" i ref),
  λ h. ground (arith, IsPlainRef-ref_error "ProducerOf" i ref h.reference),
)

subscription_error_iff : (i j : ℕ) (q : String) → (subscription_error i j q ≡ none) ↔ IsQueueName q
unfolding subscription_error
subscription_error_iff i j q = (λ h. ground (arith, eq_iff q ""), λ h. ground (arith, eq_iff q ""))

subscriptions_iff :
    (i : ℕ) (qs : List String)
    → (list_error (subscription_error i) 0 qs ≡ none) ↔ All IsQueueName qs
subscriptions_iff i qs = (
  list_error-none (subscription_error i) IsQueueName (λ j q. (subscription_error_iff i j q).0) 0 qs,
  All-list_error (subscription_error i) IsQueueName (λ j q. (subscription_error_iff i j q).1) 0 qs,
)

-- A reference in `consumerOf` is accepted exactly when its address is given and plain, it names both
-- parts of another app or neither, it lists no queue with `pubSub: false` and some queue with
-- `pubSub: true`, and every queue name is nonempty and plain.
pub consumer_error_iff :
    (i : ℕ) (ref : AddressRef) → (consumer_error i ref ≡ none) ↔ IsConsumerRef ref
unfolding consumer_error is_multicast_address
consumer_error_iff i ref = (
  λ h. ground (arith, ref_error-none "ConsumerOf" i ref, subscriptions_iff i ref.subscriptions),
  λ h. ground (
    arith,
    IsPlainRef-ref_error "ConsumerOf" i ref h.reference h.without_pub_sub,
    subscriptions_iff i ref.subscriptions,
  ),
)
