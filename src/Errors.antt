-- ===== src/Errors.antt =====
-- controllers/condition_error.go: the errors of the controllers, and Go's results with an error.
use activemq_artemis_operato.Base.{
  ℕ, suc, String, Bool, true, false, Option, none, some, List, [], ◌∷◌, concat, ◌≡◌, refl, ◌↔◌, ◌⊎◌,
  inl, inr, arith, All, Option-cases,
}

-- An `error` of the controllers: one made by `fmt.Errorf` or by a library, a `ValidationError`, or
-- a `TransientError` without or with a cause.
pub data Error : Type 0 where
  plain : String → Error
  validation_error : String → String → Error
  transient_error : String → String → Error
  transient_error_with_cause : String → String → Error → Error

-- The `Error` methods.
unfoldable pub error_text : Error → String
error_text (plain message) = message
error_text (validation_error reason message) = message
error_text (transient_error reason message) = message
error_text (transient_error_with_cause reason message cause) =
    concat (message ∷ ": " ∷ error_text cause ∷ [])

pub data Result {ℓ} (A : Type ℓ) : Type ℓ where
  ok : A → Result A
  err : Error → Result A

-- To split on the result of a call and keep the equation.
pub Result-cases {ℓ} :
    {A : Type ℓ} (call : Result A)
    → ((value : A) × (call ≡ ok value)) ⊎ ((error : Error) × (call ≡ err error))
Result-cases (ok value) = inl (value, refl)
Result-cases (err error) = inr (error, refl)

-- `if err := check(); err != nil { return err }`, where `none` is nil.
infixr 30 ◌or_else◌
abbrev pub ◌or_else◌ : Option Error → Option Error → Option Error
none or_else rest = rest
(some e) or_else rest = some e

-- A loop that stops at the first element with an error, and counts the elements.
unfoldable pub list_error {ℓ} : {A : Type ℓ} → (ℕ → A → Option Error) → ℕ → List A → Option Error
list_error check i [] = none
list_error check i (x ∷ xs) = check i x or_else list_error check (suc i) xs

module _ {ℓ κ} {A : Type ℓ} (check : ℕ → A → Option Error) (P : A → Type κ) where
  -- The loop finds no error exactly when no element has one.
  pub list_error-none :
      ((i : ℕ) (x : A) → check i x ≡ none → P x)
      → (i : ℕ) (xs : List A) → list_error check i xs ≡ none
      → All P xs
  unfolding list_error
  list_error-none sound i [] h = tt
  list_error-none sound i (x ∷ xs) h = elim (Option-cases (check i x)) [
    | inl good ↦ (sound i x good, list_error-none sound (suc i) xs (rw good at h))
    | inr bad ↦ absurd (ground arith)
  ]

  pub All-list_error :
      ((i : ℕ) (x : A) → P x → check i x ≡ none)
      → (i : ℕ) (xs : List A) → All P xs
      → list_error check i xs ≡ none
  unfolding list_error
  All-list_error complete i [] h = refl
  All-list_error complete i (x ∷ xs) h =
      rw (complete i x h.0) (All-list_error complete (suc i) xs h.1)

module _ {ℓ} {A : Type ℓ} (check : ℕ → A → Option Error) where
  -- Its error is one of the elements'.
  pub list_error-some {ι} :
      (Q : Error → Type ι)
      → ((i : ℕ) (x : A) (e : Error) → check i x ≡ some e → Q e)
      → (i : ℕ) (xs : List A) {e : Error} → list_error check i xs ≡ some e
      → Q e
  unfolding list_error
  list_error-some Q each i [] h = absurd (ground arith)
  list_error-some Q each i (x ∷ xs) {e} h = elim (Option-cases (check i x)) [
    | inl good ↦ list_error-some Q each (suc i) xs (rw good at h)
    | inr bad ↦ each i x e (ground (arith, bad.1))
  ]

-- Two checks in a row pass exactly when both do.
pub or_else_iff : (a b : Option Error) → ((a or_else b) ≡ none) ↔ ((a ≡ none) × (b ≡ none))
or_else_iff none b = (λ h. (refl, h), λ h. h.1)
or_else_iff (some e) b = (λ h. absurd (ground arith), λ h. absurd (ground arith))

-- An error of two checks in a row is one of theirs.
pub or_else-some :
    (a b : Option Error) {e : Error} → (a or_else b) ≡ some e → (a ≡ some e) ⊎ (b ≡ some e)
or_else-some none b h = inr h
or_else-some (some d) b h = inl h

-- `_, ok := err.(*TransientError)`.
abbrev pub is_transient : Error → Bool
is_transient (plain message) = false
is_transient (validation_error reason message) = false
is_transient (transient_error reason message) = true
is_transient (transient_error_with_cause reason message cause) = true

-- `_, ok := err.(*ValidationError)`.
abbrev pub is_validation : Error → Bool
is_validation (plain message) = false
is_validation (validation_error reason message) = true
is_validation (transient_error reason message) = false
is_validation (transient_error_with_cause reason message cause) = false

-- The `ConditionReason` methods; a plain error has none.
abbrev pub condition_reason : Error → String
condition_reason (plain message) = ""
condition_reason (validation_error reason message) = reason
condition_reason (transient_error reason message) = reason
condition_reason (transient_error_with_cause reason message cause) = reason
