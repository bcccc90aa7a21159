-- ===== src/App/Capacity/Kind.antt =====
-- The error that `buildCapacityError` makes of the rejections.
use activemq_artemis_operato.Base.{
  ℕ, ◌+◌, ◌≤◌, ◌≡◌, refl, String, Bool, true, false, Option, List, [], ◌∷◌, ◌↔◌, ◌⊎◌, inl, inr,
  Bool-cases, arith, if◌then◌else◌, eq_iff, false≢true, All-imp, is_empty, length, ◌=?◌, =?_iff,
  All,
}
use activemq_artemis_operato.Errors.{transient_error, plain, is_transient, condition_reason}
use activemq_artemis_operato.Api.{Quantity, no_matching_service_reason, selector_evaluation_error}
use activemq_artemis_operato.App.Capacity.{
  RejectionCategory, ServiceRejection, selector, selector_error, in_category, category_count,
  build_capacity_error,
}

abbrev pub IsIn : RejectionCategory → ServiceRejection → Type 0
IsIn c r = in_category c r ≡ true

category_count-bound :
    (c : RejectionCategory) (rs : List ServiceRejection) → category_count c rs ≤ length rs
unfolding category_count
category_count-bound c [] = omega arith
category_count-bound c (r ∷ rs) = let rest = category_count-bound c rs in ground arith

category_count-All :
    (c : RejectionCategory) (rs : List ServiceRejection)
    → category_count c rs ≡ length rs
    → All (IsIn c) rs
unfolding category_count
category_count-All c [] h = tt
category_count-All c (r ∷ rs) h =
    let rest = category_count-bound c rs in
    elim (Bool-cases (in_category c r)) [
      | inl e ↦ (e, category_count-All c rs (ground arith))
      | inr e ↦ absurd (ground arith)
    ]

All-category_count :
    (c : RejectionCategory) (rs : List ServiceRejection)
    → All (IsIn c) rs
    → category_count c rs ≡ length rs
unfolding category_count
All-category_count c [] h = refl
All-category_count c (r ∷ rs) h = let rest = All-category_count c rs h.1 in rw (h.0) (omega arith)

-- The rejections that only a service's selector makes.
abbrev pub BySelector : ServiceRejection → Type 0
BySelector r = IsIn selector r ⊎ IsIn selector_error r

abbrev by_selector_count : List ServiceRejection → ℕ
by_selector_count rs = category_count selector rs + category_count selector_error rs

by_selector_count-bound : (rs : List ServiceRejection) → by_selector_count rs ≤ length rs
unfolding category_count
by_selector_count-bound [] = omega arith
by_selector_count-bound (r ∷ rs) = let rest = by_selector_count-bound rs in ground arith

by_selector_count-All :
    (rs : List ServiceRejection) → by_selector_count rs ≡ length rs → All BySelector rs
unfolding category_count
by_selector_count-All [] h = tt
by_selector_count-All (r ∷ rs) h =
    let rest = by_selector_count-bound rs in
    elim (Bool-cases (in_category selector r)) [
      | inl e ↦ (inl e, by_selector_count-All rs (ground arith))
      | inr e ↦ elim (Bool-cases (in_category selector_error r)) [
        | inl e' ↦ (inr e', by_selector_count-All rs (ground arith))
        | inr e' ↦ absurd (ground arith)
      ]
    ]

All-by_selector_count :
    (rs : List ServiceRejection) → All BySelector rs → by_selector_count rs ≡ length rs
unfolding category_count
All-by_selector_count [] h = refl
All-by_selector_count (r ∷ rs) h =
    let rest = All-by_selector_count rs h.1 in let here = h.0 in ground arith

All-BySelector : (rs : List ServiceRejection) → All (IsIn selector_error) rs → All BySelector rs
All-BySelector rs h = All-imp (IsIn selector_error) BySelector (λ r. inr) rs h

-- The error is transient exactly when there are services and their selectors alone reject the app.
pub build_capacity_error_transient_iff :
    (rs : List ServiceRejection) (q : Option Quantity)
    → (is_transient (build_capacity_error rs q) ≡ true)
      ↔ ((is_empty rs ≡ false) × All BySelector rs)
unfolding build_capacity_error
build_capacity_error_transient_iff [] q = (λ h. cc, λ h. cc)
build_capacity_error_transient_iff (r ∷ rs) q =
    let all = by_selector_count-All (r ∷ rs) in
    let back = All-by_selector_count (r ∷ rs) in
    (λ h. (refl, all (ground arith)), λ (u, h). let e = back h in ground arith)

other_reasons :
    (some_selector ports : Bool) (m x y : String)
    → ¬ (
        condition_reason (
          if some_selector
          then transient_error no_matching_service_reason m
          else if ports
          then plain x
          else plain y)
        ≡ selector_evaluation_error)
other_reasons true ports m x y h =
    absurd (false≢true ((eq_iff no_matching_service_reason selector_evaluation_error).1 h))
other_reasons false true m x y h = absurd (false≢true ((eq_iff "" selector_evaluation_error).1 h))
other_reasons false false m x y h = absurd (false≢true ((eq_iff "" selector_evaluation_error).1 h))

-- It reports a failed evaluation exactly when there are services and the evaluation failed on all.
pub build_capacity_error_evaluation_iff :
    (rs : List ServiceRejection) (q : Option Quantity)
    → (condition_reason (build_capacity_error rs q) ≡ selector_evaluation_error)
      ↔ ((is_empty rs ≡ false) × All (IsIn selector_error) rs)
unfolding build_capacity_error
build_capacity_error_evaluation_iff [] q =
    (λ h. let bad = (eq_iff "" selector_evaluation_error).1 h in absurd (false≢true bad), λ h. cc)
build_capacity_error_evaluation_iff (r ∷ rs) q =
    let all = category_count-All selector_error (r ∷ rs) in
    let back = All-category_count selector_error (r ∷ rs) in
    let most = All-by_selector_count (r ∷ rs) in
    let n = length (r ∷ rs) in
    (
      λ h. elim (Bool-cases (category_count selector_error (r ∷ rs) =? n)) [
        | inl e ↦ (refl, all ((=?_iff (category_count selector_error (r ∷ rs)) n).0 e))
        | inr e ↦ absurd (other_reasons _ _ _ _ _ (rw e at h))
      ],
      λ (u, h).
          let every = (=?_iff (category_count selector_error (r ∷ rs)) n).1 (back h) in
          let sum = (=?_iff (by_selector_count (r ∷ rs)) n).1 (most (All-BySelector (r ∷ rs) h)) in
          rw (sum, every) refl,
    )
