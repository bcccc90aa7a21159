-- ===== src/Base/Lists.antt =====
-- Lists: Go slices, with the loops that test, filter and search them.
use Prim.Native.Nat.{ℕ, zero, suc}
use mathlib.Core.Path.{ap, ◌≡◌, refl}
use mathlib.Core.Logic.{inl, inr}
use mathlib.Core.Bool.{Bool, true, false, ◌||◌}
use mathlib.Core.Option.{Option, none, some}
use mathlib.Core.List.{map, List, [], ◌∷◌, ◌++◌, Memᴰ}
use native.Mathlib.Omega.{arith}
use activemq_artemis_operato.Base.Tests.{if◌then◌else◌, Bool-cases}

module _ {ℓ} {A : Type ℓ} where
  abbrev pub length : List A → ℕ
  length [] = 0
  length (x ∷ xs) = suc (length xs)

  abbrev pub is_empty : List A → Bool
  is_empty [] = true
  is_empty (x ∷ xs) = false

  abbrev pub any : (A → Bool) → List A → Bool
  any p [] = false
  any p (x ∷ xs) = p x || any p xs

  abbrev pub keep : (A → Bool) → List A → List A
  keep p [] = []
  keep p (x ∷ xs) = if p x then x ∷ keep p xs else keep p xs

  abbrev pub find_first : (A → Bool) → List A → Option A
  find_first p [] = none
  find_first p (x ∷ xs) = if p x then some x else find_first p xs

  pub Memᴰ-append_left : {a : A} {xs : List A} (ys : List A) → Memᴰ a xs → Memᴰ a (xs ++ ys)
  Memᴰ-append_left ys (Memᴰ.head e) = Memᴰ.head e
  Memᴰ-append_left ys (Memᴰ.tail h) = Memᴰ.tail (Memᴰ-append_left ys h)

  pub Memᴰ-append_right : {a : A} (xs : List A) {ys : List A} → Memᴰ a ys → Memᴰ a (xs ++ ys)
  Memᴰ-append_right [] h = h
  Memᴰ-append_right (x ∷ xs) h = Memᴰ.tail (Memᴰ-append_right xs h)

-- The tests of a loop, and the elements that it runs over.
module _ {ℓ} {A : Type ℓ} (p : A → Bool) where
  pub any-true : (xs : List A) → any p xs ≡ true → (a : A) × Memᴰ a xs × (p a ≡ true)
  any-true [] h = ground arith
  any-true (x ∷ xs) h = elim (Bool-cases (p x)) [
    | inl e ↦ (x, Memᴰ.head refl, e)
    | inr e ↦ let rest = any-true xs (ground arith) in (rest.0, Memᴰ.tail rest.1, rest.2)
  ]

  pub any-false : {a : A} {xs : List A} → any p xs ≡ false → Memᴰ a xs → p a ≡ false
  any-false h (Memᴰ.head e) = ground arith
  any-false h (Memᴰ.tail {xs = xs} i) = any-false {xs = xs} (ground arith) i

  pub Memᴰ-any : {a : A} {xs : List A} → Memᴰ a xs → p a ≡ true → any p xs ≡ true
  Memᴰ-any (Memᴰ.head e) h = ground arith
  Memᴰ-any (Memᴰ.tail i) h = ground (arith, Memᴰ-any i h)

  Memᴰ-keep_cons :
      {a : A} (x : A) (xs : List A)
      → p x ≡ true
      → (Memᴰ a (keep p xs) → Memᴰ a xs × (p a ≡ true))
      → Memᴰ a (x ∷ keep p xs)
      → Memᴰ a (x ∷ xs) × (p a ≡ true)
  Memᴰ-keep_cons x xs e rest (Memᴰ.head q) = (Memᴰ.head q, rw q e)
  Memᴰ-keep_cons x xs e rest (Memᴰ.tail i) = let r = rest i in (Memᴰ.tail r.0, r.1)

  pub Memᴰ-keep : (xs : List A) {a : A} → Memᴰ a (keep p xs) → Memᴰ a xs × (p a ≡ true)
  Memᴰ-keep [] h = elim h [ ]
  Memᴰ-keep (x ∷ xs) h = elim (Bool-cases (p x)) [
    | inl e ↦ Memᴰ-keep_cons x xs e (λ i. Memᴰ-keep xs i) (rw e at h)
    | inr e ↦ let r = Memᴰ-keep xs (rw e at h) in (Memᴰ.tail r.0, r.1)
  ]

  pub keep-Memᴰ : {a : A} {xs : List A} → Memᴰ a xs → p a ≡ true → Memᴰ a (keep p xs)
  keep-Memᴰ {a} (Memᴰ.head {x = x} e) h = rw (← e) (rw h (Memᴰ.head refl))
  keep-Memᴰ (Memᴰ.tail {x = x} i) h = elim (Bool-cases (p x)) [
    | inl e ↦ rw e (Memᴰ.tail (keep-Memᴰ i h))
    | inr e ↦ rw e (keep-Memᴰ i h)
  ]

  pub find_first-some : (xs : List A) {a : A} → find_first p xs ≡ some a → Memᴰ a xs × (p a ≡ true)
  find_first-some [] h = ground arith
  find_first-some (x ∷ xs) {a} h = elim (Bool-cases (p x)) [
    | inl e ↦ let q : a ≡ x = ground arith in (Memᴰ.head q, rw q e)
    | inr e ↦ let r = find_first-some xs (rw e at h) in (Memᴰ.tail r.0, r.1)
  ]

  pub find_first-none : {a : A} {xs : List A} → find_first p xs ≡ none → Memᴰ a xs → p a ≡ false
  find_first-none h (Memᴰ.head e) = ground arith
  find_first-none h (Memᴰ.tail {xs = xs} i) = find_first-none {xs = xs} (ground arith) i

module _ {ℓ κ} {A : Type ℓ} (P : A → Type κ) where
  abbrev pub All : List A → Type κ
  All [] = Unit
  All (x ∷ xs) = P x × All xs

  pub All-Memᴰ : (a : A) {xs : List A} → Memᴰ a xs → All xs → P a
  All-Memᴰ a (Memᴰ.head e) h = rw e h.0
  All-Memᴰ a (Memᴰ.tail i) h = All-Memᴰ a i h.1

pub All-imp {ℓ κ ι} :
    {A : Type ℓ} (P : A → Type κ) (Q : A → Type ι)
    → ((a : A) → P a → Q a)
    → (xs : List A) → All P xs
    → All Q xs
All-imp P Q f [] h = tt
All-imp P Q f (x ∷ xs) h = (f x h.0, All-imp P Q f xs h.1)

pub All-intro {ℓ κ} : {A : Type ℓ} (P : A → Type κ) → ((a : A) → P a) → (xs : List A) → All P xs
All-intro P f [] = tt
All-intro P f (x ∷ xs) = (f x, All-intro P f xs)

pub All-of-Memᴰ {ℓ κ} :
    {A : Type ℓ} (P : A → Type κ) (xs : List A) → ((a : A) → Memᴰ a xs → P a) → All P xs
All-of-Memᴰ P [] f = tt
All-of-Memᴰ P (x ∷ xs) f = (f x (Memᴰ.head refl), All-of-Memᴰ P xs (λ a i. f a (Memᴰ.tail i)))

pub Memᴰ-image {ℓ κ} :
    {A : Type ℓ} {B : Type κ} (f : A → B) {a : A} {xs : List A} → Memᴰ a xs → Memᴰ (f a) (map f xs)
Memᴰ-image f (Memᴰ.head e) = Memᴰ.head (ap f e)
Memᴰ-image f (Memᴰ.tail i) = Memᴰ.tail (Memᴰ-image f i)

-- The element at a position, counted from 0.
abbrev pub get_elem? {ℓ} : {A : Type ℓ} → List A → ℕ → Option A
get_elem? [] i = none
get_elem? (x ∷ xs) zero = some x
get_elem? (x ∷ xs) (suc i) = get_elem? xs i

pub get_elem?-Memᴰ {ℓ} :
    {A : Type ℓ} {a : A} (xs : List A) (i : ℕ) → get_elem? xs i ≡ some a → Memᴰ a xs
get_elem?-Memᴰ [] i h = absurd (ground (arith, h))
get_elem?-Memᴰ (x ∷ xs) zero h = Memᴰ.head (ground (arith, h))
get_elem?-Memᴰ (x ∷ xs) (suc i) h = Memᴰ.tail (get_elem?-Memᴰ xs i h)
