-- ===== src/Loops.antt =====
-- Go's `for range` loops whose body may return an error, over a state that they change.
use activemq_artemis_operato.Base.{◌≡◌, refl, List, [], ◌∷◌, Memᴰ, arith}
use activemq_artemis_operato.Errors.{Result, ok, err}

abbrev pub and_then {ℓ κ} : {A : Type ℓ} {B : Type κ} → Result A → (A → Result B) → Result B
and_then (ok a) f = f a
and_then (err e) f = err e

pub and_then-ok {ℓ κ} :
    {A : Type ℓ} {B : Type κ} (r : Result A) (f : A → Result B) {b : B}
    → and_then r f ≡ ok b
    → (a : A) × (r ≡ ok a) × (f a ≡ ok b)
and_then-ok (ok a) f h = (a, refl, h)
and_then-ok (err e) f h = absurd (ground arith)

module _ {ℓ κ} {A : Type ℓ} {S : Type κ} (body : A → S → Result S) where
  -- The loop stops at the first error.
  unfoldable pub each : List A → S → Result S
  each [] s = ok s
  each (x ∷ xs) s = and_then (body x s) (λ t. each xs t)

  -- What each round keeps is kept by the loop.
  pub each-inv {ι} :
      (P : S → Type ι) (xs : List A)
      → ((x : A) (s t : S) → Memᴰ x xs → body x s ≡ ok t → P s → P t)
      → (s t : S) → each xs s ≡ ok t
      → P s
      → P t
  unfolding each
  each-inv P [] keep s t h p = let e : s ≡ t = ground arith in rw (← e) p
  each-inv P (x ∷ xs) keep s t h p =
      let q = and_then-ok (body x s) (λ t. each xs t) h in
      each-inv P xs (λ y u v m. keep y u v (Memᴰ.tail m)) q.0 t q.2
        (keep x s q.0 (Memᴰ.head refl) q.1 p)

  -- What the round of an element brings about, and every round keeps, holds after the loop.
  pub each-reach {ι} :
      (P : S → Type ι) (a : A) (xs : List A)
      → ((s t : S) → body a s ≡ ok t → P t)
      → ((x : A) (s t : S) → body x s ≡ ok t → P s → P t)
      → (s t : S) → each xs s ≡ ok t
      → Memᴰ a xs
      → P t
  unfolding each
  each-reach P a [] made keep s t h m = elim m [ ]
  each-reach P a (x ∷ xs) made keep s t h m =
      let q = and_then-ok (body x s) (λ t. each xs t) h in
      elim m [
        | Memᴰ.head e ↦ each-inv P xs (λ y u v _. keep y u v) q.0 t q.2 (made s q.0 (rw e q.1))
        | Memᴰ.tail r ↦ each-reach P a xs made keep q.0 t q.2 r
      ]
