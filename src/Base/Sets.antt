-- ===== src/Base/Sets.antt =====
-- Go maps with text keys: `map[string]bool` as the list of its keys, `map[string]V` as a list of
-- pairs. A range over a map runs in the order of this list, one of those that Go may take.
use Prim.Native.String.{String}
use mathlib.Core.Path.{◌≡◌, refl, sym, ap, ◌∙◌}
use mathlib.Core.Logic.{inl, inr}
use mathlib.Core.Bool.{Bool, true, false, ◌||◌}
use mathlib.Core.Option.{Option, none, some}
use mathlib.Core.List.{List, [], ◌∷◌, Memᴰ}
use native.Mathlib.Omega.{arith}
use text.Mathlib.Text.{◌==◌}
use text.Mathlib.TextEquality.{eq_iff}
use activemq_artemis_operato.Base.Tests.{if◌then◌else◌, if_true, Bool-cases}

-- `m[k]` of a `map[string]bool`: false where the key is missing.
unfoldable pub has : String → List String → Bool
has k [] = false
has k (j ∷ m) = j == k || has k m

-- `m[k] = true`.
unfoldable pub add : String → List String → List String
unfolding has
add k m = if has k m then m else k ∷ m

has_same : (k j : String) (m : List String) → (k == j) ≡ true → has k m ≡ has j m
has_same k j m e = ap (λ s. has s m) ((eq_iff k j).0 e)

pub has-add : (k j : String) (m : List String) → has j (add k m) ≡ (k == j || has j m)
unfolding add
has-add k j m = elim (Bool-cases (k == j)) [
  | inl e ↦ rw e (elim (Bool-cases (has k m)) [
    | inl old ↦ rw old (sym (has_same k j m e) ∙ old)
    | inr new ↦ rw new (rw e)
  ])
  | inr e ↦ ground arith
]

pub Memᴰ-has : {k : String} {m : List String} → Memᴰ k m → has k m ≡ true
unfolding has
Memᴰ-has {k} (Memᴰ.head {x = x} e) = ground (arith, eq_iff x k)
Memᴰ-has (Memᴰ.tail i) = ground (arith, Memᴰ-has i)

pub has-Memᴰ : (k : String) (m : List String) → has k m ≡ true → Memᴰ k m
unfolding has
has-Memᴰ k [] h = ground arith
has-Memᴰ k (j ∷ m) h = elim (Bool-cases (j == k)) [
  | inl e ↦ Memᴰ.head (sym ((eq_iff j k).0 e))
  | inr e ↦ Memᴰ.tail (has-Memᴰ k m (ground arith))
]

-- `v, ok := m[k]`.
unfoldable pub lookup {ℓ} : {V : Type ℓ} → String → List (String × V) → Option V
lookup key [] = none
lookup key ((own, value) ∷ rest) = if own == key then some value else lookup key rest

-- `m[k] = v`.
unfoldable pub insert {ℓ} : {V : Type ℓ} → String → V → List (String × V) → List (String × V)
insert key value [] = (key, value) ∷ []
insert key value ((own, old) ∷ rest) =
    if own == key then (key, value) ∷ rest else (own, old) ∷ insert key value rest

-- What a key has after an assignment to a key.
pub lookup-insert {ℓ} :
    {V : Type ℓ} (key asked : String) (value : V) (entries : List (String × V))
    → lookup asked (insert key value entries)
      ≡ (if key == asked then some value else lookup asked entries)
unfolding lookup insert
lookup-insert key asked value [] = refl
lookup-insert key asked value ((own, old) ∷ rest) =
    let later = lookup-insert key asked value rest in
    ground (arith, later, eq_iff own asked, eq_iff own key, eq_iff key asked)

-- Each key stands once.
abbrev pub Distinct {ℓ} : {V : Type ℓ} → List (String × V) → Type ℓ
Distinct [] = Unit
Distinct ((key, value) ∷ entries) = (lookup key entries ≡ none) × Distinct entries

module _ {ℓ} {V : Type ℓ} where
  insert_fresh :
      (own key : String) (value : V) (entries : List (String × V))
      → (own == key) ≡ false
      → lookup own entries ≡ none
      → lookup own (insert key value entries) ≡ none
  insert_fresh own key value entries ne h =
      lookup-insert key own value entries ∙ ground (arith, eq_iff own key, eq_iff key own)

  pub insert-Distinct :
      (key : String) (value : V) (entries : List (String × V))
      → Distinct entries
      → Distinct (insert key value entries)
  unfolding insert lookup
  insert-Distinct key value [] d = (refl, tt)
  insert-Distinct key value ((own, old) ∷ rest) d = elim (Bool-cases (own == key)) [
    | inl same ↦ rw same (rw ((eq_iff own key).0 same) at d.0, d.1)
    | inr other ↦
        rw other (insert_fresh own key value rest other d.0, insert-Distinct key value rest d.1)
  ]

  pub lookup-Memᴰ :
      (key : String) (value : V) (entries : List (String × V))
      → lookup key entries ≡ some value
      → Memᴰ (key, value) entries
  unfolding lookup
  lookup-Memᴰ key value [] h = absurd (ground arith)
  lookup-Memᴰ key value ((own, old) ∷ rest) h = elim (Bool-cases (own == key)) [
    | inl same ↦
        Memᴰ.head
          (cc ((eq_iff own key).0 same, if_true (own == key) (some old) (lookup key rest) same))
    | inr other ↦ Memᴰ.tail (lookup-Memᴰ key value rest (rw other at h))
  ]
