-- ===== src/Base/Order.antt =====
-- `sort.Strings`, the parts of a text about a separator, and replacement in a text.
use Prim.Native.Char.{code}
use Prim.Native.String.{String}
use mathlib.Core.Path.{◌≡◌, refl}
use mathlib.Core.Logic.{◌↔◌, inl, inr}
use mathlib.Core.Bool.{Bool, true, false, ◌&&◌, ◌||◌}
use mathlib.Core.List.{List, [], ◌∷◌, Memᴰ}
use activemq_artemis_operato.Base.Tests.{◌=?◌, ltb, if◌then◌else◌, Bool-cases}

-- Go compares bytes; code points in UTF-8 are in the same order.
text_le : String → String → Bool
text_le String.[] t = true
text_le (String.◌∷◌ c s) String.[] = false
text_le (String.◌∷◌ c s) (String.◌∷◌ d t) =
    ltb (code c) (code d) || ((code c =? code d) && text_le s t)

put_in_order : String → List String → List String
put_in_order s [] = s ∷ []
put_in_order s (t ∷ ts) = if text_le s t then s ∷ t ∷ ts else t ∷ put_in_order s ts

-- `sort.Strings`. Equal texts cannot be told apart, so any way to sort gives this list.
unfoldable pub sort_strings : List String → List String
unfolding put_in_order text_le
sort_strings [] = []
sort_strings (s ∷ ss) = put_in_order s (sort_strings ss)

Memᴰ-put_in_order :
    {a : String} (s : String) (ts : List String) → Memᴰ a (s ∷ ts) → Memᴰ a (put_in_order s ts)
unfolding put_in_order
Memᴰ-put_in_order s [] m = m
Memᴰ-put_in_order s (t ∷ ts) m = elim (Bool-cases (text_le s t)) [
  | inl first ↦ rw first m
  | inr later ↦ rw later (elim m [
    | Memᴰ.head e ↦ Memᴰ.tail (Memᴰ-put_in_order s ts (Memᴰ.head e))
    | Memᴰ.tail (Memᴰ.head e) ↦ Memᴰ.head e
    | Memᴰ.tail (Memᴰ.tail r) ↦ Memᴰ.tail (Memᴰ-put_in_order s ts (Memᴰ.tail r))
  ])
]

put_in_order-Memᴰ :
    {a : String} (s : String) (ts : List String) → Memᴰ a (put_in_order s ts) → Memᴰ a (s ∷ ts)
unfolding put_in_order
put_in_order-Memᴰ s [] m = m
put_in_order-Memᴰ {a} s (t ∷ ts) m = elim (Bool-cases (text_le s t)) [
  | inl first ↦ rw first at m
  | inr later ↦ swapped s t ts (λ r. put_in_order-Memᴰ s ts r) (rw later at m)
]
  where
    swapped :
        (s t : String) (ts : List String)
        → (Memᴰ a (put_in_order s ts) → Memᴰ a (s ∷ ts))
        → Memᴰ a (t ∷ put_in_order s ts)
        → Memᴰ a (s ∷ t ∷ ts)
    swapped s t ts f (Memᴰ.head e) = Memᴰ.tail (Memᴰ.head e)
    swapped s t ts f (Memᴰ.tail r) = elim (f r) [
      | Memᴰ.head e ↦ Memᴰ.head e
      | Memᴰ.tail q ↦ Memᴰ.tail (Memᴰ.tail q)
    ]

-- Sorting keeps the elements.
pub Memᴰ-sort_strings : {a : String} (ss : List String) → Memᴰ a ss ↔ Memᴰ a (sort_strings ss)
unfolding sort_strings
Memᴰ-sort_strings [] = (λ m. m, λ m. m)
Memᴰ-sort_strings (s ∷ ss) = (
  λ m.
      Memᴰ-put_in_order s (sort_strings ss) (elim m [
        | Memᴰ.head e ↦ Memᴰ.head e
        | Memᴰ.tail r ↦ Memᴰ.tail ((Memᴰ-sort_strings ss).0 r)
      ]),
  λ m. elim (put_in_order-Memᴰ s (sort_strings ss) m) [
    | Memᴰ.head e ↦ Memᴰ.head e
    | Memᴰ.tail r ↦ Memᴰ.tail ((Memᴰ-sort_strings ss).1 r)
  ],
)

sorted : sort_strings ("b" ∷ "ab" ∷ "a" ∷ []) ≡ ("a" ∷ "ab" ∷ "b" ∷ [])
unfolding sort_strings
sorted = refl
