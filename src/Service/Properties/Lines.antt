-- ===== src/Service/Properties/Lines.antt =====
-- The lines of `capabilities.properties`, of controllers/brokerservice_controller.go.
use activemq_artemis_operato.Base.{
  String, Bool, true, false, ◌||◌, List, [], ◌∷◌, ◌≡◌, refl, sym, ap, ◌∙◌, ◌==◌, eq_iff, ◌↔◌, ◌⊎◌,
  inl, inr, arith, Memᴰ, has, add, has-add, Memᴰ-has, has-Memᴰ, sort_strings, Memᴰ-sort_strings,
}
use activemq_artemis_operato.Service.Properties.{Property, property_line, line_set}

Memᴰ-add : (k j : String) (m : List String) → Memᴰ j (add k m) ↔ ((k ≡ j) ⊎ Memᴰ j m)
Memᴰ-add k j m = (
  λ i. split (k == j) (sym (has-add k j m) ∙ Memᴰ-has i) refl,
  λ e. has-Memᴰ j (add k m) (has-add k j m ∙ joined e),
)
  where
    split : (x : Bool) → (x || has j m) ≡ true → (k == j) ≡ x → (k ≡ j) ⊎ Memᴰ j m
    split true h e = inl ((eq_iff k j).0 e)
    split false h e = inr (has-Memᴰ j m h)

    joined : (k ≡ j) ⊎ Memᴰ j m → (k == j || has j m) ≡ true
    joined (inl e) = ground (arith, (eq_iff k j).1 e)
    joined (inr i) = ground (arith, Memᴰ-has i)

line_of :
    (line : String) (ps : List Property)
    → Memᴰ line (line_set ps)
    → (p : Property) × Memᴰ p ps × (property_line p ≡ line)
unfolding line_set
line_of line [] m = elim m [ ]
line_of line (p ∷ ps) m = elim ((Memᴰ-add (property_line p) line (line_set ps)).0 m) [
  | inl e ↦ (p, Memᴰ.head refl, e)
  | inr rest ↦ let q = line_of line ps rest in (q.0, Memᴰ.tail q.1, q.2)
]

of_property : (p : Property) (ps : List Property) → Memᴰ p ps → Memᴰ (property_line p) (line_set ps)
unfolding line_set
of_property p [] m = elim m [ ]
of_property p (q ∷ ps) (Memᴰ.head e) =
    (Memᴰ-add (property_line q) (property_line p) (line_set ps)).1 (inl (ap property_line (sym e)))
of_property p (q ∷ ps) (Memᴰ.tail m) =
    (Memᴰ-add (property_line q) (property_line p) (line_set ps)).1 (inr (of_property p ps m))

-- The lines of the file are exactly those of the properties.
pub line_iff :
    (line : String) (ps : List Property)
    → Memᴰ line (sort_strings (line_set ps))
      ↔ ((p : Property) × Memᴰ p ps × (property_line p ≡ line))
line_iff line ps = (
  λ m. line_of line ps ((Memᴰ-sort_strings (line_set ps)).1 m),
  λ p. (Memᴰ-sort_strings (line_set ps)).0 (rw (← p.2) (of_property p.0 ps p.1)),
)
