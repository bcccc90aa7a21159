-- ===== src/Versions/Ascending.antt =====
-- The order of versions by their components, in which the supported versions are sorted, and the last
-- of a sorted list that passes a test.
use activemq_artemis_operato.Versions.{Version, walk_back, last_of}
use activemq_artemis_operato.Base.{
  Bool, true, false, ◌&&◌, ◌||◌, Option, none, some, List, [], ◌∷◌, ◌≡◌, refl, arith, inl, inr,
  Bool-cases, Option-cases, Memᴰ, All, All-Memᴰ, ltb, leb, ◌=?◌,
}

abbrev pub at_most : Version → Version → Bool
at_most v w =
    ltb v.major w.major
    || (v.major =? w.major && (ltb v.minor w.minor || (v.minor =? w.minor && leb v.patch w.patch)))

abbrev pub IsAscending : List Version → Type 0
IsAscending [] = Unit
IsAscending (v ∷ vs) = All (λ w. at_most v w ≡ true) vs × IsAscending vs

-- The outcome is the latest version of the list that passes the test, or nothing where none does.
abbrev pub IsLatest : (Version → Bool) → List Version → Option Version → Type 0
IsLatest test vs none = (v : Version) → Memᴰ v vs → test v ≡ false
IsLatest test vs (some v) =
    Memᴰ v vs × ((test v ≡ true) × ((w : Version) → Memᴰ w vs → test w ≡ true → at_most w v ≡ true))

at_most_refl : (v : Version) → at_most v v ≡ true
at_most_refl v = ground arith

module _ (test : Version → Bool) where
  IsLatest-first :
      (v : Version) (vs : List Version)
      → IsLatest test vs none
      → test v ≡ true
      → IsLatest test (v ∷ vs) (some v)
  IsLatest-first v vs h e = (Memᴰ.head refl, (e, latest))
    where
      latest : (w : Version) → Memᴰ w (v ∷ vs) → test w ≡ true → at_most w v ≡ true
      latest w (Memᴰ.head q) t = rw q (at_most_refl v)
      latest w (Memᴰ.tail i) t = let f = h w i in absurd (ground (arith, t, f))

  IsLatest-none :
      (v : Version) (vs : List Version)
      → IsLatest test vs none
      → test v ≡ false
      → IsLatest test (v ∷ vs) none
  IsLatest-none v vs h e w (Memᴰ.head q) = rw q e
  IsLatest-none v vs h e w (Memᴰ.tail i) = h w i

  IsLatest-later :
      (v u : Version) (vs : List Version)
      → All (λ w. at_most v w ≡ true) vs
      → IsLatest test vs (some u)
      → IsLatest test (v ∷ vs) (some u)
  IsLatest-later v u vs a h = (Memᴰ.tail h.0, (h.1.0, latest))
    where
      latest : (w : Version) → Memᴰ w (v ∷ vs) → test w ≡ true → at_most w u ≡ true
      latest w (Memᴰ.head q) t = rw q (All-Memᴰ (λ w. at_most v w ≡ true) u h.0 a)
      latest w (Memᴰ.tail i) t = h.1.1 w i t

  pub walk_back-IsLatest :
      (vs : List Version) → IsAscending vs → IsLatest test vs (walk_back test vs)
  unfolding walk_back
  walk_back-IsLatest [] h = λ v i. elim i [ ]
  walk_back-IsLatest (v ∷ vs) h =
      let rest = walk_back-IsLatest vs h.1 in
      elim (Option-cases (walk_back test vs)) [
        | inr (u, e) ↦ rw e (IsLatest-later v u vs h.0 (rw e at rest))
        | inl e ↦ elim (Bool-cases (test v)) [
          | inl t ↦ rw e (rw t (IsLatest-first v vs (rw e at rest) t))
          | inr t ↦ rw e (rw t (IsLatest-none v vs (rw e at rest) t))
        ]
      ]

pub walk_back-all :
    (v : Version) (vs : List Version) → walk_back (λ w. true) (v ∷ vs) ≡ some (last_of v vs)
unfolding walk_back
walk_back-all v [] = refl
walk_back-all v (w ∷ ws) = rw (walk_back-all w ws) refl
