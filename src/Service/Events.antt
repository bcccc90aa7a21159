-- ===== src/Service/Events.antt =====
-- Which services an update of an app reconciles.
use activemq_artemis_operato.Base.{
  ◌≡◌, refl, sym, ap, ◌∙◌, Bool, true, false, ◌&&◌, Option, none, some, [], ◌∷◌, ◌++◌, ◌↔◌, ◌⊎◌,
  inl, inr, Memᴰ, ◌==◌, eq_iff, Bool-cases,
}
use activemq_artemis_operato.Api.{BrokerServiceBindingStatus, BrokerApp}
use activemq_artemis_operato.App.Watch.{Request}
use activemq_artemis_operato.Service.{
  request_for, same_service, old_requests, new_requests, on_update,
}

-- The request is for the service of the binding.
abbrev pub IsFor : Option BrokerServiceBindingStatus → Request → Type 0
IsFor none r = ⊥
IsFor (some bound) r = request_for bound ≡ r

both_true : (a b : Bool) → (a && b) ≡ true → (a ≡ true) × (b ≡ true)
both_true true true h = (refl, refl)
both_true true false h = cc
both_true false b h = cc

only : {r x : Request} → Memᴰ r (x ∷ []) → x ≡ r
only (Memᴰ.head e) = sym e
only (Memᴰ.tail m) = elim m [ ]

one_of : {r x y : Request} → Memᴰ r (x ∷ y ∷ []) → (x ≡ r) ⊎ (y ≡ r)
one_of (Memᴰ.head e) = inl (sym e)
one_of (Memᴰ.tail m) = inr (only m)

same_request :
    (a b : BrokerServiceBindingStatus)
    → same_service (some a) (some b) ≡ true
    → request_for a ≡ request_for b
unfolding same_service request_for
same_request a b h =
    let tests = both_true (a.namespace == b.namespace) (a.name == b.name) h in
    let spaces = (eq_iff a.namespace b.namespace).0 tests.0 in
    let names = (eq_iff a.name b.name).0 tests.1 in
    ap (λ s. (s, a.name)) spaces ∙ ap (λ n. (b.namespace, n)) names

update_iff_from :
    (old new : Option BrokerServiceBindingStatus) (r : Request)
    → Memᴰ r (old_requests old ++ new_requests old new) ↔ (IsFor old r ⊎ IsFor new r)
unfolding old_requests new_requests same_service
update_iff_from none none r = (λ m. elim m [ ], λ h. elim h [ inl f ↦ absurd f | inr f ↦ absurd f ])
update_iff_from none (some new) r =
    (λ m. inr (only m), λ h. elim h [ inl f ↦ absurd f | inr e ↦ Memᴰ.head (sym e) ])
update_iff_from (some old) none r =
    (λ m. inl (only m), λ h. elim h [ inl e ↦ Memᴰ.head (sym e) | inr f ↦ absurd f ])
update_iff_from (some old) (some new) r = elim (Bool-cases (same_service (some old) (some new))) [
  | inl same ↦ rw same (
    λ m. inl (only m),
    λ h. elim h [
      | inl e ↦ Memᴰ.head (sym e)
      | inr e ↦ Memᴰ.head (sym (same_request old new same ∙ e))
    ],
  )
  | inr other ↦ rw other (
    λ m. one_of m,
    λ h. elim h [ inl e ↦ Memᴰ.head (sym e) | inr e ↦ Memᴰ.tail (Memᴰ.head (sym e)) ],
  )
]

-- An update reconciles exactly the services that the app was bound to before it or is bound to after.
pub on_update_iff :
    (old_app new_app : BrokerApp) (r : Request)
    → Memᴰ r (on_update old_app new_app)
      ↔ (IsFor old_app.status.service r ⊎ IsFor new_app.status.service r)
unfolding on_update
on_update_iff old_app new_app r = update_iff_from old_app.status.service new_app.status.service r
