-- ===== src/Actions/Outcomes.antt =====
-- When an update gives no error.
use activemq_artemis_operato.Base.{
  ℕ, String, ◌≡◌, refl, sym, ◌∙◌, true, Option, none, some, ◌↔◌, ◌⊎◌, inl, inr, Bool-cases,
}
use activemq_artemis_operato.Errors.{Error}
use activemq_artemis_operato.Actions.{
  OwnerReference, Object, create, set_owner_and_controller, wrapped, ClientError, status_error,
  other_error, Client, Done, is_invalid_update, is_conflict, delete, after_delete, after_update,
  update,
}

-- The client updated the object.
abbrev pub Updated : (W : Type 0) → Client W → W → Object → Type 0
Updated W client w o = (client.update w o).1 ≡ none

-- The API server refused the update as invalid, and the client deleted the object.
abbrev pub Replaced : (W : Type 0) → Client W → W → Object → Type 0
Replaced W client w o =
    (status : String) × (code : ℕ) × (reason : String) × (message : String) × ((client.update w o).1
      ≡ some (status_error status code reason message))
    × (is_invalid_update status code reason ≡ true)
    × ((client.delete (client.update w o).0 o).1 ≡ none)

refused : (e : Error) → ¬ (◌≡◌ {A = Option Error} (some e) none)
refused e h = cc

same_refusal :
    {s s' r r' m m' : String} {c c' : ℕ}
    → some (status_error s' c' r' m') ≡ some (status_error s c r m)
    → is_invalid_update s c r ≡ is_invalid_update s' c' r'
same_refusal h = cc

module _ {W : Type 0} (client : Client W) (o : Object) where
  wrapped-none :
      (action type : String) (r : W × Option ClientError)
      → (wrapped client action type r).1 ≡ none
      → r.1 ≡ none
  wrapped-none action type (w, none) h = refl
  wrapped-none action type (w, some e) h = cc

  none-wrapped :
      (action type : String) (r : W × Option ClientError)
      → r.1 ≡ none
      → (wrapped client action type r).1 ≡ none
  none-wrapped action type (w, none) h = refl
  none-wrapped action type (w, some e) h = cc

  -- A creation gives no error exactly when the client's gives none.
  pub create_iff :
      (owner : OwnerReference) (w : W)
      → ((create client owner w o).1 ≡ none)
        ↔ ((client.create w (set_owner_and_controller owner o)).1 ≡ none)
  unfolding create
  create_iff owner w =
      (wrapped-none "failed to create new " o.type _, none-wrapped "failed to create new " o.type _)

  after_delete-none : (r : Done W) → (after_delete client o r).1 ≡ none → r.1 ≡ none
  unfolding after_delete
  after_delete-none (w, none) h = refl
  after_delete-none (w, some e) h = cc

  none-after_delete : (r : Done W) → r.1 ≡ none → (after_delete client o r).1 ≡ none
  unfolding after_delete
  none-after_delete (w, none) h = refl
  none-after_delete (w, some e) h = cc

  ReplacedBy : W × Option ClientError → Type 0
  ReplacedBy r =
      (status : String) × (code : ℕ) × (reason : String) × (message : String) × (r.1
        ≡ some (status_error status code reason message))
      × (is_invalid_update status code reason ≡ true)
      × ((client.delete r.0 o).1 ≡ none)

  after_update-none :
      (r : W × Option ClientError)
      → (after_update client o r).1 ≡ none
      → (r.1 ≡ none) ⊎ ReplacedBy r
  unfolding after_update delete ReplacedBy
  after_update-none (w, none) h = inl refl
  after_update-none (w, some (other_error m)) h = cc
  after_update-none (w, some (status_error s c r m)) h =
      elim (Bool-cases (is_invalid_update s c r)) [
        | inl invalid ↦ inr (
          s,
          c,
          r,
          m,
          refl,
          invalid,
          wrapped-none "failed to delete " o.type _ (after_delete-none _ (rw invalid at h)),
        )
        | inr valid ↦ elim (Bool-cases (is_conflict s c r)) [
          | inl conflict ↦ absurd (refused _ (rw (valid, conflict) at h))
          | inr other ↦ absurd (refused _ (rw (valid, other) at h))
        ]
      ]

  none-after_update :
      (r : W × Option ClientError)
      → (r.1 ≡ none) ⊎ ReplacedBy r
      → (after_update client o r).1 ≡ none
  unfolding after_update delete ReplacedBy
  none-after_update (w, none) h = refl
  none-after_update (w, some e) (inl h) = cc
  none-after_update (w, some (other_error m)) (inr (s, c, r, m', same, invalid, gone)) = cc
  none-after_update (w, some (status_error s' c' r' m')) (inr (s, c, r, m, same, invalid, gone)) =
      let refused_so : is_invalid_update s' c' r' ≡ true = sym (same_refusal same) ∙ invalid in
      rw refused_so (none-after_delete _ (none-wrapped "failed to delete " o.type _ gone))

-- An update gives no error exactly when the client's gives none, or is refused as invalid and the
-- object is deleted without one.
pub update_iff :
    (W : Type 0) (client : Client W) (w : W) (o : Object)
    → ((update client w o).1 ≡ none) ↔ (Updated W client w o ⊎ Replaced W client w o)
unfolding update ReplacedBy
update_iff W client w o =
    (after_update-none client o (client.update w o), none-after_update client o (client.update w o))
