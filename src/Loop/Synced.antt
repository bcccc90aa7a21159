-- ===== src/Loop/Synced.antt =====
-- When `SyncDesiredWithDeployed` reports no error.
use activemq_artemis_operato.Base.{
  String, ◌≡◌, refl, sym, ap, ◌∙◌, Option, none, some, List, [], ◌∷◌, ◌↔◌,
}
use mathlib.Core.Path.{subst}
use activemq_artemis_operato.Errors.{Error}
use activemq_artemis_operato.Actions.{OwnerReference, Object, Client, Done, create, update, delete}
use activemq_artemis_operato.Loop.{
  Delta, Kit, Loop, track_error, create_requested_resource, update_requested_resource,
  delete_requested_resource, for_each, sync_delta, sync_types, composite,
  sync_desired_with_deployed,
}

track_error-empty :
    (es : List Error) (e : Option Error) → track_error es e ≡ [] → (es ≡ []) × (e ≡ none)
unfolding track_error
track_error-empty es none h = (h, refl)
track_error-empty [] (some e) h = cc
track_error-empty (x ∷ es) (some e) h = cc

module _ {W : Type 0} where
  -- The calls on the objects, one after the other, give no error.
  abbrev pub Succeeds : (W → Object → Done W) → List Object → W → Type 0
  Succeeds act [] w = Unit
  Succeeds act (o ∷ os) w = ((act w o).1 ≡ none) × Succeeds act os (act w o).0

  -- The cluster after the calls.
  abbrev pub after : (W → Object → Done W) → List Object → W → W
  after act [] w = w
  after act (o ∷ os) w = after act os (act w o).0

  for_each-after :
      (act : W → Object → Done W) (os : List Object) (w : W) (es : List Error)
      → (for_each act os (w, es)).0 ≡ after act os w
  unfolding for_each
  for_each-after act [] w es = refl
  for_each-after act (o ∷ os) w es = for_each-after act os (act w o).0 (track_error es (act w o).1)

  for_each-clean :
      (act : W → Object → Done W) (os : List Object) (w : W) (es : List Error)
      → (for_each act os (w, es)).1 ≡ []
      → (es ≡ []) × Succeeds act os w
  unfolding for_each
  for_each-clean act [] w es h = (h, tt)
  for_each-clean act (o ∷ os) w es h =
      let (tracked, rest) = for_each-clean act os (act w o).0 (track_error es (act w o).1) h in
      let (before, here) = track_error-empty es (act w o).1 tracked in (before, (here, rest))

  clean-for_each :
      (act : W → Object → Done W) (os : List Object) (w : W) (es : List Error)
      → es ≡ []
      → Succeeds act os w
      → (for_each act os (w, es)).1 ≡ []
  unfolding for_each track_error
  clean-for_each act [] w es e h = e
  clean-for_each act (o ∷ os) w es e h =
      clean-for_each act os (act w o).0 (track_error es (act w o).1) (ap (track_error es) h.0 ∙ e)
        h.1

module _ {W : Type 0} (client : Client W) (owner : OwnerReference) where
  -- The cluster after the creations, and after the updates too.
  abbrev pub created : Delta → W → W
  created d w = after (create_requested_resource client owner) d.added w

  abbrev pub changed : Delta → W → W
  changed d w = after (update_requested_resource client) d.updated (created d w)

  -- The creations and the updates of a delta give no error, whatever its deletions give.
  abbrev pub Applies : Option Delta → W → Type 0
  Applies none w = Unit
  Applies (some d) w =
      Succeeds (create client owner) d.added w × Succeeds (update client) d.updated (created d w)

  abbrev pub after_delta : Option Delta → W → W
  after_delta none w = w
  after_delta (some d) w = after (delete_requested_resource client) d.removed (changed d w)

  -- They give none for any of the types, one after the other.
  abbrev pub AllApply : (String → Option Delta) → List String → W → Type 0
  AllApply deltas [] w = Unit
  AllApply deltas (t ∷ types) w =
      Applies (deltas t) w × AllApply deltas types (after_delta (deltas t) w)

  deletions_clean : (os : List Object) (w : W) → Succeeds (delete_requested_resource client) os w
  unfolding delete_requested_resource
  deletions_clean [] w = tt
  deletions_clean (o ∷ os) w = (refl, deletions_clean os (delete client w o).0)

  composite-none : (kit : Kit) (s : W × List Error) → (composite client kit s).1 ≡ none → s.1 ≡ []
  unfolding composite
  composite-none kit (w, []) h = refl
  composite-none kit (w, e ∷ es) h = cc

  none-composite : (kit : Kit) (s : W × List Error) → s.1 ≡ [] → (composite client kit s).1 ≡ none
  unfolding composite
  none-composite kit (w, []) h = refl
  none-composite kit (w, e ∷ es) h = cc

  sync_delta-clean :
      (d : Option Delta) (w : W) (es : List Error)
      → (sync_delta client owner d (w, es)).1 ≡ []
      → (es ≡ []) × Applies d w
  unfolding sync_delta create_requested_resource update_requested_resource
  sync_delta-clean none w es h = (h, tt)
  sync_delta-clean (some d) w es h =
      let creates = create_requested_resource client owner in
      let updates = update_requested_resource client in
      let s = for_each creates d.added (w, es) in
      let t = for_each updates d.updated s in
      let (clean₂, gone) = for_each-clean (delete_requested_resource client) d.removed t.0 t.1 h in
      let (clean₁, up) = for_each-clean updates d.updated s.0 s.1 clean₂ in
      let (clean₀, made) = for_each-clean creates d.added w es clean₁ in
      (clean₀, (made, subst (Succeeds updates d.updated) (for_each-after creates d.added w es) up))

  clean-sync_delta :
      (d : Option Delta) (w : W) (es : List Error)
      → es ≡ []
      → Applies d w
      → (sync_delta client owner d (w, es)).1 ≡ []
  unfolding sync_delta create_requested_resource update_requested_resource
  clean-sync_delta none w es e h = e
  clean-sync_delta (some d) w es e (made, up) =
      let creates = create_requested_resource client owner in
      let updates = update_requested_resource client in
      let s = for_each creates d.added (w, es) in
      let t = for_each updates d.updated s in
      let here = sym (for_each-after creates d.added w es) in
      clean-for_each (delete_requested_resource client) d.removed t.0 t.1
        (clean-for_each updates d.updated s.0 s.1 (clean-for_each creates d.added w es e made)
          (subst (Succeeds updates d.updated) here up))
        (deletions_clean d.removed t.0)

  sync_delta-after :
      (d : Option Delta) (w : W) (es : List Error)
      → (sync_delta client owner d (w, es)).0 ≡ after_delta d w
  unfolding sync_delta
  sync_delta-after none w es = refl
  sync_delta-after (some d) w es =
      let creates = create_requested_resource client owner in
      let updates = update_requested_resource client in
      let s = for_each creates d.added (w, es) in
      let t = for_each updates d.updated s in
      for_each-after (delete_requested_resource client) d.removed t.0 t.1
      ∙ ap (after (delete_requested_resource client) d.removed) (
          for_each-after updates d.updated s.0 s.1
          ∙ ap (after updates d.updated) (for_each-after creates d.added w es))

  sync_types-clean :
      (deltas : String → Option Delta) (types : List String) (w : W) (es : List Error)
      → (sync_types client owner deltas types (w, es)).1 ≡ []
      → (es ≡ []) × AllApply deltas types w
  unfolding sync_types
  sync_types-clean deltas [] w es h = (h, tt)
  sync_types-clean deltas (t ∷ types) w es h =
      let s = sync_delta client owner (deltas t) (w, es) in
      let (clean₁, rest) = sync_types-clean deltas types s.0 s.1 h in
      let (clean₀, here) = sync_delta-clean (deltas t) w es clean₁ in
      (clean₀, (here, subst (AllApply deltas types) (sync_delta-after (deltas t) w es) rest))

  clean-sync_types :
      (deltas : String → Option Delta) (types : List String) (w : W) (es : List Error)
      → es ≡ []
      → AllApply deltas types w
      → (sync_types client owner deltas types (w, es)).1 ≡ []
  unfolding sync_types
  clean-sync_types deltas [] w es e h = e
  clean-sync_types deltas (t ∷ types) w es e (here, rest) =
      let s = sync_delta client owner (deltas t) (w, es) in
      clean-sync_types deltas types s.0 s.1 (clean-sync_delta (deltas t) w es e here)
        (subst (AllApply deltas types) (sym (sync_delta-after (deltas t) w es)) rest)

-- The sync reports no error exactly when, over the types in their order, every creation and every
-- update gives none, each on the cluster that the calls before it left. A deletion that fails is not
-- reported.
pub sync_desired_with_deployed_iff :
    (W : Type 0) (client : Client W) (kit : Kit) (owner : OwnerReference) (types : List String)
    (loop : Loop) (w : W)
    → ((sync_desired_with_deployed client kit owner types loop w).1 ≡ none)
      ↔ AllApply client owner (kit.compare loop.deployed loop.desired) types w
unfolding sync_desired_with_deployed
sync_desired_with_deployed_iff W client kit owner types loop w =
    let deltas = kit.compare loop.deployed loop.desired in
    (
      λ h.
          (sync_types-clean client owner deltas types w [] (composite-none client owner kit _ h)).1,
      λ h.
          none-composite client owner kit _
            (clean-sync_types client owner deltas types w [] refl h),
    )
