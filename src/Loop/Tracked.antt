-- ===== src/Loop/Tracked.antt =====
-- The objects that a reconcile asks for.
use activemq_artemis_operato.Base.{
  String, ◌≡◌, refl, ap, ◌∙◌, ◌&&◌, Option, some, ◌==◌, lookup, insert, lookup-insert,
  if◌then◌else◌, eq_iff, Bool-cases, inl, inr,
}
use activemq_artemis_operato.Actions.{Object}
use activemq_artemis_operato.Loop.{Desired, Loop, none_yet, track_desired}

-- The object that is asked for under a type and a name.
unfoldable pub tracked : Loop → String → String → Option Object
tracked loop type name = lookup name (none_yet (lookup type loop.desired))

two_levels :
    (o : Object) (all : Desired) (t n type name : String)
    → lookup name (none_yet (lookup type (insert t (insert n o (none_yet (lookup t all))) all)))
      ≡ (if t == type && n == name then some o else lookup name (none_yet (lookup type all)))
two_levels o all t n type name =
    let typed = lookup-insert t type (insert n o (none_yet (lookup t all))) all in
    ap (λ m. lookup name (none_yet m)) typed ∙ elim (Bool-cases (t == type)) [
      | inl same ↦ rw same (
          lookup-insert n name o (none_yet (lookup t all))
          ∙ ap (λ (u : String). if n == name then some o else lookup name (none_yet (lookup u all)))
              ((eq_iff t type).0 same))
      | inr other ↦ rw other refl
    ]

-- An object that is tracked is asked for under its type and name, in the place of the one before;
-- under any other type or name nothing changes.
pub tracked-track_desired :
    (o : Object) (loop : Loop) (type name : String)
    → tracked (track_desired o loop) type name
      ≡ (if o.type == type && o.name == name then some o else tracked loop type name)
unfolding tracked track_desired
tracked-track_desired o loop type name = two_levels o loop.desired o.type o.name type name
