-- ===== src/Loop.antt =====
-- controllers/reconciler_loop.go: the resources that a reconcile asks for, and the actions that bring
-- the cluster there.
pub mod Tracked
pub mod Synced
pub mod Stored
use activemq_artemis_operato.Base.{
  String, Bool, true, false, Option, none, some, List, [], ◌∷◌, ◌++◌, ◌==◌, find_first, is_empty,
  lookup, insert, if◌then◌else◌,
}
use activemq_artemis_operato.Errors.{Error, plain, Result, ok, err}
use activemq_artemis_operato.Actions.{OwnerReference, Object, Client, Done, create, update, delete}

abbrev pub Deployed : Type 0
Deployed = List (String × List Object)

-- The objects by type and name.
abbrev pub Desired : Type 0
Desired = List (String × List (String × Object))

-- A nil map has no keys.
pub record Loop : Type 0 where
  pub deployed : Deployed
  pub desired : Desired

abbrev pub none_yet {ℓ} : {A : Type ℓ} → Option (List A) → List A
none_yet none = []
none_yet (some xs) = xs

-- `GetFromDeployed` and `CloneOfDeployed`: an object is a value here.
unfoldable pub get_from_deployed : Loop → String → String → Option Object
get_from_deployed loop kind name =
    find_first (λ (o : Object). o.name == name) (none_yet (lookup kind loop.deployed))

unfoldable pub track_desired : Object → Loop → Loop
track_desired o loop = record loop {
  desired = insert o.type (insert o.name o (none_yet (lookup o.type loop.desired))) loop.desired;
}

-- `compare.ResourceDelta` of operator-utils.
pub record Delta : Type 0 where
  pub added : List Object
  pub updated : List Object
  pub removed : List Object

-- What the loop calls and does not implement: the reader of the owned objects and the comparison of
-- operator-utils, with the comparators set, and `%q` of the errors.
pub record Kit : Type 0 where
  pub list_all : OwnerReference → Result Deployed
  pub compare : Deployed → Desired → String → Option Delta
  pub quoted : List Error → String

abbrev start_loop : Result Deployed → Result Loop
start_loop (ok deployed) = ok (record { deployed = deployed; desired = [] })
start_loop (err e) = err e

unfoldable pub init_deployed : Kit → OwnerReference → Result Loop
init_deployed kit owner = start_loop (kit.list_all owner)

unfoldable pub track_error : List Error → Option Error → List Error
track_error errors none = errors
track_error errors (some e) = errors ++ e ∷ []

-- One of the loops over a delta.
unfoldable pub for_each :
    {W : Type 0} → (W → Object → Done W) → List Object → W × List Error → W × List Error
for_each act [] (w, errors) = (w, errors)
for_each act (o ∷ os) (w, errors) =
    let done = act w o in for_each act os (done.0, track_error errors done.1)

module _ {W : Type 0} (client : Client W) where
  unfoldable pub create_requested_resource : OwnerReference → W → Object → Done W
  create_requested_resource owner w o = create client owner w o

  unfoldable pub update_requested_resource : W → Object → Done W
  update_requested_resource w o = update client w o

  -- The error of the deletion is assigned to a variable of the inner scope; the one returned is nil.
  unfoldable pub delete_requested_resource : W → Object → Done W
  delete_requested_resource w o = ((delete client w o).0, none)

  unfoldable pub sync_delta : OwnerReference → Option Delta → W × List Error → W × List Error
  sync_delta owner none s = s
  sync_delta owner (some d) s = for_each delete_requested_resource d.removed (
      for_each update_requested_resource d.updated
        (for_each (create_requested_resource owner) d.added s))

  unfoldable pub sync_types :
      OwnerReference → (String → Option Delta) → List String → W × List Error → W × List Error
  sync_types owner deltas [] s = s
  sync_types owner deltas (t ∷ types) s =
      sync_types owner deltas types (sync_delta owner (deltas t) s)

  unfoldable pub composite : Kit → W × List Error → Done W
  composite kit (w, []) = (w, none)
  composite kit (w, e ∷ errors) = (w, some (plain (kit.quoted (e ∷ errors))))

  unfoldable pub sync_desired_with_deployed : Kit → OwnerReference → List String → Loop → W → Done W
  sync_desired_with_deployed kit owner types loop w =
      composite kit (sync_types owner (kit.compare loop.deployed loop.desired) types (w, []))
