-- ===== src/Loop/Stored.antt =====
-- What a sync without an error has done to a secret that was asked for.
use activemq_artemis_operato.Base.{
  String, ◌≡◌, sym, ap, ◌∙◌, Option, none, some, List, [], ◌∷◌, ◌++◌, ◌⊎◌, inl, inr, Memᴰ, All,
  lookup,
}
use activemq_artemis_operato.Errors.{ok}
use activemq_artemis_operato.Actions.{OwnerReference, Object, Client, Done, create, update}
use activemq_artemis_operato.Loop.{Deployed, Desired, Delta, Kit, none_yet}
use activemq_artemis_operato.App.Binding.{secret_kind, secret_type}
use activemq_artemis_operato.Loop.Synced.{Succeeds, after, created, Applies}

-- The secrets that are deployed.
abbrev pub secrets_in : Deployed → List Object
secrets_in deployed = none_yet (lookup secret_kind deployed)

-- The secret that is desired under a name.
abbrev pub desired_secret : Desired → String → Option Object
desired_secret desired name = lookup name (none_yet (lookup secret_type desired))

-- A secret of this name and with this data is deployed.
pub record IsDeployed (deployed : Deployed) (o : Object) : Type 0 where
  pub old : Object
  pub member : Memᴰ old (secrets_in deployed)
  pub named : old.name ≡ o.name
  pub same : old.content ≡ o.content

-- What operator-utils promises: the objects that are listed as secrets are secrets, and the comparison
-- by `CompareSecret` finds each desired secret to be deployed with its data, to be added, or to be
-- updated.
pub record ComparesSecrets (kit : Kit) : Type 0 where
  pub lists :
      (owner : OwnerReference) (deployed : Deployed)
      → kit.list_all owner ≡ ok deployed
      → All (λ (o : Object). o.type ≡ secret_type) (secrets_in deployed)
  pub compares :
      (deployed : Deployed) (desired : Desired) (name : String) (o : Object)
      → desired_secret desired name ≡ some o
      → IsDeployed deployed o
        ⊎ ((d : Delta) × (kit.compare deployed desired secret_kind ≡ some d)
            × ((Memᴰ o d.added) ⊎ (Memᴰ o d.updated)))

-- The loop over the objects reaches this one, and its call there gives no error.
pub record IsDone {W : Type 0} (act : W → Object → Done W) (os : List Object) (w : W) (o : Object)
    : Type 0 where
  pub before : List Object
  pub later : List Object
  pub split : os ≡ before ++ o ∷ later
  pub no_error : (act (after act before w) o).1 ≡ none

pub Succeeds-IsDone :
    {W : Type 0} (act : W → Object → Done W) (os : List Object) (w : W) (o : Object)
    → Memᴰ o os
    → Succeeds act os w
    → IsDone act os w o
Succeeds-IsDone act [] w o i h = elim i [ ]
Succeeds-IsDone act (x ∷ os) w o (Memᴰ.head e) h = record {
  before = [];
  later = os;
  split = ap (λ y. y ∷ os) (sym e);
  no_error = ap (λ y. (act w y).1) e ∙ h.0;
}
Succeeds-IsDone act (x ∷ os) w o (Memᴰ.tail i) h =
    let rest = Succeeds-IsDone act os (act w x).0 o i h.1 in
    record {
      before = x ∷ rest.before;
      later = rest.later;
      split = ap (λ ys. x ∷ ys) rest.split;
      no_error = rest.no_error;
    }

module _ {W : Type 0} (client : Client W) (owner : OwnerReference) where
  -- The secret is deployed with this data, or was created or updated without an error on the cluster as
  -- the calls before left it.
  pub data Stored (deployed : Deployed) (delta : Option Delta) (w : W) (o : Object) : Type 0 where
    unchanged : IsDeployed deployed o → Stored deployed delta w o
    is_created :
        (d : Delta)
        → delta ≡ some d
        → IsDone (create client owner) d.added w o
        → Stored deployed delta w o
    is_updated :
        (d : Delta)
        → delta ≡ some d
        → IsDone (update client) d.updated (created client owner d w) o
        → Stored deployed delta w o

  pub Applies-Stored :
      (kit : Kit) (deployed : Deployed) (desired : Desired) (name : String) (o : Object) (w : W)
      → ComparesSecrets kit
      → desired_secret desired name ≡ some o
      → Applies client owner (kit.compare deployed desired secret_kind) w
      → Stored deployed (kit.compare deployed desired secret_kind) w o
  Applies-Stored kit deployed desired name o w laws asked applies =
      elim (laws.compares deployed desired name o asked) [
        | inl there ↦ unchanged there
        | inr (d, e, inl i) ↦
            is_created d e (Succeeds-IsDone (create client owner) d.added w o i (rw e at applies).0)
        | inr (d, e, inr i) ↦ is_updated d e (
            Succeeds-IsDone (update client) d.updated (created client owner d w) o i
              (rw e at applies).1)
      ]
