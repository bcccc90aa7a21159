-- ===== src/Service/Provision/Listed.antt =====
-- The annotation of provisioned apps, which `processAppSecrets` of
-- controllers/brokerservice_controller.go writes and `processStatus` reads back.
use Prim.Native.String
use Prim.Native.String.append
use activemq_artemis_operato.Base.{
  String, true, some, List, [], ◌∷◌, ◌≡◌, ◌≢◌, refl, sym, ap, ◌∙◌, ◌==◌, eq_iff, ◌↔◌, inl, inr,
  Memᴰ, All, All-Memᴰ, All-of-Memᴰ, Bool-cases, join, split, lacks, split-join, sort_strings,
  Memᴰ-sort_strings, lookup, lookup-insert, eq_refl, map, if_true,
}
use activemq_artemis_operato.Api.{BrokerApp, BrokerService}
use activemq_artemis_operato.Loop.{Loop}
use activemq_artemis_operato.App.Status.{app_identity}
use activemq_artemis_operato.Service.Acceptor.{app_properties_secret_name}
use activemq_artemis_operato.Service.Provision.{
  Provision, provisioned_apps_annotation, provisioned_text, secret_of, app_secret,
}
use activemq_artemis_operato.Service.Status.{listed_apps}

append-not_empty : (s : String) (t : String) → String.◌++◌ s (String.◌++◌ "-" t) ≢ ""
append-not_empty String.[] t e = cc (sym (append.nil (String.◌++◌ "-" t) ∙ append.cons _ "" t) ∙ e)
append-not_empty (String.◌∷◌ c s) t e = cc (sym (append.cons c s (String.◌++◌ "-" t)) ∙ e)

-- An identity is never empty, since it holds a dash.
pub app_identity-not_empty : (app : BrokerApp) → app_identity app ≢ ""
unfolding app_identity
app_identity-not_empty app = append-not_empty app.namespace _

one_text : (t : String) (ids : List String) → ("" ∷ []) ≡ ids → Memᴰ t ids → t ≡ ""
one_text t ids e m = only (rw (← e) at m)
  where
    only : Memᴰ t ("" ∷ []) → t ≡ ""
    only (Memᴰ.head q) = q
    only (Memᴰ.tail r) = elim r [ ]

-- The apps that are read back, where some are listed and none is empty or has a comma.
read_back :
    (ids : List String) (id : String)
    → All (λ t. lacks b',' t ≡ true) ids
    → ((t : String) → Memᴰ t ids → t ≢ "")
    → Memᴰ id ids
    → listed_apps (some (join ids ",")) ≡ ids
unfolding listed_apps split
read_back [] id h full m = elim m [ ]
read_back (s ∷ ss) id h full m =
    let back = split-join "," s ss h in
    elim (Bool-cases (join (s ∷ ss) "," == "")) [
      | inl empty ↦
          let e = (eq_iff (join (s ∷ ss) ",") "").0 empty in
          absurd (full id m (one_text id (s ∷ ss) (ap (λ t. split t b',') (sym e) ∙ back) m))
      | inr some_text ↦ rw some_text back
    ]

no_comma :
    (ids : List String)
    → All (λ t. lacks b',' t ≡ true) ids
    → All (λ t. lacks b',' t ≡ true) (sort_strings ids)
no_comma ids h =
    All-of-Memᴰ (λ t. lacks b',' t ≡ true) (sort_strings ids)
      (λ t m. All-Memᴰ (λ t. lacks b',' t ≡ true) t ((Memᴰ-sort_strings ids).1 m) h)

-- The texts of a list that is empty or has nothing empty.
listed_sorted :
    (ids : List String)
    → All (λ t. lacks b',' t ≡ true) ids
    → ((t : String) → Memᴰ t ids → t ≢ "")
    → (id : String) → Memᴰ id (listed_apps (some (provisioned_text ids))) ↔ Memᴰ id ids
unfolding provisioned_text
listed_sorted [] h full id = unfold listed_apps sort_strings in (λ m. m, λ m. m)
listed_sorted (s ∷ ss) h full id =
    let ids = s ∷ ss in
    let first : Memᴰ s (sort_strings ids) = (Memᴰ-sort_strings ids).0 (Memᴰ.head refl) in
    let back =
      read_back (sort_strings ids) s (no_comma ids h) (λ t m. full t ((Memᴰ-sort_strings ids).1 m))
        first in
    (λ m. (Memᴰ-sort_strings ids).1 (rw back at m), λ m. rw back ((Memᴰ-sort_strings ids).0 m))

pub annotation_of :
    (service : BrokerService) (loop : Loop) (s : Provision)
    → lookup provisioned_apps_annotation (app_secret service loop s).annotations
      ≡ some (provisioned_text s.identities)
unfolding app_secret
annotation_of service loop s =
    let before = (secret_of service loop (app_properties_secret_name service.name)).annotations in
    lookup-insert provisioned_apps_annotation provisioned_apps_annotation
      (provisioned_text s.identities) before
    ∙ if_true (provisioned_apps_annotation == provisioned_apps_annotation)
        (some (provisioned_text s.identities)) (lookup provisioned_apps_annotation before)
        (eq_refl provisioned_apps_annotation)

identity_not_empty : (apps : List BrokerApp) (t : String) → Memᴰ t (map app_identity apps) → t ≢ ""
identity_not_empty [] t m = elim m [ ]
identity_not_empty (app ∷ apps) t (Memᴰ.head e) = λ q. app_identity-not_empty app (sym e ∙ q)
identity_not_empty (app ∷ apps) t (Memᴰ.tail m) = identity_not_empty apps t m

-- Identities without a comma come back from the annotation of the apps' secret: what is read of it are
-- the identities that were written, and no others.
pub listed_apps-app_secret :
    (service : BrokerService) (loop : Loop) (s : Provision) (apps : List BrokerApp)
    → s.identities ≡ map app_identity apps
    → All (λ t. lacks b',' t ≡ true) s.identities
    → (id : String)
    → Memᴰ id
        (listed_apps (lookup provisioned_apps_annotation (app_secret service loop s).annotations))
      ↔ Memᴰ id s.identities
listed_apps-app_secret service loop s apps e h id =
    rw (annotation_of service loop s)
      (listed_sorted s.identities h (λ t m. identity_not_empty apps t (rw e at m)) id)
