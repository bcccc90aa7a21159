-- ===== src/App/Status/Identity.antt =====
-- How far `AppIdentity` tells apps apart.
use activemq_artemis_operato.Base.{String, ◌≡◌, sym, ap, ◌∙◌, any, concat, ◌∷◌, [], ◌==◌}
use text.Mathlib.TextLemmas.{append-nil, append_assoc}
use activemq_artemis_operato.Api.{BrokerApp, BrokerService}
use activemq_artemis_operato.App.Status.{app_identity, is_provisioned}

-- A dash after the namespace, or after a part of the name.
same_identity :
    (a b c : String)
    → concat (a ∷ "-" ∷ concat (b ∷ "-" ∷ c ∷ []) ∷ [])
      ≡ concat (concat (a ∷ "-" ∷ b ∷ []) ∷ "-" ∷ c ∷ [])
same_identity a b c = simp (append_assoc, append-nil)

-- Two apps of different namespaces can have one identity, as the dash between the namespace and the
-- name may stand in both: where a service lists one of them as provisioned, it lists the other too.
pub is_provisioned_collides :
    (a b c : String) (first second : BrokerApp) (service : BrokerService)
    → first.namespace ≡ a
    → first.name ≡ concat (b ∷ "-" ∷ c ∷ [])
    → second.namespace ≡ concat (a ∷ "-" ∷ b ∷ [])
    → second.name ≡ c
    → is_provisioned first service ≡ is_provisioned second service
unfolding is_provisioned app_identity
is_provisioned_collides a b c first second service h₁ h₂ h₃ h₄ =
    ap (λ i. any (λ (applied : String). applied == i) service.status.provisioned_apps)
      (ap (λ n. concat (n ∷ "-" ∷ first.name ∷ [])) h₁
        ∙ ap (λ n. concat (a ∷ "-" ∷ n ∷ [])) h₂
        ∙ same_identity a b c
        ∙ ap (λ n. concat (n ∷ "-" ∷ c ∷ [])) (sym h₃)
        ∙ ap (λ n. concat (second.namespace ∷ "-" ∷ n ∷ [])) (sym h₄))
