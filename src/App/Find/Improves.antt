-- ===== src/App/Find/Improves.antt =====
-- What the loop of `findServiceWithCapacity` keeps: the best service so far, with an offer of the most
-- memory of the services that it passed.
use activemq_artemis_operato.Base.{
  ℕ, ◌≡◌, refl, sym, ◌∙◌, some, List, [], ◌∷◌, arith, ℤ, ◌≤ℤ◌, ltb_ℤ, ◌⊎◌, inl, inr, Bool-cases,
  Memᴰ, All,
}
use mathlib.Core.Path.{subst}
use activemq_artemis_operato.Api.{BrokerApp, BrokerService}
use activemq_artemis_operato.Cluster.{Cluster, ConditionOps}
use activemq_artemis_operato.App.Find.{
  Attempt, passed, rejected, try_service, Search, consider, search_services,
}
use activemq_artemis_operato.App.Find.Eligible.{Offers, try_service_iff}

-- No offer of the service passes an amount of memory.
abbrev pub OffersAtMost : Cluster → ConditionOps → BrokerApp → ℤ → BrokerService → Type 0
OffersAtMost k c app most service =
    (available : ℤ) (port : ℕ) → Offers k c app service available port → available ≤ℤ most

≤ℤ_trans : (a b d : ℤ) → a ≤ℤ b → b ≤ℤ d → a ≤ℤ d
≤ℤ_trans a b d h k = omega arith

module _ (k : Cluster) (c : ConditionOps) (app : BrokerApp) where
  -- The best service comes from before, or from these services with an offer.
  abbrev pub Origin : List BrokerService → Search → Search → Type 0
  Origin services s r =
      ((r.best_service ≡ s.best_service)
        × (r.max_available ≡ s.max_available)
        × (r.best_service_port ≡ s.best_service_port))
      ⊎ ((b : BrokerService) × (r.best_service ≡ some b)
          × Memᴰ b services
          × Offers k c app b r.max_available r.best_service_port)

  pub record Improves (services : List BrokerService) (s r : Search) : Type 0 where
    pub grows : s.max_available ≤ℤ r.max_available
    pub covers : All (OffersAtMost k c app r.max_available) services
    pub origin : Origin services s r

  -- What a round passes is all that the service offers.
  the_offer :
      (x : BrokerService) (v : ℤ) (p : ℕ)
      → try_service k c app x ≡ passed (v, p)
      → (v' : ℤ) (p' : ℕ) → Offers k c app x v' p'
      → v' ≤ℤ v
  the_offer x v p e v' p' o =
      let h = (try_service_iff k c app x v' p').1 o in
      let same : v' ≡ v = ground arith in subst (λ (a : ℤ). v' ≤ℤ a) same (omega arith)

  consider-Improves :
      (x : BrokerService) (a : Attempt (ℤ × ℕ)) (s : Search)
      → try_service k c app x ≡ a
      → Improves (x ∷ []) s (consider x a s)
  unfolding consider
  consider-Improves x (rejected r) s e = record {
    grows = omega arith;
    covers = (λ v p o. let h = (try_service_iff k c app x v p).1 o in cc, tt);
    origin = inl (refl, refl, refl);
  }
  consider-Improves x (passed (v, p)) s e = elim (Bool-cases (ltb_ℤ s.max_available v)) [
    | inl better ↦ rw better (record {
      grows = ground arith;
      covers = (λ v' p' o. the_offer x v p e v' p' o, tt);
      origin = inr (x, refl, Memᴰ.head refl, (try_service_iff k c app x v p).0 e);
    })
    | inr worse ↦ rw worse (record {
      grows = omega arith;
      covers =
          (λ v' p' o. ≤ℤ_trans v' v s.max_available (the_offer x v p e v' p' o) (ground arith), tt);
      origin = inl (refl, refl, refl);
    })
  ]

  in_first :
      {b x : BrokerService} {services : List BrokerService}
      → Memᴰ b (x ∷ [])
      → Memᴰ b (x ∷ services)
  in_first (Memᴰ.head e) = Memᴰ.head e
  in_first (Memᴰ.tail m) = elim m [ ]

  moved :
      (b : BrokerService) {v w : ℤ} {p q : ℕ}
      → v ≡ w
      → p ≡ q
      → Offers k c app b w q
      → Offers k c app b v p
  moved b {v} {w} {p} {q} a h o =
      subst (λ z. Offers k c app b z p) (sym a) (subst (λ z. Offers k c app b w z) (sym h) o)

  Improves-trans :
      (x : BrokerService) (services : List BrokerService) (s t r : Search)
      → Improves (x ∷ []) s t
      → Improves services t r
      → Improves (x ∷ services) s r
  Improves-trans x services s t r first rest = record {
    grows = ≤ℤ_trans s.max_available t.max_available r.max_available first.grows rest.grows;
    covers = (
      λ v p o. ≤ℤ_trans v t.max_available r.max_available (first.covers.0 v p o) rest.grows,
      rest.covers,
    );
    origin = elim rest.origin [
      | inl (same, amount, port) ↦ elim first.origin [
        | inl (same', amount', port') ↦ inl (same ∙ same', amount ∙ amount', port ∙ port')
        | inr (b, best, mem, offers) ↦
            inr (b, same ∙ best, in_first mem, moved b amount port offers)
      ]
      | inr (b, best, mem, offers) ↦ inr (b, best, Memᴰ.tail mem, offers)
    ];
  }

  pub search_services-Improves :
      (services : List BrokerService) (s : Search)
      → Improves services s (search_services k c app services s)
  unfolding search_services
  search_services-Improves [] s = record {
    grows = omega arith;
    covers = tt;
    origin = inl (refl, refl, refl);
  }
  search_services-Improves (x ∷ services) s =
      let t = consider x (try_service k c app x) s in
      Improves-trans x services s t (search_services k c app services t)
        (consider-Improves x (try_service k c app x) s refl) (search_services-Improves services t)
