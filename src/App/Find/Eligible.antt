-- ===== src/App/Find/Eligible.antt =====
-- What a round of the loop of `findServiceWithCapacity` asks of a service.
use activemq_artemis_operato.Base.{
  ℕ, String, ◌≡◌, refl, ap, ◌∙◌, true, Bool, false, Option, none, some, List, ◌↔◌, arith, ℤ, ltb_ℤ,
}
use mathlib.Core.Path.{subst}
use activemq_artemis_operato.Errors.{Error, Result, ok, err}
use activemq_artemis_operato.Api.{
  Quantity, Condition, BrokerApp, BrokerService, deployed_condition_type,
}
use activemq_artemis_operato.Cluster.{Cluster, ConditionOps}
use activemq_artemis_operato.Ports.{assign_next_available_port, collect_used_ports}
use activemq_artemis_operato.App.Capacity.{
  RejectionCategory, address_ref, address_clash, other, port_pool,
}
use activemq_artemis_operato.App.Checks.{
  matches_service_selector, list_other_apps_for_service, get_available_memory,
  check_address_clash_on_service, check_address_ref_capacity,
}
use activemq_artemis_operato.App.Find.{
  Attempt, passed, rejected, ◌>>=◌, ◌>>◌, holds, check_deployed, check_selector, check_no_error,
  check_value, check_memory, try_service,
}

abbrev pub FitsMemory : Option Quantity → ℤ → Type 0
FitsMemory none available = Unit
FitsMemory (some request) available = ltb_ℤ available request.value ≡ false

-- The service is deployed, selects the app, meets its references, clashes with none of its
-- addresses, has the memory left and the port free.
pub record Offers (k : Cluster) (c : ConditionOps) (app : BrokerApp) (service : BrokerService)
    (available : ℤ) (port : ℕ) : Type 0 where
  pub deployed :
      holds (c.find_status_condition service.status.conditions deployed_condition_type) ≡ true
  pub selected : matches_service_selector k app service ≡ ok true
  pub satisfied : check_address_ref_capacity k app service ≡ none
  pub apart : check_address_clash_on_service k app service ≡ none
  pub memory : get_available_memory k app service ≡ ok available
  pub fits : FitsMemory app.spec.resources.requests_memory available
  pub apps : List BrokerApp
  pub listed : list_other_apps_for_service k app service ≡ ok apps
  pub free : assign_next_available_port (collect_used_ports apps (some app)) ≡ ok port

pub >>=-eq-passed {ℓ κ} :
    {A : Type ℓ} {B : Type κ} (m : Attempt A) (f : A → Attempt B) {b : B}
    → (m >>= f) ≡ passed b
    → (a : A) × (m ≡ passed a) × (f a ≡ passed b)
>>=-eq-passed (passed a) f h = (a, refl, h)
>>=-eq-passed (rejected r) f h = cc

>>-eq-passed {ℓ} :
    {B : Type ℓ} (m : Attempt (Unit {0})) (n : Attempt B) {b : B}
    → (m >> n) ≡ passed b
    → (m ≡ passed tt) × (n ≡ passed b)
>>-eq-passed (passed u) n h = (refl, h)
>>-eq-passed (rejected r) n h = cc

module _ (service : BrokerService) where
  check_deployed-passed :
      (d : Option Condition) → check_deployed service d ≡ passed tt → holds d ≡ true
  unfolding check_deployed
  check_deployed-passed d h = ground arith

  check_selector-passed : (r : Result Bool) → check_selector service r ≡ passed tt → r ≡ ok true
  unfolding check_selector
  check_selector-passed (ok true) h = refl
  check_selector-passed (ok false) h = cc
  check_selector-passed (err e) h = cc

  check_no_error-passed :
      (c : RejectionCategory) (e : Option Error) → check_no_error service c e ≡ passed tt → e ≡ none
  unfolding check_no_error
  check_no_error-passed c none h = refl
  check_no_error-passed c (some e) h = cc

  check_value-passed {ℓ} :
      {A : Type ℓ} (c : RejectionCategory) (s : String) (r : Result A) {a : A}
      → check_value service c s r ≡ passed a
      → r ≡ ok a
  unfolding check_value
  check_value-passed c s (ok b) h = ground arith
  check_value-passed c s (err e) h = cc

  check_memory-passed :
      (q : Option Quantity) (v : ℤ) → check_memory service q v ≡ passed tt → FitsMemory q v
  unfolding check_memory
  check_memory-passed none v h = tt
  check_memory-passed (some q) v h = ground arith

  FitsMemory-check_memory :
      (q : Option Quantity) (v : ℤ) → FitsMemory q v → check_memory service q v ≡ passed tt
  unfolding check_memory
  FitsMemory-check_memory none v h = refl
  FitsMemory-check_memory (some q) v h = rw h

module _ (k : Cluster) (c : ConditionOps) (app : BrokerApp) (service : BrokerService)
    (available : ℤ) (port : ℕ) where
  Offers-try_service :
      Offers k c app service available port → try_service k c app service ≡ passed (available, port)
  unfolding try_service check_deployed check_selector check_no_error check_value
  Offers-try_service o =
      rw (o.deployed, o.selected, o.satisfied, o.apart, o.memory)
        (rw (FitsMemory-check_memory service app.spec.resources.requests_memory available o.fits)
          (rw (o.listed, o.free) refl))

  try_service-passed :
      try_service k c app service ≡ passed (available, port) → Offers k c app service available port
  unfolding try_service
  try_service-passed h =
      let (deployed, h₁) = >>-eq-passed (check_deployed service _) _ h in
      let (selected, h₂) = >>-eq-passed (check_selector service _) _ h₁ in
      let (satisfied, h₃) = >>-eq-passed (check_no_error service address_ref _) _ h₂ in
      let (apart, h₄) = >>-eq-passed (check_no_error service address_clash _) _ h₃ in
      let (v, memory, h₅) = >>=-eq-passed (check_value service other _ _) _ h₄ in
      let (fits, h₆) = >>-eq-passed (check_memory service _ v) _ h₅ in
      let (apps, listed, h₇) = >>=-eq-passed (check_value service other _ _) _ h₆ in
      let (p, free, h₈) = >>=-eq-passed (check_value service port_pool _ _) _ h₇ in
      let same : (v ≡ available) × (p ≡ port) = ground arith in
      record {
        deployed = check_deployed-passed service _ deployed;
        selected = check_selector-passed service _ selected;
        satisfied = check_no_error-passed service address_ref _ satisfied;
        apart = check_no_error-passed service address_clash _ apart;
        memory = check_value-passed service other _ _ memory ∙ ap ok same.0;
        fits =
            subst (FitsMemory app.spec.resources.requests_memory) same.0
              (check_memory-passed service _ v fits);
        apps = apps;
        listed = check_value-passed service other _ _ listed;
        free = check_value-passed service port_pool _ _ free ∙ ap ok same.1;
      }

-- A round passes with an amount of memory and a port exactly when the service offers them: it is
-- deployed, its selector matches, the references are satisfied on it, no address clashes, the memory
-- is what it has left and covers the request, and the port is the next that no other app uses.
pub try_service_iff :
    (k : Cluster) (c : ConditionOps) (app : BrokerApp) (service : BrokerService) (available : ℤ)
    (port : ℕ)
    → (try_service k c app service ≡ passed (available, port))
      ↔ Offers k c app service available port
try_service_iff k c app service available port = (
  try_service-passed k c app service available port,
  Offers-try_service k c app service available port,
)
