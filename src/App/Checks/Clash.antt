-- ===== src/App/Checks/Clash.antt =====
-- When `checkAddressClashOnService` lets an app onto a service.
use activemq_artemis_operato.Base.{
  String, ◌≡◌, refl, Bool, true, false, none, some, List, [], ◌∷◌, ◌↔◌, arith, All, All-Memᴰ,
  All-of-Memᴰ, has, Memᴰ-has, has-Memᴰ, is_empty, if◌then◌else◌,
}
use mathlib.Core.Path.{fun_ext, subst}
use activemq_artemis_operato.Errors.{ok, list_error-none, All-list_error}
use activemq_artemis_operato.Api.{BrokerApp, BrokerService}
use activemq_artemis_operato.Cluster.{Cluster}
use activemq_artemis_operato.App.Address.{collect_owned_addresses}
use activemq_artemis_operato.App.Address.Owned.{owns, has-collect_owned_addresses}
use activemq_artemis_operato.App.Checks.{
  list_other_apps_for_service, clash_with, clash_message, clashes_of,
  check_address_clash_on_service,
}

-- No address is owned by both.
abbrev pub OwnsApart : BrokerApp → BrokerApp → Type 0
OwnsApart app other = (a : String) → owns app a ≡ true → owns other a ≡ false

abbrev Apart : List String → BrokerApp → Type 0
Apart mine other = (a : String) → has a mine ≡ true → owns other a ≡ false

clash_step_iff :
    (other : BrokerApp) (addr : String)
    → ((if has addr (collect_owned_addresses other) then some (clash_message other addr) else none)
        ≡ none)
      ↔ (owns other addr ≡ false)
clash_step_iff other addr = rw has-collect_owned_addresses (λ h. ground arith, λ h. rw h)

clash_with_iff :
    (mine : List String) (other : BrokerApp) → (clash_with mine other ≡ none) ↔ Apart mine other
unfolding clash_with
clash_with_iff mine other =
    let free = λ (a : String). owns other a ≡ false in
    (
      λ h a owned.
          All-Memᴰ free a (has-Memᴰ a mine owned)
            (list_error-none _ free (λ _ a. (clash_step_iff other a).0) 0 mine h),
      λ apart.
          All-list_error _ free (λ _ a. (clash_step_iff other a).1) 0 mine
            (All-of-Memᴰ free mine (λ a i. apart a (Memᴰ-has i))),
    )

Apart-nil : (other : BrokerApp) → Apart [] other
unfolding has
Apart-nil other a h = cc

clashes_iff :
    (mine : List String) (apps : List BrokerApp)
    → ((if is_empty mine then none else clashes_of mine (ok apps)) ≡ none) ↔ All (Apart mine) apps
clashes_iff [] apps = (λ _. All-of-Memᴰ (Apart []) apps (λ other _. Apart-nil other), λ _. refl)
clashes_iff (a ∷ mine) apps = (
  list_error-none (λ _. clash_with (a ∷ mine)) (Apart (a ∷ mine))
      (λ _ other. (clash_with_iff (a ∷ mine) other).0) 0 apps,
  All-list_error (λ _. clash_with (a ∷ mine)) (Apart (a ∷ mine))
      (λ _ other. (clash_with_iff (a ∷ mine) other).1) 0 apps,
)

-- Where the apps bound to a service can be listed, an app clashes with none of them exactly when no
-- address that it owns is owned by another app of the list.
pub check_address_clash_on_service_iff :
    (k : Cluster) (instance : BrokerApp) (service : BrokerService) (apps : List BrokerApp)
    → list_other_apps_for_service k instance service ≡ ok apps
    → (check_address_clash_on_service k instance service ≡ none) ↔ All (OwnsApart instance) apps
unfolding check_address_clash_on_service
check_address_clash_on_service_iff k instance service apps listed = rw listed (
    subst
      (λ (mine : String → Bool).
        ((if is_empty (collect_owned_addresses instance)
            then none
            else clashes_of (collect_owned_addresses instance) (ok apps))
          ≡ none)
        ↔ All (λ (other : BrokerApp). (a : String) → mine a ≡ true → owns other a ≡ false) apps)
      (fun_ext (has-collect_owned_addresses instance))
      (clashes_iff (collect_owned_addresses instance) apps))
