-- ===== src/Ports/Used.antt =====
-- What `collectUsedPorts` gathers.
use activemq_artemis_operato.Base.{
  ℕ, ◌≡◌, refl, Bool, false, not, ◌&&◌, ◌||◌, Option, none, some, List, [], ◌∷◌, arith, any, ◌=?◌,
  Bool-cases, inl, inr,
}
use activemq_artemis_operato.Api.{BrokerApp, BrokerServiceBindingStatus}
use activemq_artemis_operato.Ports.{
  has_port, is_excluded, add_assigned, collect_from, collect_used_ports, unassigned_port,
}

-- The port is assigned to the app.
abbrev pub holds_port : ℕ → Option BrokerServiceBindingStatus → Bool
holds_port p none = false
holds_port p (some s) = s.assigned_port =? p && not (s.assigned_port =? unassigned_port)

-- The app is not the excluded one and has the port.
abbrev pub uses_port : Option BrokerApp → ℕ → BrokerApp → Bool
uses_port exclude_app p app = not (is_excluded exclude_app app) && holds_port p app.status.service

add_assigned_lem :
    (p : ℕ) (s : Option BrokerServiceBindingStatus) (used : List ℕ)
    → has_port p (add_assigned s used) ≡ (holds_port p s || has_port p used)
unfolding has_port add_assigned
add_assigned_lem p none used = refl
add_assigned_lem p (some s) used = ground arith

has_port-collect_from :
    (p : ℕ) (apps : List BrokerApp) (ex : Option BrokerApp) (used : List ℕ)
    → has_port p (collect_from apps ex used) ≡ (any (uses_port ex p) apps || has_port p used)
unfolding collect_from
has_port-collect_from p [] ex used = refl
has_port-collect_from p (app ∷ apps) ex used = elim (Bool-cases (is_excluded ex app)) [
  | inl skipped ↦ rw skipped (has_port-collect_from p apps ex used)
  | inr counted ↦ rw counted (
      ground (
        arith,
        has_port-collect_from p apps ex (add_assigned app.status.service used),
        add_assigned_lem p app.status.service used,
      ))
]

-- A port counts as used exactly when some listed app, other than the excluded one, has it assigned.
pub has_port-collect_used_ports :
    (p : ℕ) (apps : List BrokerApp) (ex : Option BrokerApp)
    → has_port p (collect_used_ports apps ex) ≡ any (uses_port ex p) apps
unfolding collect_used_ports has_port
has_port-collect_used_ports p apps ex = ground (arith, has_port-collect_from p apps ex [])
