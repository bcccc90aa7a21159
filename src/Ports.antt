-- ===== src/Ports.antt =====
-- controllers/port_assignment.go: the port of an app on its service. A port is an int32 that is
-- never negative; the loop's counter stays below 65537, so it does not wrap.
pub mod Assign
pub mod Used
pub mod Exhaust
use activemq_artemis_operato.Base.{
  ℕ, zero, suc, Bool, false, ◌&&◌, ◌||◌, Option, none, some, List, [], ◌∷◌, ◌=?◌, ◌==◌, concat,
  decimal, if◌then◌else◌,
}
use activemq_artemis_operato.Errors.{Error, Result, ok, err, plain}
use activemq_artemis_operato.Api.{BrokerApp, BrokerServiceBindingStatus}

abbrev pub unassigned_port : ℕ
unassigned_port = 0

abbrev pub default_start_port : ℕ
default_start_port = 61616

abbrev pub max_valid_port : ℕ
max_valid_port = 65535

-- `usedPorts[port]` of a `map[int32]bool`, the list of its keys.
unfoldable pub has_port : ℕ → List ℕ → Bool
has_port p [] = false
has_port p (q ∷ used) = q =? p || has_port p used

abbrev pub all_ports_exhausted : Error
all_ports_exhausted = plain (
    concat (
      "all ports exhausted: range ["
      ∷ decimal default_start_port
      ∷ "-"
      ∷ decimal max_valid_port
      ∷ "] fully allocated"
      ∷ []))

-- The loop from `port`, with the rounds that are left up to `max_valid_port`.
unfoldable pub assign_from : ℕ → ℕ → List ℕ → Result ℕ
unfolding has_port
assign_from zero port used = err all_ports_exhausted
assign_from (suc rounds) port used =
    let next = assign_from rounds (suc port) used in if has_port port used then next else ok port

-- The ports from `default_start_port` up to `max_valid_port`.
abbrev pub port_rounds : ℕ
port_rounds = 3920

unfoldable pub assign_next_available_port : List ℕ → Result ℕ
unfolding assign_from
assign_next_available_port used = assign_from port_rounds default_start_port used

-- `app.Namespace == other.Namespace && app.Name == other.Name`.
unfoldable pub same_app : BrokerApp → BrokerApp → Bool
same_app app other = app.namespace == other.namespace && app.name == other.name

-- `excludeApp != nil && …`.
unfoldable pub is_excluded : Option BrokerApp → BrokerApp → Bool
unfolding same_app
is_excluded none app = false
is_excluded (some excluded) app = same_app app excluded

unfoldable pub add_assigned : Option BrokerServiceBindingStatus → List ℕ → List ℕ
add_assigned none used = used
add_assigned (some s) used =
    if s.assigned_port =? unassigned_port then used else s.assigned_port ∷ used

-- The loop, from the ports that were found before.
unfoldable pub collect_from : List BrokerApp → Option BrokerApp → List ℕ → List ℕ
collect_from [] exclude_app used = used
collect_from (app ∷ apps) exclude_app used =
    collect_from apps exclude_app
      (if is_excluded exclude_app app then used else add_assigned app.status.service used)

unfoldable pub collect_used_ports : List BrokerApp → Option BrokerApp → List ℕ
unfolding collect_from is_excluded add_assigned same_app
collect_used_ports apps exclude_app = collect_from apps exclude_app []
