-- ===== src/Ports/Assign.antt =====
-- The loop of `assignNextAvailablePort` finds the least free port.
use activemq_artemis_operato.Base.{
  ℕ, zero, suc, ◌+◌, ◌≤◌, ◌<◌, ◌≡◌, ap, sym, ◌∙◌, true, false, List, arith, inl, inr, Bool-cases,
  ◌=?◌, =?_iff,
}
use activemq_artemis_operato.Errors.{ok}
use activemq_artemis_operato.Ports.{
  has_port, assign_from, assign_next_available_port, default_start_port, max_valid_port,
  port_rounds,
}

-- The port is in a range and unused, and every port of the range below it is used.
pub record IsLeastFree (lo hi port : ℕ) (used : List ℕ) : Type 0 where
  pub above : lo ≤ port
  pub below : port < hi
  pub free : has_port port used ≡ false
  pub taken : (q : ℕ) → lo ≤ q → q < port → has_port q used ≡ true

taken_from :
    (lo q : ℕ) (used : List ℕ)
    → has_port lo used ≡ true
    → (suc lo ≤ q → has_port q used ≡ true)
    → lo ≤ q
    → has_port q used ≡ true
taken_from lo q used busy rest l = elim (Bool-cases (lo =? q)) [
  | inl e ↦ ap (λ (p : ℕ). has_port p used) (sym ((=?_iff lo q).0 e)) ∙ busy
  | inr ne ↦ rest (ground arith)
]

assign_from-IsLeastFree :
    (n lo : ℕ) (used : List ℕ) {port : ℕ}
    → assign_from n lo used ≡ ok port
    → IsLeastFree lo (lo + n) port used
unfolding assign_from
assign_from-IsLeastFree zero lo used h = ground arith
assign_from-IsLeastFree (suc n) lo used {port} h = elim (Bool-cases (has_port lo used)) [
  | inl busy ↦
      let r = assign_from-IsLeastFree n (suc lo) used (rw busy at h) in
      record {
        above = omega (arith, r.above);
        below = omega (arith, r.below);
        free = r.free;
        taken = λ q l u. taken_from lo q used busy (λ m. r.taken q m u) l;
      }
  | inr free ↦
      let e : lo ≡ port = ground arith in
      record {
        above = omega (arith, e);
        below = omega (arith, e);
        free = ap (λ (p : ℕ). has_port p used) (sym e) ∙ free;
        taken = λ q l u. absurd (omega (arith, e, l, u));
      }
]

-- A port that is assigned lies in the range from `DefaultStartPort` to `MaxValidPort`, is not used,
-- and every port of the range below it is used.
pub assign_next_available_port-IsLeastFree :
    (used : List ℕ) {port : ℕ}
    → assign_next_available_port used ≡ ok port
    → IsLeastFree default_start_port (suc max_valid_port) port used
unfolding assign_next_available_port
assign_next_available_port-IsLeastFree used h =
    assign_from-IsLeastFree port_rounds default_start_port used h
