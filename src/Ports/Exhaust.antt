-- ===== src/Ports/Exhaust.antt =====
-- Ports run out only when the whole range is used, and so not on a service with fewer apps than the
-- range has ports.
use activemq_artemis_operato.Base.{
  ℕ, zero, suc, ◌-◌, ◌≤◌, ◌<◌, ◌≡◌, ◌≢◌, refl, true, List, [], ◌∷◌, arith, inl, inr, ◌=?◌, length,
  if◌then◌else◌,
}
use activemq_artemis_operato.Errors.{Error, ok, err, Result-cases}
use activemq_artemis_operato.Ports.{
  has_port, assign_from, assign_next_available_port, default_start_port, max_valid_port,
  port_rounds,
}

-- A list of ports with one port taken out, wherever it stands.
without : ℕ → List ℕ → List ℕ
without p [] = []
without p (q ∷ used) = if q =? p then without p used else q ∷ without p used

length-without_le : (p : ℕ) (used : List ℕ) → length (without p used) ≤ length used
unfolding without
length-without_le p [] = omega arith
length-without_le p (q ∷ used) = ground (arith, length-without_le p used)

length-without :
    (p : ℕ) (used : List ℕ) → has_port p used ≡ true → length (without p used) < length used
unfolding without has_port
length-without p [] h = ground arith
length-without p (q ∷ used) h = ground (arith, length-without p used, length-without_le p used)

has_port-without : (p q : ℕ) (used : List ℕ) → p ≢ q → has_port q (without p used) ≡ has_port q used
unfolding without has_port
has_port-without p q [] ne = refl
has_port-without p q (r ∷ used) ne = ground (arith, has_port-without p q used ne)

-- The loop reads only the ports from its counter on.
assign_from-without :
    (n lo p : ℕ) (used : List ℕ)
    → p < lo
    → assign_from n lo (without p used) ≡ assign_from n lo used
unfolding assign_from
assign_from-without zero lo p used h = refl
assign_from-without (suc n) lo p used h = ground (
  arith,
  has_port-without p lo used (λ e. omega (arith, e)),
  assign_from-without n (suc lo) p used (omega arith),
)

-- Where the loop fails, the used ports are at least as many as its rounds.
assign_from-err :
    (n lo : ℕ) (used : List ℕ) {e : Error} → assign_from n lo used ≡ err e → n ≤ length used
unfolding assign_from
assign_from-err zero lo used h = omega arith
assign_from-err (suc n) lo used {e} h = ground (
  arith,
  length-without lo used,
  assign_from-err n (suc lo) (without lo used) {e = e},
  assign_from-without n (suc lo) lo used,
)

-- While fewer ports are used than the range from `DefaultStartPort` to `MaxValidPort` has, a port is
-- assigned.
pub assign_next_available_port_total :
    (used : List ℕ)
    → length used < suc max_valid_port - default_start_port
    → (port : ℕ) × (assign_next_available_port used ≡ ok port)
unfolding assign_next_available_port
assign_next_available_port_total used h =
    elim (Result-cases (assign_from port_rounds default_start_port used)) [
      | inl found ↦ found
      | inr failed ↦
          absurd (omega (arith, assign_from-err port_rounds default_start_port used failed.1))
    ]
