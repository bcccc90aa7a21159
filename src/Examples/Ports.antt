-- ===== src/Examples/Ports.antt =====
-- The assignment of ports, on examples.
use activemq_artemis_operato.Base.{ℕ, suc, ◌≡◌, refl, arith, [], ◌∷◌}
use activemq_artemis_operato.Errors.{ok}
use activemq_artemis_operato.Ports.{
  has_port, assign_from, assign_next_available_port, default_start_port, max_valid_port,
}
use activemq_artemis_operato.Ports.Assign.{IsLeastFree, assign_next_available_port-IsLeastFree}
use activemq_artemis_operato.Ports.Exhaust.{assign_next_available_port_total}

after_the_first : assign_next_available_port (61616 ∷ []) ≡ ok 61617
unfolding assign_next_available_port assign_from has_port
after_the_first = refl

assign_next_available_port-IsLeastFree_example :
    IsLeastFree default_start_port (suc max_valid_port) 61617 (61616 ∷ [])
assign_next_available_port-IsLeastFree_example =
    assign_next_available_port-IsLeastFree (61616 ∷ []) after_the_first

assign_next_available_port_total_example :
    (port : ℕ) × (assign_next_available_port (61616 ∷ 61617 ∷ []) ≡ ok port)
assign_next_available_port_total_example =
    assign_next_available_port_total (61616 ∷ 61617 ∷ []) (omega arith)
