-- ===== src/Examples/Inputs.antt =====
-- The input capability of a message at time 3, and the connectivity of an operator whose output 1
-- is two steps behind.
use timely_dataflow.Prelude.{
  ℕ, ◌≡◌, ◌⊎◌, not, ◌&&◌, [], ◌∷◌, none, some, if◌then◌else◌, ◌==◌, is_nil, add_i64, arith,
}
use timely_dataflow.Order.Numbers.{nat_eq, nat_partial, nat_ord}
use timely_dataflow.Timestamp.{add_summary}
use timely_dataflow.ChangeBatch
use timely_dataflow.ChangeBatch.Count.{count}
use timely_dataflow.Antichain.{Antichain}
use timely_dataflow.Antichain
use timely_dataflow.Connectivity.{PortConnectivity, get, insert, add_port, or_default}
use timely_dataflow.Connectivity.Ports.{insert_port_correct, add_port_correct}
use timely_dataflow.Capability.{Capability, Store}
use timely_dataflow.Capability.Balance.{Conserves, amount, held}
use timely_dataflow.Capability.Input.{
  InputCapability, Refused, IsAllowed, delayed_for_output, retain_for_output,
  delayed_for_output_correct, retain_for_output_correct,
}

abbrev idle : Store ℕ
idle i = ChangeBatch.new

abbrev behind : PortConnectivity ℕ
behind = record {
  tree = (0, record { elements = 0 ∷ [] }) ∷ (1, record { elements = 2 ∷ [] }) ∷ [];
}

abbrev message : InputCapability ℕ ℕ
message = record {
  internal = 10 ∷ 11 ∷ [];
  summaries = behind;
  time = 3;
  consumed = 20;
  record_count = 6;
}

insert_port_correct_example :
    let (c', added) = insert behind 1 1 in
    let (antichain, grown) = Antichain.insert (or_default Antichain.new (get behind 1)) 1 in
    (get c' 1 ≡ (if 1 == 1 then some antichain else get behind 1)) × (added ≡ grown)
insert_port_correct_example = insert_port_correct behind 1 1 1

abbrev step : Antichain ℕ
step = record { elements = 1 ∷ [] }

add_port_correct_example :
    ((prior : Antichain ℕ) × (get behind 2 ≡ some prior) × (add_port behind 2 step ≡ none))
    ⊎ ((get behind 2 ≡ none)
        × (c' : PortConnectivity ℕ) × (add_port behind 2 step ≡ some c')
        × ((query : ℕ)
            → get c' query
              ≡ (if not (is_nil step.elements) && 2 == query then some step else get behind query)))
add_port_correct_example = add_port_correct behind 2 step

delayed_for_output_correct_example :
    ((delayed_for_output (add_summary 256) idle message 5 1 ≡ none)
      × Refused (add_summary 256) message 5 1)
    ⊎ ((s' : Store ℕ) × (made : Capability ℕ) × (delayed_for_output
            (add_summary 256)
            idle
            message
            5
            1
          ≡ some (s', made))
        × IsAllowed (add_summary 256) message 5 1 made
        × Conserves idle [] s' (made ∷ []))
delayed_for_output_correct_example =
    delayed_for_output_correct (add_summary 256) idle message 5 1 []

retain_for_output_correct_example :
    ((retain_for_output (add_summary 256) idle message 0 ≡ none)
      × Refused (add_summary 256) message 3 0)
    ⊎ ((s' : Store ℕ) × (made : Capability ℕ) × (retain_for_output (add_summary 256) idle message 0
          ≡ some (s', made))
        × IsAllowed (add_summary 256) message 3 0 made
        × ((i : ℕ) (k : ℕ)
            → add_i64 (count k (s' i).updates) (held i k [])
              ≡ add_i64
                  (add_i64 (count k (idle i).updates) (held i k (made ∷ [])))
                  (amount i k (record { time = 3; internal = 20 }) 6)))
retain_for_output_correct_example =
    retain_for_output_correct (add_summary 256) idle message 0 [] (omega arith)
