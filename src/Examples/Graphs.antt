-- ===== src/Examples/Graphs.antt =====
-- Witnesses for the tracker, on a graph of the scope and one operator: the scope's input leads to the
-- operator, which adds one to each time, and its output to the scope's output.
use timely_dataflow.Prelude.{
  ℕ, zero, suc, ◌≡◌, refl, subst, true, arith, List, [], ◌∷◌, Option, All, map, ◌++◌, none, some,
  add_i64, word,
}
use mathlib.Core.Option.{some-injective}
use timely_dataflow.Order.Numbers.{nat_eq, nat_partial, nat_ord}
use timely_dataflow.Location.{
  Port, Location, Target, new_target, new_source, from_target, from_source,
}
use timely_dataflow.Location.Port.{target, source}
use timely_dataflow.ChangeBatch.{ChangeBatch}
use timely_dataflow.ChangeBatch
use timely_dataflow.ChangeBatch.Count.{count}
use timely_dataflow.ChangeBatch.Additive.{sum_by}
use timely_dataflow.MutableAntichain.{new}
use timely_dataflow.MutableAntichain.{MutableAntichain}
use timely_dataflow.MutableAntichain
use timely_dataflow.MutableAntichain.Loop.{each}
use timely_dataflow.Reachability.Settled.{propagate_all-settled}
use timely_dataflow.Order.{less_than}
use timely_dataflow.Sort.{sort_by, insert_by}
use timely_dataflow.Connectivity.{PortConnectivity, default}
use timely_dataflow.Timestamp.{add_summary, checked_add}
use timely_dataflow.Reachability.{PortInformation, Tracker, Inner, port_at, new_port, update_target}
use timely_dataflow.Reachability.Propagate.{
  propagate_all, absorb_targets, absorb_sources, absorb_all, absorb, announce, project, put_port,
  groups, join, circulate, round, accumulate, spread, push_all, consequences, crossing,
}
use timely_dataflow.Reachability.Balance.{
  IsDrained, has_port, implied, stamped, active, inflow, IsShaped, IsBalanced,
}
use timely_dataflow.Reachability.Announce.{Ends}
use timely_dataflow.Reachability.Ports.{sum_ports, sum_operator}
use timely_dataflow.Reachability.Spread.{LeadsTo}
use timely_dataflow.Reachability.Correct.{IsBuffer, IsPropagated, propagate_all_correct}

abbrev leading_to : ℕ → PortConnectivity ℕ
leading_to summary = record { tree = (0, record { elements = summary ∷ [] }) ∷ [] }

abbrev port_with : ℕ → PortInformation ℕ ℕ
port_with summary = record new_port { output_summaries = leading_to summary }

abbrev inner_graph : List (Inner ℕ)
inner_graph = (record { tree = [] } ∷ []) ∷ (leading_to 1 ∷ []) ∷ []

abbrev outer_graph : List (List (List Target))
outer_graph =
    ((record { node = 1; port = 0 } ∷ []) ∷ []) ∷ ((record { node = 0; port = 0 } ∷ []) ∷ []) ∷ []

abbrev fresh_tracker : Tracker ℕ ℕ
fresh_tracker = record {
  nodes = inner_graph;
  edges = outer_graph;
  per_operator =
      record { targets = new_port ∷ []; sources = new_port ∷ [] }
      ∷ record { targets = port_with 1 ∷ []; sources = port_with 0 ∷ [] }
      ∷ [];
  target_changes = ChangeBatch.new;
  source_changes = ChangeBatch.new;
  worklist = [];
  pushed_changes = ChangeBatch.new;
  output_changes = ChangeBatch.new ∷ [];
  total_counts = 0;
}

-- A message at time 3 arrives at the operator.
abbrev told_tracker : Tracker ℕ ℕ
told_tracker = update_target fresh_tracker (record { node = 1; port = 0 }) 3 1

one_step :
    (o : Option ℕ)
    → All
        (λ (k : ℕ × Location). has_port told_tracker.per_operator k.1 ≡ true)
        (map (λ u. (u, new_source 1 0)) (elim o [ none ↦ [] | some u ↦ u ∷ [] ]) ++ [])
unfolding has_port update_target new_port port_at
one_step none = tt
one_step (some u) = (refl, tt)

told_tracker-leads :
    (node : ℕ) (port : Port)
    → has_port told_tracker.per_operator (record { node = node; port = port }) ≡ true
    → LeadsTo
        (add_summary word)
        told_tracker.nodes
        told_tracker.edges
        (λ m. has_port told_tracker.per_operator m ≡ true)
        (record { node = node; port = port })
unfolding has_port update_target new_port consequences port_at default
told_tracker-leads zero (target zero) h t = ([], refl, tt)
told_tracker-leads zero (source zero) h t = ((t, new_target 1 0) ∷ [], refl, (refl, tt))
told_tracker-leads (suc zero) (target zero) h t =
    (crossing (add_summary word) 1 (leading_to 1).tree t, refl, one_step (checked_add word 1 t))
told_tracker-leads (suc zero) (source zero) h t = ((t, new_target 0 0) ∷ [], refl, (refl, tt))
told_tracker-leads zero (target (suc i)) h t = cc
told_tracker-leads zero (source (suc i)) h t = cc
told_tracker-leads (suc zero) (target (suc i)) h t = cc
told_tracker-leads (suc zero) (source (suc i)) h t = cc
told_tracker-leads (suc (suc n)) port h t = cc

-- What holds at the three kinds of port holds at every port.
told_tracker-All :
    (Q : PortInformation ℕ ℕ → Type 0)
    → Q new_port
    → Q (port_with 1)
    → Q (port_with 0)
    → (node : ℕ) (port : Port) (info : PortInformation ℕ ℕ)
    → port_at told_tracker.per_operator (record { node = node; port = port }) ≡ some info
    → Q info
unfolding update_target port_at
told_tracker-All Q a b c zero (target zero) info h = subst Q (some-injective _ _ h) a
told_tracker-All Q a b c zero (source zero) info h = subst Q (some-injective _ _ h) a
told_tracker-All Q a b c (suc zero) (target zero) info h = subst Q (some-injective _ _ h) b
told_tracker-All Q a b c (suc zero) (source zero) info h = subst Q (some-injective _ _ h) c
told_tracker-All Q a b c zero (target (suc i)) info h = cc
told_tracker-All Q a b c zero (source (suc i)) info h = cc
told_tracker-All Q a b c (suc zero) (target (suc i)) info h = cc
told_tracker-All Q a b c (suc zero) (source (suc i)) info h = cc
told_tracker-All Q a b c (suc (suc n)) port info h = cc

told_tracker-IsShaped : IsShaped (add_summary word) told_tracker
unfolding update_target new_port default new
told_tracker-IsShaped = record {
  leads = λ l h. told_tracker-leads l.node l.port h;
  ends = λ l info h.
      told_tracker-All (λ i. Ends (add_summary word) 1 i.output_summaries.tree) tt (omega arith, tt)
        (omega arith, tt) l.node l.port info h;
  drained = λ l info h.
      told_tracker-All IsDrained (refl, refl) (refl, refl) (refl, refl) l.node l.port info h;
  placed = tt;
  summed = omega arith;
}

told_tracker-IsBalanced : IsBalanced (add_summary word) told_tracker
unfolding update_target new_port implied stamped active inflow sum_ports sum_operator add_i64 count
    sum_by new ChangeBatch.new
told_tracker-IsBalanced = record { balance = λ k. refl; counted = refl }

told_targets : IsBuffer from_target told_tracker.per_operator told_tracker.target_changes
unfolding has_port update_target new_port ChangeBatch.update ChangeBatch.maintain_bounds
    ChangeBatch.new port_at
told_targets = record { at_ports = (refl, tt); ranged = (omega arith, tt) }

told_sources : IsBuffer from_source told_tracker.per_operator told_tracker.source_changes
unfolding update_target ChangeBatch.new
told_sources = record { at_ports = tt; ranged = tt }

-- Twenty rounds are more than the example takes.
propagate_all_correct_example :
    (after : Tracker ℕ ℕ) × (propagate_all (add_summary word) 20 told_tracker ≡ some after)
    × IsPropagated (add_summary word) told_tracker after
propagate_all_correct_example =
    propagate_all_correct (add_summary word) 20 told_tracker told_tracker-IsShaped
      told_tracker-IsBalanced told_targets told_sources

abbrev counts_of : ℕ → ChangeBatch ℕ
counts_of time = record { updates = (time, 1) ∷ []; clean = 1 }

abbrev holding : ℕ → MutableAntichain ℕ
holding time = record { updates = counts_of time; frontier = time ∷ []; changes = ChangeBatch.new }

-- The tracker after the propagation: time 4 is implied at both outputs.
abbrev propagated : Tracker ℕ ℕ
propagated = record {
  nodes = inner_graph;
  edges = outer_graph;
  per_operator =
      record {
        targets = record new_port { implications = holding 4 } ∷ [];
        sources = new_port ∷ [];
      }
      ∷ record {
        targets = record (port_with 1) { pointstamps = holding 3; implications = holding 3 } ∷ [];
        sources = record (port_with 0) { implications = holding 4 } ∷ [];
      }
      ∷ [];
  target_changes = ChangeBatch.new;
  source_changes = ChangeBatch.new;
  worklist = [];
  pushed_changes = record {
    updates = ((new_target 1 0, 3), 1) ∷ ((new_source 1 0, 4), 1) ∷ ((new_target 0 0, 4), 1) ∷ [];
    clean = 0;
  };
  output_changes = record { updates = (4, 1) ∷ []; clean = 0 } ∷ [];
  total_counts = 1;
}

propagated_run : propagate_all (add_summary word) 20 told_tracker ≡ some propagated
unfolding update_target new_port ChangeBatch.update ChangeBatch.maintain_bounds ChangeBatch.new
    ChangeBatch.drain ChangeBatch.compact ChangeBatch.consolidate ChangeBatch.consolidate_all
    ChangeBatch.iter propagate_all absorb_targets absorb_sources absorb_all absorb announce project
    put_port port_at groups join circulate round accumulate spread push_all consequences
    MutableAntichain.update_iter MutableAntichain.update_loop MutableAntichain.may_change
    MutableAntichain.rebuild MutableAntichain.build_frontier MutableAntichain.note_all
    MutableAntichain.hand_out MutableAntichain.new less_than sort_by insert_by checked_add add_i64
    default
propagated_run = refl

propagate_all-settled_example :
    count 4 (holding 4).updates.updates
    ≡ add_i64 (count {T = ℕ} 4 (each 1 [])) (
        inflow
          (add_summary word)
          inner_graph
          outer_graph
          (4, new_target 0 0)
          propagated.per_operator)
unfolding port_at new_port new
propagate_all-settled_example =
    propagate_all-settled (add_summary word) 20 told_tracker propagated 4 (new_target 0 0)
      (record new_port { implications = holding 4 }) told_tracker-IsShaped told_tracker-IsBalanced
      told_targets told_sources propagated_run refl refl
