-- ===== src/Reachability/Summaries.antt =====
-- `summarize_outputs` and `Tracker::allocate_from` of timely/src/progress/reachability.rs: the summaries
-- of the paths from each location to the outputs of the scope.
use timely_dataflow.Prelude.{
  ℕ, zero, suc, true, false, if◌then◌else◌, ◌==◌, List, [], ◌∷◌, ◌++◌, Option, none, some,
  get_elem?, modify, map, retain,
}
use timely_dataflow.Order.{PartialOrder}
use timely_dataflow.Location.{Location, Target, new_target, new_source, from_target, location_eq}
use timely_dataflow.Location.Port.{target, source}
use timely_dataflow.Antichain.{Antichain}
use timely_dataflow.ChangeBatch
use timely_dataflow.Connectivity.{PortConnectivity}
use timely_dataflow.Connectivity
use timely_dataflow.Timestamp.{PathSummary, ◌>>=◌}
use timely_dataflow.Reachability.{Inner, PerOperator, Tracker, replicate, new_operator, port_at}
use timely_dataflow.Reachability.Propagate.{put_port}
use timely_dataflow.Reachability.Builder.{Builder, find, store, upsert}

-- "A reverse edge map": of two edges to a target the later one stays.
unfoldable pub reverse_targets :
    Location → List Target → List (Location × Location) → List (Location × Location)
reverse_targets at [] reverse = reverse
reverse_targets at (to ∷ tos) reverse = reverse_targets at tos (store (from_target to) at reverse)

unfoldable pub reverse_ports :
    ℕ → ℕ → List (List Target) → List (Location × Location) → List (Location × Location)
reverse_ports node output [] reverse = reverse
reverse_ports node output (tos ∷ ports) reverse =
    reverse_ports node (suc output) ports (reverse_targets (new_source node output) tos reverse)

unfoldable pub reverse_edges :
    ℕ → List (List (List Target)) → List (Location × Location) → List (Location × Location)
reverse_edges node [] reverse = reverse
reverse_edges node (ports ∷ rest) reverse =
    reverse_edges (suc node) rest (reverse_ports node 0 ports reverse)

-- The edges into node 0, which are the outputs of the scope.
abbrev pub concat {ℓ} : {A : Type ℓ} → List (List A) → List A
concat [] = []
concat (xs ∷ xss) = xs ++ concat xss

abbrev pub scope_outputs : List (List (List Target)) → List Target
scope_outputs edges = retain (λ (to : Target). to.node == 0) (concat (concat edges))

-- From an output to the inputs that lead to it, with their summaries.
abbrev pub Internal {κ} : Type κ → Type κ
Internal TS = List (Location × List (ℕ × Antichain TS))

module _ {κ} {TS : Type κ} where
  unfoldable pub reverse_outputs : ℕ → ℕ → List (ℕ × Antichain TS) → Internal TS → Internal TS
  reverse_outputs node input [] reverse = reverse
  reverse_outputs node input ((output, summary) ∷ rest) reverse =
      reverse_outputs node input rest
        (upsert (new_source node output) [] (λ inputs. inputs ++ (input, summary) ∷ []) reverse)

  unfoldable pub reverse_inputs : ℕ → ℕ → Inner TS → Internal TS → Internal TS
  reverse_inputs node input [] reverse = reverse
  reverse_inputs node input (outputs ∷ rest) reverse =
      reverse_inputs node (suc input) rest (reverse_outputs node input outputs.tree reverse)

  unfoldable pub reverse_nodes : ℕ → List (Inner TS) → Internal TS → Internal TS
  reverse_nodes node [] reverse = reverse
  reverse_nodes node (connectivity ∷ rest) reverse =
      reverse_nodes (suc node) rest (reverse_inputs node 0 connectivity reverse)

-- A path to an output of the scope, from a location and with a summary.
abbrev pub PathTo {κ} : Type κ → Type κ
PathTo TS = Location × (ℕ × TS)

module _ {ℓ κ} {T : Type ℓ} {TS : Type κ} where
  -- The loop of `allocate_from` over the summaries that were found.
  unfoldable pub assign :
      List (Location × PortConnectivity TS)
      → List (PerOperator T TS)
      → Inner TS
      → Option (List (PerOperator T TS) × Inner TS)
  assign [] ops outer = some (ops, outer)
  assign ((l, summaries) ∷ rest) ops outer = elim (l.node == 0) [
    | true ↦ elim l.port [
      | source port ↦
          get_elem? outer port >>= λ old. assign rest ops (modify port (λ _. summaries) outer)
      | target port ↦ assign rest ops outer
    ]
    | false ↦ port_at ops l >>= λ info.
        assign rest (put_port l (record info { output_summaries = summaries }) ops) outer
  ]

-- The results, and the worklist.
abbrev pub Found {κ} : Type κ → Type κ
Found TS = List (Location × PortConnectivity TS) × List (PathTo TS)

module _ {ℓ κ} {T : Type ℓ} {TS : Type κ} ⦃p : PartialOrder TS⦄ (s : PathSummary TS T) where
  abbrev pub connectivity_at : Option (PortConnectivity TS) → PortConnectivity TS
  connectivity_at none = Connectivity.default
  connectivity_at (some c) = c

  -- `results.entry(l).or_default().insert_ref(output, &summary)`, and the push if it is new.
  unfoldable pub discover : Location → ℕ → TS → Found TS → Found TS
  discover l output summary (results, worklist) =
      let (c, novel) = Connectivity.insert (connectivity_at (find l results)) output summary in
      (store l c results, (if novel then worklist ++ (l, (output, summary)) ∷ [] else worklist))

  unfoldable pub cross_summaries : Location → ℕ → TS → List TS → Found TS → Found TS
  cross_summaries l output summary [] found = found
  cross_summaries l output summary (op_summary ∷ rest) found =
      cross_summaries l output summary rest (elim (s.followed_by op_summary summary) [
        | some combined ↦ discover l output combined found
        | none ↦ found
      ])

  unfoldable pub cross_inputs : ℕ → ℕ → TS → List (ℕ × Antichain TS) → Found TS → Found TS
  cross_inputs node output summary [] found = found
  cross_inputs node output summary ((input_port, operator_summary) ∷ rest) found =
      cross_inputs node output summary rest (
        cross_summaries (new_target node input_port) output summary operator_summary.elements found)

  -- The body of the loop: one step back from a location.
  unfoldable pub walk_back :
      List (Location × Location) → Internal TS → PathTo TS → Found TS → Found TS
  walk_back reverse internal (l, (output, summary)) found = elim l.port [
    | source port ↦ elim (find l internal) [
      | some inputs ↦ cross_inputs l.node output summary inputs found
      | none ↦ found
    ]
    | target port ↦ elim (find l reverse) [
      | some at ↦ discover at output summary found
      | none ↦ found
    ]
  ]

  -- The loop, for at most so many rounds; it has run to its end where the worklist is empty.
  unfoldable pub walk : ℕ → List (Location × Location) → Internal TS → Found TS → Found TS
  walk zero reverse internal found = found
  walk (suc n) reverse internal (results, []) = (results, [])
  walk (suc n) reverse internal (results, path ∷ worklist) =
      walk n reverse internal (walk_back reverse internal path (results, worklist))

  unfoldable pub summarize_outputs : ℕ → List (Inner TS) → List (List (List Target)) → Found TS
  summarize_outputs rounds nodes edges =
      walk rounds (reverse_edges 0 edges []) (reverse_nodes 0 nodes [])
        ([], map (λ (to : Target). (from_target to, (to.port, s.default))) (scope_outputs edges))

  -- `allocate_from`, with at most so many rounds to find the summaries: the tracker, and the summaries
  -- from each input of the scope to its outputs.
  unfoldable pub allocate_from : ℕ → Builder TS → Option (Tracker T TS × Inner TS)
  allocate_from rounds b = get_elem? b.shape 0 >>= λ scope.
      assign (summarize_outputs rounds b.nodes b.edges).0
        (map (λ io. new_operator io.0 io.1) b.shape) (replicate scope.1 Connectivity.default)
      >>= λ assigned. some (
        record {
          nodes = b.nodes;
          edges = b.edges;
          per_operator = assigned.0;
          target_changes = ChangeBatch.new;
          source_changes = ChangeBatch.new;
          worklist = [];
          pushed_changes = ChangeBatch.new;
          output_changes = replicate scope.0 ChangeBatch.new;
          total_counts = 0;
        },
        assigned.1,
      )
