-- ===== src/Reachability/Backward.antt =====
-- What `summarize_outputs` finds on its way back from the outputs of the scope.
use timely_dataflow.Prelude.{
  ℕ, zero, suc, ◌+◌, ◌<◌, ◌≡◌, refl, sym, subst, Bool-cases, List, [], ◌∷◌, ◌++◌, add_zero,
  zero_add, add_suc, none, some, get_elem?, All, All-append, inl, inr, Option-cases,
}
use timely_dataflow.Order.{PartialOrder}
use timely_dataflow.Location.{Port, Location, new_target, new_source, location_eq}
use timely_dataflow.Location.Port.{target, source}
use timely_dataflow.Antichain.{Antichain}
use timely_dataflow.Connectivity.{PortConnectivity, insert, default}
use timely_dataflow.Timestamp.{PathSummary}
use timely_dataflow.Reachability.{Inner}
use timely_dataflow.Reachability.Builder.{find}
use timely_dataflow.Reachability.Summaries.{
  Internal, reverse_outputs, reverse_inputs, reverse_nodes, PathTo, Found, connectivity_at,
  discover, cross_summaries, cross_inputs, walk_back, walk,
}
use timely_dataflow.Reachability.Wiring.{at_both, All-store, All-upsert, find-All, put-All}

module _ {κ} {TS : Type κ} (P : Location → Type 0) where
  -- Each entry stands for inputs of the same node.
  abbrev pub IsInternal : Internal TS → Type 0
  IsInternal reverse =
      All
        (λ (e : Location × List (ℕ × Antichain TS)).
          All (λ (x : ℕ × Antichain TS). P (new_target e.0.node x.0)) e.1)
        reverse

  reverse_outputs-IsInternal :
      (node input : ℕ) (outputs : List (ℕ × Antichain TS)) (reverse : Internal TS)
      → P (new_target node input)
      → IsInternal reverse
      → IsInternal (reverse_outputs node input outputs reverse)
  unfolding reverse_outputs
  reverse_outputs-IsInternal node input [] reverse q h = h
  reverse_outputs-IsInternal node input ((output, summary) ∷ rest) reverse q h =
      reverse_outputs-IsInternal node input rest _ q (
        All-upsert (λ e. All (λ (x : ℕ × Antichain TS). P (new_target e.0.node x.0)) e.1)
          (new_source node output) [] (λ inputs. inputs ++ (input, summary) ∷ []) reverse (q, tt)
          (λ v r.
            All-append (λ (x : ℕ × Antichain TS). P (new_target node x.0)) v ((input, summary) ∷ [])
              r (q, tt))
          h)

  reverse_inputs-IsInternal :
      (node input : ℕ) (inputs : Inner TS) (reverse : Internal TS)
      → ((i : ℕ) (c : PortConnectivity TS)
          → get_elem? inputs i ≡ some c
          → P (new_target node (input + i)))
      → IsInternal reverse
      → IsInternal (reverse_inputs node input inputs reverse)
  unfolding reverse_inputs
  reverse_inputs-IsInternal node input [] reverse q h = h
  reverse_inputs-IsInternal node input (outputs ∷ rest) reverse q h =
      reverse_inputs-IsInternal node (suc input) rest _
        (λ i c at. subst (λ j. P (new_target node j)) (add_suc input i) (q (suc i) c at))
        (reverse_outputs-IsInternal node input outputs.tree reverse
          (subst (λ j. P (new_target node j)) (add_zero input) (q 0 outputs refl)) h)

  pub reverse_nodes-IsInternal :
      (node : ℕ) (nodes : List (Inner TS)) (reverse : Internal TS)
      → ((n i : ℕ) (c : PortConnectivity TS)
          → at_both nodes n i ≡ some c
          → P (new_target (node + n) i))
      → IsInternal reverse
      → IsInternal (reverse_nodes node nodes reverse)
  unfolding reverse_nodes
  reverse_nodes-IsInternal node [] reverse q h = h
  reverse_nodes-IsInternal node (inputs ∷ rest) reverse q h =
      reverse_nodes-IsInternal (suc node) rest _
        (λ n i c at. subst (λ m. P (new_target m i)) (add_suc node n) (q (suc n) i c at))
        (reverse_inputs-IsInternal node 0 inputs reverse
          (λ i c at. subst P (λ x. new_target (add_zero node x) (sym (zero_add i) x)) (q 0 i c at))
          h)

  -- What is found stands at `P`, and leads to one of the first `n` outputs; and so does what waits.
  pub record IsFound (n : ℕ) (found : Found TS) : Type 0 where
    pub placed : All (λ (r : Location × PortConnectivity TS). P r.0) found.0
    pub ends :
        All
          (λ (r : Location × PortConnectivity TS). All (λ (x : ℕ × Antichain TS). x.0 < n) r.1.tree)
          found.0
    pub waiting : All (λ (w : PathTo TS). w.1.0 < n) found.1

module _ {ℓ κ} {T : Type ℓ} {TS : Type κ} ⦃p : PartialOrder TS⦄ (s : PathSummary TS T)
    (P : Location → Type 0) (n : ℕ) where
  connectivity_at-All :
      (found : Found TS) (l : Location)
      → IsFound P n found
      → All (λ (x : ℕ × Antichain TS). x.0 < n) (connectivity_at s (find l found.0)).tree
  unfolding default
  connectivity_at-All found l h = elim (Option-cases (find l found.0)) [
    | inl new ↦ rw new tt
    | inr (c, old) ↦
        rw old
          (find-All (λ r. All (λ (x : ℕ × Antichain TS). x.0 < n) r.1.tree) l found.0 c h.ends old)
  ]

  discover-IsFound :
      (l : Location) (output : ℕ) (summary : TS) (found : Found TS)
      → P l
      → output < n
      → IsFound P n found
      → IsFound P n (discover s l output summary found)
  unfolding discover insert
  discover-IsFound l output summary found q lt h =
      let old = connectivity_at s (find l found.0) in
      let (c, novel) = insert old output summary in
      record {
        placed = All-store (λ r. P r.0) l c found.0 q h.placed;
        ends =
            All-store (λ r. All (λ (x : ℕ × Antichain TS). x.0 < n) r.1.tree) l c found.0
              (put-All (λ x. x < n) output _ old.tree lt (connectivity_at-All found l h)) h.ends;
        waiting = elim (Bool-cases novel) [
          | inl new ↦ rw new (
              All-append (λ (w : PathTo TS). w.1.0 < n) found.1 ((l, (output, summary)) ∷ [])
                h.waiting (lt, tt))
          | inr old ↦ rw old h.waiting
        ];
      }

  cross_summaries-IsFound :
      (l : Location) (output : ℕ) (summary : TS) (summaries : List TS) (found : Found TS)
      → P l
      → output < n
      → IsFound P n found
      → IsFound P n (cross_summaries s l output summary summaries found)
  unfolding cross_summaries
  cross_summaries-IsFound l output summary [] found q lt h = h
  cross_summaries-IsFound l output summary (op_summary ∷ rest) found q lt h =
      cross_summaries-IsFound l output summary rest _ q lt
        (elim (s.followed_by op_summary summary)
          as (λ o.
            IsFound {TS = TS} P n
              (elim o [ some combined ↦ discover s l output combined found | none ↦ found ])) [
                | some combined ↦ discover-IsFound l output combined found q lt h
                | none ↦ h
              ])

  cross_inputs-IsFound :
      (node output : ℕ) (summary : TS) (inputs : List (ℕ × Antichain TS)) (found : Found TS)
      → All (λ (x : ℕ × Antichain TS). P (new_target node x.0)) inputs
      → output < n
      → IsFound P n found
      → IsFound P n (cross_inputs s node output summary inputs found)
  unfolding cross_inputs
  cross_inputs-IsFound node output summary [] found q lt h = h
  cross_inputs-IsFound node output summary ((input_port, operator_summary) ∷ rest) found q lt h =
      cross_inputs-IsFound node output summary rest _ q.1 lt (
        cross_summaries-IsFound (new_target node input_port) output summary
          operator_summary.elements found q.0 lt h)

  walk_back-IsFound :
      (reverse : List (Location × Location)) (internal : Internal TS) (node : ℕ) (port : Port)
      (output : ℕ) (summary : TS) (found : Found TS)
      → All (λ (e : Location × Location). P e.1) reverse
      → IsInternal P internal
      → output < n
      → IsFound P n found
      → IsFound P n (
          walk_back s reverse internal
            (record { node = node; port = port }, (output, summary))
            found)
  unfolding walk_back
  walk_back-IsFound reverse internal node (source i) output summary found r q lt h =
      elim (Option-cases (find (new_source node i) internal)) [
        | inl missing ↦ rw (missing, walk_back) h
        | inr (inputs, there) ↦
            rw (there, walk_back)
              (cross_inputs-IsFound node output summary inputs found
                (find-All (λ e. All (λ (x : ℕ × Antichain TS). P (new_target e.0.node x.0)) e.1)
                  (new_source node i) internal inputs q there)
                lt h)
      ]
  walk_back-IsFound reverse internal node (target i) output summary found r q lt h =
      elim (Option-cases (find (new_target node i) reverse)) [
        | inl missing ↦ rw (missing, walk_back) h
        | inr (at, there) ↦
            rw (there, walk_back)
              (discover-IsFound at output summary found
                (find-All (λ e. P e.1) (new_target node i) reverse at r there) lt h)
      ]

  pub walk-IsFound :
      (rounds : ℕ) (reverse : List (Location × Location)) (internal : Internal TS)
      (found : Found TS)
      → All (λ (e : Location × Location). P e.1) reverse
      → IsInternal P internal
      → IsFound P n found
      → IsFound P n (walk s rounds reverse internal found)
  unfolding walk
  walk-IsFound zero reverse internal found r q h = h
  walk-IsFound (suc m) reverse internal (results, []) r q h = h
  walk-IsFound (suc m) reverse internal (results, (l, (output, summary)) ∷ worklist) r q h =
      walk-IsFound m reverse internal _ r q (
        walk_back-IsFound reverse internal l.node l.port output summary (results, worklist) r q
          h.waiting.0 (record { placed = h.placed; ends = h.ends; waiting = h.waiting.1 }))
