-- ===== src/Examples/Builders.antt =====
-- Witnesses for the construction of trackers, on the graph of the scope and one operator, and tests of
-- the cycle detection on the graphs of the documentation.
use timely_dataflow.Prelude.{
  ℕ, zero, suc, ◌≡◌, refl, subst, true, modify, ◌++◌, false, arith, List, [], ◌∷◌, All, none, some,
  word, ◌⊎◌,
}
use mathlib.Core.Option.{some-injective}
use timely_dataflow.Order.Numbers.{nat_eq, nat_partial, nat_ord}
use timely_dataflow.Location.{Source, Target, new_target, new_source, from_target}
use timely_dataflow.Antichain.{Antichain}
use timely_dataflow.Connectivity.{PortConnectivity}
use timely_dataflow.Timestamp.{add_summary}
use timely_dataflow.Reachability.{Tracker, Inner}
use timely_dataflow.Reachability.Builder.{
  Builder, Degrees, observed, reached, roots, reduce, is_acyclic, load_edges, load_ports,
  load_targets, load_nodes, load_inputs, load_outputs, default_outputs, upsert, successors, release,
  add_edge, settle, find, store, remove,
}
use timely_dataflow.Reachability.Acyclic.{is_acyclic-ends}
use timely_dataflow.Reachability.Summaries.{allocate_from}
use timely_dataflow.Reachability.Balance.{IsShaped, IsBalanced}
use timely_dataflow.Reachability.Wiring.{IsPlace, has_place, at_both, IsWired}
use timely_dataflow.Reachability.Edges.{add_edge_correct}
use timely_dataflow.Reachability.Initial.{allocate_from_correct}

abbrev leads_with : ℕ → PortConnectivity ℕ
leads_with summary = record { tree = (0, record { elements = summary ∷ [] }) ∷ [] }

abbrev to : ℕ → Target
to node = record { node = node; port = 0 }

abbrev chain : Builder ℕ
chain = record {
  nodes = (record { tree = [] } ∷ []) ∷ (leads_with 1 ∷ []) ∷ [];
  edges = ((to 1 ∷ []) ∷ []) ∷ ((to 0 ∷ []) ∷ []) ∷ [];
  shape = (1, 1) ∷ (1, 1) ∷ [];
}

chain_inner :
    (n i : ℕ)
    → IsPlace chain.shape (new_target n i)
    → (c : PortConnectivity ℕ) × (at_both chain.nodes n i ≡ some c)
unfolding has_place
chain_inner zero zero h = (_, refl)
chain_inner zero (suc i) h = absurd (ground arith)
chain_inner (suc zero) zero h = (_, refl)
chain_inner (suc zero) (suc i) h = absurd (ground arith)
chain_inner (suc (suc n)) i h = cc

chain_inner_at :
    (n i : ℕ) (c : PortConnectivity ℕ)
    → at_both chain.nodes n i ≡ some c
    → IsPlace chain.shape (new_target n i)
      × All (λ (x : ℕ × Antichain ℕ). IsPlace chain.shape (new_source n x.0)) c.tree
unfolding has_place
chain_inner_at zero zero c h = (
  refl,
  subst
      (λ (c : PortConnectivity ℕ).
        All (λ (x : ℕ × Antichain ℕ). IsPlace chain.shape (new_source 0 x.0)) c.tree)
      (some-injective _ _ h) tt,
)
chain_inner_at (suc zero) zero c h = (
  refl,
  subst
      (λ (c : PortConnectivity ℕ).
        All (λ (x : ℕ × Antichain ℕ). IsPlace chain.shape (new_source 1 x.0)) c.tree)
      (some-injective _ _ h) (refl, tt),
)
chain_inner_at zero (suc i) c h = cc
chain_inner_at (suc zero) (suc i) c h = cc
chain_inner_at (suc (suc n)) i c h = cc

chain_outer :
    (n i : ℕ)
    → IsPlace chain.shape (new_source n i)
    → (tos : List Target) × (at_both chain.edges n i ≡ some tos)
unfolding has_place
chain_outer zero zero h = (_, refl)
chain_outer zero (suc i) h = absurd (ground arith)
chain_outer (suc zero) zero h = (_, refl)
chain_outer (suc zero) (suc i) h = absurd (ground arith)
chain_outer (suc (suc n)) i h = cc

chain_outer_at :
    (n i : ℕ) (tos : List Target)
    → at_both chain.edges n i ≡ some tos
    → IsPlace chain.shape (new_source n i) × All (λ t. IsPlace chain.shape (from_target t)) tos
unfolding has_place
chain_outer_at zero zero tos h =
    (refl, subst (All (λ t. IsPlace chain.shape (from_target t))) (some-injective _ _ h) (refl, tt))
chain_outer_at (suc zero) zero tos h =
    (refl, subst (All (λ t. IsPlace chain.shape (from_target t))) (some-injective _ _ h) (refl, tt))
chain_outer_at zero (suc i) tos h = cc
chain_outer_at (suc zero) (suc i) tos h = cc
chain_outer_at (suc (suc n)) i tos h = cc

chain-IsWired : IsWired chain
chain-IsWired = record {
  inner = chain_inner;
  inner_at = chain_inner_at;
  outer = chain_outer;
  outer_at = chain_outer_at;
}

allocate_from_correct_example :
    (out : Tracker ℕ ℕ × Inner ℕ) × (allocate_from (add_summary word) 10 chain ≡ some out)
    × IsShaped (add_summary word) out.0
    × IsBalanced (add_summary word) out.0
allocate_from_correct_example =
    allocate_from_correct (add_summary word) 10 chain (1, 1) chain-IsWired refl

abbrev from_operator : Source
from_operator = record { node = 1; port = 0 }

add_edge_correct_example :
    (b' : Builder ℕ) × (add_edge chain from_operator (to 1) ≡ some b')
    × (b'.shape ≡ chain.shape)
    × (b'.nodes ≡ chain.nodes)
    × (b'.edges ≡ modify 1 (modify 0 (λ tos. tos ++ to 1 ∷ [])) chain.edges)
    × IsWired b'
unfolding has_place
add_edge_correct_example = add_edge_correct chain from_operator (to 1) chain-IsWired refl refl

-- Three operators in a loop that changes no time.
abbrev ring : Builder ℕ
ring = record {
  nodes = (leads_with 0 ∷ []) ∷ (leads_with 0 ∷ []) ∷ (leads_with 0 ∷ []) ∷ [];
  edges = ((to 1 ∷ []) ∷ []) ∷ ((to 2 ∷ []) ∷ []) ∷ ((to 0 ∷ []) ∷ []) ∷ [];
  shape = (1, 1) ∷ (1, 1) ∷ (1, 1) ∷ [];
}

is_acyclic-ends_example :
    (reduce
        (add_summary word)
        6
        ring
        (reached (observed (add_summary word) ring))
        (roots (observed (add_summary word) ring))
      ≡ none)
    ⊎ ((left : Degrees) × (reduce
            (add_summary word)
            6
            ring
            (reached (observed (add_summary word) ring))
            (roots (observed (add_summary word) ring))
          ≡ some (left, [])))
unfolding observed load_edges load_ports load_targets load_nodes load_inputs load_outputs
    default_outputs upsert
is_acyclic-ends_example = is_acyclic-ends (add_summary word) ring

is_acyclic-ring : is_acyclic (add_summary word) ring ≡ some false
unfolding is_acyclic observed load_edges load_ports load_targets load_nodes load_inputs load_outputs
    default_outputs upsert reached roots reduce successors release settle find store remove
is_acyclic-ring = refl

is_acyclic-chain : is_acyclic (add_summary word) chain ≡ some true
unfolding is_acyclic observed load_edges load_ports load_targets load_nodes load_inputs load_outputs
    default_outputs upsert reached roots reduce successors release settle find store remove
is_acyclic-chain = refl
