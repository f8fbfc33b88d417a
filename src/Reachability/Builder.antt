-- ===== src/Reachability/Builder.antt =====
-- `Builder` of timely/src/progress/reachability.rs, with its test for cycles. A failed `debug_assert` and
-- an index out of range are none. A `HashMap` is the list of its entries, each key once.
use timely_dataflow.Prelude.{
  ℕ, zero, suc, ◌+◌, ◌-◌, ◌%◌, ◌^◌, Bool, not, ◌&&◌, if◌then◌else◌, ◌==◌, ltb, List, [], ◌∷◌, ◌++◌,
  Option, none, some, length, is_nil, get_elem?, modify, map, all, retain,
}
use timely_dataflow.Order.{Eq}
use timely_dataflow.Location.{
  Location, Target, Source, new_target, new_source, from_target, location_eq,
}
use timely_dataflow.Location.Port.{target, source}
use timely_dataflow.Antichain.{Antichain}
use timely_dataflow.Connectivity.{PortConnectivity}
use timely_dataflow.Timestamp.{PathSummary, ◌>>=◌}
use timely_dataflow.Reachability.{Inner, replicate}

pub record Builder {κ} (TS : Type κ) : Type κ where
  pub nodes : List (Inner TS)
  pub edges : List (List (List Target))
  pub shape : List (ℕ × ℕ)

module _ {κ} {TS : Type κ} where
  unfoldable pub new_builder : Builder TS
  new_builder = record { nodes = []; edges = []; shape = [] }

  -- The asserted condition on the summaries of a node.
  abbrev pub fits : ℕ → ℕ → Inner TS → Bool
  fits inputs outputs summary =
      (inputs == length summary)
      && all (λ (os : PortConnectivity TS). all (λ x. ltb x.0 outputs) os.tree) summary

  unfoldable pub add_node : Builder TS → ℕ → ℕ → ℕ → Inner TS → Option (Builder TS)
  add_node b index inputs outputs summary =
      let missing = suc index - length b.nodes in
      if fits inputs outputs summary
      then some (record {
        nodes = modify index (λ _. summary) (b.nodes ++ replicate missing []);
        edges =
            modify index (λ ports. if length ports == outputs then ports else replicate outputs [])
              (b.edges ++ replicate missing []);
        shape = modify index (λ _. (inputs, outputs)) (b.shape ++ replicate missing (0, 0));
      })
      else none

  unfoldable pub add_edge : Builder TS → Source → Target → Option (Builder TS)
  add_edge b at to = get_elem? b.shape at.node >>= λ from_shape.
      get_elem? b.shape to.node >>= λ to_shape. get_elem? b.edges at.node >>= λ ports.
      get_elem? ports at.port >>= λ tos.
      if ltb at.port from_shape.1 && ltb to.port to_shape.0
      then some
          (record b { edges = modify at.node (modify at.port (λ tos. tos ++ to ∷ [])) b.edges })
      else none

-- Operations of a `HashMap` keyed by locations.
module _ {ℓ} {V : Type ℓ} where
  unfoldable pub find : Location → List (Location × V) → Option V
  find l [] = none
  find l ((k, v) ∷ rest) =
      let later = find l rest in if location_eq.equal k l then some v else later

  -- `insert`.
  unfoldable pub store : Location → V → List (Location × V) → List (Location × V)
  store l value [] = (l, value) ∷ []
  store l value ((k, v) ∷ rest) =
      let later = store l value rest in
      if location_eq.equal k l then (l, value) ∷ rest else (k, v) ∷ later

  -- `remove`.
  unfoldable pub remove : Location → List (Location × V) → List (Location × V)
  remove l entries = retain (λ x. not (location_eq.equal x.0 l)) entries

  -- `*entry(l).or_insert(default) = f(..)`, and the reference that `or_default` gives.
  unfoldable pub upsert : Location → V → (V → V) → List (Location × V) → List (Location × V)
  upsert l default f [] = (l, f default) ∷ []
  upsert l default f ((k, v) ∷ rest) =
      let later = upsert l default f rest in
      if location_eq.equal k l then (k, f v) ∷ rest else (k, v) ∷ later

-- How many edges lead to each location that was observed, an `i32` as its bit pattern.
abbrev pub Degrees : Type 0
Degrees = List (Location × ℕ)

-- `+= 1` and `-= 1` on an `i32`, with the wrap-around of a release build.
abbrev pub increment : ℕ → ℕ
increment n = (n + 1) % 2 ^ 32

abbrev pub decrement : ℕ → ℕ
decrement n = (n + 2 ^ 32 - 1) % 2 ^ 32

-- The loop over the targets of one source.
unfoldable pub load_targets : List Target → Degrees → Degrees
load_targets [] degrees = degrees
load_targets (to ∷ tos) degrees = load_targets tos (upsert (from_target to) 0 increment degrees)

unfoldable pub load_ports : ℕ → ℕ → List (List Target) → Degrees → Degrees
load_ports index output [] degrees = degrees
load_ports index output (tos ∷ ports) degrees =
    load_ports index (suc output) ports
      (load_targets tos (upsert (new_source index output) 0 (λ n. n) degrees))

-- "Load edges as default summaries."
unfoldable pub load_edges : ℕ → List (List (List Target)) → Degrees → Degrees
load_edges index [] degrees = degrees
load_edges index (ports ∷ rest) degrees =
    load_edges (suc index) rest (load_ports index 0 ports degrees)

-- The first worklist, and the in-degrees that are left.
unfoldable pub roots : Degrees → List Location
roots degrees = map (λ x. x.0) (retain (λ x. x.1 == 0) degrees)

unfoldable pub reached : Degrees → Degrees
reached degrees = retain (λ x. not (x.1 == 0)) degrees

-- What the loop makes of a new in-degree: at zero the location is removed and waits.
unfoldable pub settle :
    Location
    → ℕ
    → Degrees
    → List Location
    → (Degrees → List Location → Option (Degrees × List Location))
    → Option (Degrees × List Location)
settle l zero degrees worklist rest = rest (remove l degrees) (l ∷ worklist)
settle l (suc n) degrees worklist rest = rest (store l (suc n) degrees) worklist

-- The loop over the successors: the new in-degrees and worklist, which pops its head. A location
-- that is not there fails to `unwrap`.
unfoldable pub release : List Location → Degrees → List Location → Option (Degrees × List Location)
release [] degrees worklist = some (degrees, worklist)
release (l ∷ ls) degrees worklist =
    find l degrees >>= λ n. settle l (decrement n) degrees worklist (release ls)

module _ {ℓ κ} {T : Type ℓ} {TS : Type κ} ⦃e : Eq TS⦄ (s : PathSummary TS T) where
  -- How many of the summaries are the default.
  abbrev pub defaults : List TS → ℕ
  defaults [] = 0
  defaults (summary ∷ rest) =
      let others = defaults rest in if e.equal summary s.default then suc others else others

  -- The outputs that an input leads to by a default summary, once for each.
  unfoldable pub default_outputs : ℕ → List (ℕ × Antichain TS) → List Location
  default_outputs index [] = []
  default_outputs index ((output, summaries) ∷ rest) =
      replicate (defaults summaries.elements) (new_source index output)
      ++ default_outputs index rest

  unfoldable pub load_outputs : List Location → Degrees → Degrees
  load_outputs [] degrees = degrees
  load_outputs (l ∷ ls) degrees = load_outputs ls (upsert l 0 increment degrees)

  unfoldable pub load_inputs : ℕ → ℕ → Inner TS → Degrees → Degrees
  load_inputs index input [] degrees = degrees
  load_inputs index input (outputs ∷ rest) degrees = load_inputs index (suc input) rest (
      load_outputs (default_outputs index outputs.tree)
        (upsert (new_target index input) 0 (λ n. n) degrees))

  -- "Load default intra-node summaries."
  unfoldable pub load_nodes : ℕ → List (Inner TS) → Degrees → Degrees
  load_nodes index [] degrees = degrees
  load_nodes index (summary ∷ rest) degrees =
      load_nodes (suc index) rest (load_inputs index 0 summary degrees)

  -- What a location leads to: along its edges, or by default summaries.
  unfoldable pub successors : Builder TS → Location → Option (List Location)
  successors b l = elim l.port [
    | source port ↦ get_elem? b.edges l.node >>= λ ports.
        get_elem? ports port >>= λ tos. some (map from_target tos)
    | target port ↦ get_elem? b.nodes l.node >>= λ inputs.
        get_elem? inputs port >>= λ outputs. some (default_outputs l.node outputs.tree)
  ]

  -- The loop that removes locations that no others lead to.
  unfoldable pub reduce :
      ℕ → Builder TS → Degrees → List Location → Option (Degrees × List Location)
  reduce zero b degrees worklist = some (degrees, worklist)
  reduce (suc n) b degrees [] = some (degrees, [])
  reduce (suc n) b degrees (l ∷ worklist) =
      successors b l >>= λ next. release next degrees worklist >>= λ out. reduce n b out.0 out.1

  -- The in-degree of every location that is observed.
  unfoldable pub observed : Builder TS → Degrees
  observed b = load_nodes 0 b.nodes (load_edges 0 b.edges [])

  -- `is_acyclic`: each round takes one location off, so that as many rounds are enough as locations
  -- were observed.
  unfoldable pub is_acyclic : Builder TS → Option Bool
  is_acyclic b =
      let degrees = observed b in
      reduce (length degrees) b (reached degrees) (roots degrees) >>= λ out. some (is_nil out.0)
