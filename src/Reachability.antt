-- ===== src/Reachability.antt =====
-- `Tracker` of timely/src/progress/reachability.rs: its state, and the operations on one port or one
-- buffer. A method that mutates `self` returns the new tracker; an index out of range, which panics,
-- is none. The logger is left out: it writes events and is read by nothing.
pub mod Ports
pub mod Propagate
pub mod Flow
pub mod Spread
pub mod Announce
pub mod Balance
pub mod Step
pub mod Round
pub mod Circulate
pub mod Absorb
pub mod Drain
pub mod Correct
pub mod Settled
pub mod Builder
pub mod Summaries
pub mod Acyclic
pub mod Wiring
pub mod Edges
pub mod Backward
pub mod Allocate
pub mod Empty
pub mod Initial
use timely_dataflow.Prelude.{
  ℕ, zero, suc, if◌then◌else◌, Bool, true, false, not, ◌&&◌, ◌||◌, List, [], ◌∷◌, Option, none,
  some, get_elem?, any, ltb, positive,
}
use timely_dataflow.Order.{Eq, PartialOrder, Ord, less_than}
use timely_dataflow.Order.Pair.{pair_eq, pair_ord}
use timely_dataflow.Location.{
  Port, Location, Target, Source, target_eq, target_ord, source_eq, source_ord, location_eq,
  location_ord,
}
use timely_dataflow.Location.Port.{target, source}
use timely_dataflow.ChangeBatch.{ChangeBatch, Update}
use timely_dataflow.ChangeBatch
use timely_dataflow.MutableAntichain.{MutableAntichain, count_for}
use timely_dataflow.MutableAntichain
use timely_dataflow.Connectivity.{PortConnectivity}
use timely_dataflow.Connectivity
use timely_dataflow.Timestamp.{◌>>=◌}

-- `Connectivity`: for each input the summaries to the outputs.
abbrev pub Inner {ℓ} : Type ℓ → Type ℓ
Inner TS = List (PortConnectivity TS)

pub record PortInformation {ℓ κ} (T : Type ℓ) (TS : Type κ) : Type (ℓ ⊔ κ) where
  pub pointstamps : MutableAntichain T
  pub implications : MutableAntichain T
  pub output_summaries : PortConnectivity TS

pub record PerOperator {ℓ κ} (T : Type ℓ) (TS : Type κ) : Type (ℓ ⊔ κ) where
  pub targets : List (PortInformation T TS)
  pub sources : List (PortInformation T TS)

-- An entry `(T, Location, i64)` of the worklist, the difference apart.
abbrev pub Entry {ℓ} : Type ℓ → Type ℓ
Entry T = Update (T × Location)

pub record Tracker {ℓ κ} (T : Type ℓ) (TS : Type κ) : Type (ℓ ⊔ κ) where
  pub nodes : List (Inner TS)
  pub edges : List (List (List Target))
  pub per_operator : List (PerOperator T TS)
  pub target_changes : ChangeBatch (Target × T)
  pub source_changes : ChangeBatch (Source × T)
  -- The heap as the list of its entries in the order in which `pop` yields them.
  pub worklist : List (Entry T)
  pub pushed_changes : ChangeBatch (Location × T)
  pub output_changes : List (ChangeBatch T)
  pub total_counts : ℕ

-- `vec![value; n]`.
abbrev pub replicate {ℓ} : {A : Type ℓ} → ℕ → A → List A
replicate zero value = []
replicate (suc n) value = value ∷ replicate n value

module _ {ℓ κ} {T : Type ℓ} {TS : Type κ} where
  unfoldable pub new_port : PortInformation T TS
  new_port = record {
    pointstamps = MutableAntichain.new;
    implications = MutableAntichain.new;
    output_summaries = Connectivity.default;
  }

  unfoldable pub new_operator : ℕ → ℕ → PerOperator T TS
  new_operator inputs outputs = record {
    targets = replicate inputs new_port;
    sources = replicate outputs new_port;
  }

  -- `self.per_operator[l.node].targets[port]`, or `.sources[port]`.
  unfoldable pub port_at : List (PerOperator T TS) → Location → Option (PortInformation T TS)
  port_at ops l = get_elem? ops l.node >>= λ op. elim l.port [
    | target i ↦ get_elem? op.targets i
    | source i ↦ get_elem? op.sources i
  ]

  unfoldable pub node_state : Tracker T TS → ℕ → Option (PerOperator T TS)
  node_state tracker index = get_elem? tracker.per_operator index

  unfoldable pub pushed : Tracker T TS → ChangeBatch (Location × T)
  pushed tracker = tracker.pushed_changes

  unfoldable pub pushed_output : Tracker T TS → List (ChangeBatch T)
  pushed_output tracker = tracker.output_changes

module _ {ℓ κ} {T : Type ℓ} {TS : Type κ} ⦃e : Eq T⦄ ⦃p : PartialOrder T⦄ where
  -- `PortInformation::is_global`; `count_for(time) > 1` on `i64`.
  unfoldable pub is_global_port : PortInformation T TS → T → Bool
  is_global_port info time =
      let dominated = any (λ t. less_than t time) info.implications.frontier in
      let count = count_for info.implications time in
      let redundant = positive count && ltb 1 count in not dominated && not redundant

  -- `Tracker::is_global`.
  unfoldable pub is_global : Tracker T TS → Location → T → Option Bool
  is_global tracker l time =
      port_at tracker.per_operator l >>= λ info. some (is_global_port info time)

module _ {ℓ κ} {T : Type ℓ} {TS : Type κ} ⦃e : Eq T⦄ ⦃o : Ord T⦄ where
  unfoldable pub update_target : Tracker T TS → Target → T → ℕ → Tracker T TS
  update_target tracker to time value = record tracker {
    target_changes = ChangeBatch.update tracker.target_changes (to, time) value;
  }

  unfoldable pub update_source : Tracker T TS → Source → T → ℕ → Tracker T TS
  update_source tracker at time value = record tracker {
    source_changes = ChangeBatch.update tracker.source_changes (at, time) value;
  }

  unfoldable pub update : Tracker T TS → Location → T → ℕ → Tracker T TS
  update tracker l time value = elim l.port [
    | target port ↦ update_target tracker (record { node = l.node; port = port }) time value
    | source port ↦ update_source tracker (record { node = l.node; port = port }) time value
  ]

  -- `tracking_anything`: `||` stops at the first that holds, and asks the batches in its order.
  unfoldable pub tracking_anything : Tracker T TS → Tracker T TS × Bool
  tracking_anything tracker =
      let (sources, no_sources) = ChangeBatch.is_empty tracker.source_changes in
      let (targets, no_targets) = ChangeBatch.is_empty tracker.target_changes in
      if no_sources
      then (if no_targets
          then (
            record tracker { source_changes = sources; target_changes = targets },
            positive tracker.total_counts,
          )
          else (record tracker { source_changes = sources; target_changes = targets }, true))
      else (record tracker { source_changes = sources }, true)
