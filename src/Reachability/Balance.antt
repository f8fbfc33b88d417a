-- ===== src/Reachability/Balance.antt =====
-- The invariants of a tracker, as sums over the ports of its graph: what stands at a time and location
-- in each of its parts, and how one write to a port moves it.
use timely_dataflow.Prelude.{
  ℕ, ◌<◌, ◌≡◌, refl, sym, ap, ◌∙◌, true, false, Bool, arith, List, Option, none, some, length,
  add_i64, add_i64-zero, word, All, All-imp, subst, inl, inr,
}
use timely_dataflow.Order.{Eq, PartialOrder, Ord}
use timely_dataflow.Order.Pair.{pair_eq, pair_ord}
use timely_dataflow.Location.{Location, Target, location_eq, location_ord}
use timely_dataflow.ChangeBatch.{ChangeBatch, Update}
use timely_dataflow.ChangeBatch
use timely_dataflow.ChangeBatch.Count.{count}
use timely_dataflow.ChangeBatch.Additive.{sum_by}
use timely_dataflow.MutableAntichain.Loop.{each}
use timely_dataflow.Timestamp.{PathSummary}
use timely_dataflow.Reachability.{PortInformation, PerOperator, Tracker, Entry, Inner, port_at}
use timely_dataflow.Reachability.Propagate.{put_port}
use timely_dataflow.Reachability.Ports.{
  sum_ports, sum_ports-put, sum_ports-lt, port_at-put, port_at-of-put,
}
use timely_dataflow.Reachability.Flow.{here, there}
use timely_dataflow.Reachability.Spread.{flow, LeadsTo}
use timely_dataflow.Reachability.Announce.{emitted, projection, Ends}

grow_sum : (a b z : ℕ) → a < word → add_i64 a 0 ≡ add_i64 b z → a ≡ add_i64 b z
grow_sum a b z h e = sym (add_i64-zero a h) ∙ e

module _ {ℓ κ} {T : Type ℓ} {TS : Type κ} where
  abbrev is_some : Option (PortInformation T TS) → Bool
  is_some none = false
  is_some (some info) = true

  -- The location is that of a port.
  unfoldable pub has_port : List (PerOperator T TS) → Location → Bool
  unfolding port_at
  has_port ops l = is_some (port_at ops l)

  pub has_port-elim :
      (ops : List (PerOperator T TS)) (l : Location)
      → has_port ops l ≡ true
      → (info : PortInformation T TS) × (port_at ops l ≡ some info)
  unfolding has_port
  has_port-elim ops l h =
      elim (port_at ops l)
          as (λ x. is_some x ≡ true → (info : PortInformation T TS) × (x ≡ some info)) [
            | none ↦ λ h. cc
            | some info ↦ λ h. (info, refl)
          ]
        h

  -- A write leaves every port a port.
  pub has_port-put :
      (l : Location) (new : PortInformation T TS) (ops : List (PerOperator T TS)) (m : Location)
      → has_port ops m ≡ true
      → has_port (put_port l new ops) m ≡ true
  unfolding has_port
  has_port-put l new ops m h =
      let (info, found) = has_port-elim ops m h in
      elim (port_at-put l.node l.port new ops m.node m.port info found) [
        | inl kept ↦ rw kept refl
        | inr (written, same) ↦ rw written refl
      ]

  -- And makes no port.
  pub has_port-of-put :
      (l : Location) (new : PortInformation T TS) (ops : List (PerOperator T TS)) (m : Location)
      → has_port (put_port l new ops) m ≡ true
      → has_port ops m ≡ true
  unfolding has_port
  has_port-of-put l new ops m h =
      let (info, found) = has_port-elim (put_port l new ops) m h in
      elim (port_at-of-put l.node l.port new ops m.node m.port info found) [
        | inl kept ↦ rw kept refl
        | inr (is_new, old, was) ↦ rw was refl
      ]

  -- What holds at every port, and of what is written, holds at every port after the write.
  pub put_port-All {μ} :
      (Q : PortInformation T TS → Type μ) (l : Location) (new : PortInformation T TS)
      (ops : List (PerOperator T TS))
      → ((m : Location) (info : PortInformation T TS) → port_at ops m ≡ some info → Q info)
      → Q new
      → (m : Location) (info : PortInformation T TS) → port_at (put_port l new ops) m ≡ some info
      → Q info
  put_port-All Q l new ops h q m info found =
      elim (port_at-of-put l.node l.port new ops m.node m.port info found) [
        | inl kept ↦ h m info kept
        | inr (is_new, old, was) ↦ subst Q is_new q
      ]

  -- What one port's share grows by, the sum over all ports grows by.
  pub sum_ports-grow :
      (f : Location → PortInformation T TS → ℕ) (l : Location) (info new : PortInformation T TS)
      (ops : List (PerOperator T TS)) (z : ℕ)
      → port_at ops l ≡ some info
      → add_i64 (f l info) z ≡ f l new
      → f l new < word
      → sum_ports f (put_port l new ops) ≡ add_i64 (sum_ports f ops) z
  sum_ports-grow f l info new ops z found e h =
      grow_sum _ _ z (sum_ports-lt f (put_port l new ops))
        (sum_ports-put f l.node l.port info new ops 0 z found (add_i64-zero (f l new) h ∙ sym e))

  -- A share that stays leaves the sum.
  pub sum_ports-keep :
      (f : Location → PortInformation T TS → ℕ) (l : Location) (info new : PortInformation T TS)
      (ops : List (PerOperator T TS))
      → port_at ops l ≡ some info
      → f l info ≡ f l new
      → sum_ports f (put_port l new ops) ≡ sum_ports f ops
  sum_ports-keep f l info new ops found e =
      sym (add_i64-zero _ (sum_ports-lt f (put_port l new ops)))
      ∙ sum_ports-put f l.node l.port info new ops 0 0 found (ap (λ c. add_i64 c 0) (sym e))
      ∙ add_i64-zero _ (sum_ports-lt f ops)

-- The counts of the pointstamps at a time and location.
unfoldable pub recorded {ℓ κ} :
    {T : Type ℓ} {TS : Type κ} ⦃e : Eq T⦄ → T × Location → List (PerOperator T TS) → ℕ
recorded k ops = sum_ports (λ l info. count k (here l info.pointstamps.updates.updates)) ops

pub recorded-lt {ℓ κ} :
    {T : Type ℓ} {TS : Type κ} ⦃e : Eq T⦄ (k : T × Location) (ops : List (PerOperator T TS))
    → recorded k ops < word
unfolding recorded
recorded-lt k ops = sum_ports-lt _ ops

-- Both antichains of a port have handed out their changes.
abbrev pub IsDrained {ℓ κ} : {T : Type ℓ} {TS : Type κ} → PortInformation T TS → Type ℓ
IsDrained info =
    (info.pointstamps.changes ≡ ChangeBatch.new) × (info.implications.changes ≡ ChangeBatch.new)

module _ {ℓ κ} {T : Type ℓ} {TS : Type κ} ⦃e : Eq T⦄ where
  -- The count of the time at the location among the implications.
  unfoldable pub implied : T × Location → List (PerOperator T TS) → ℕ
  implied k ops = sum_ports (λ l info. count k (here l info.implications.updates.updates)) ops

  -- Whether the time is in the frontier of the pointstamps at the location, as a count.
  unfoldable pub stamped : T × Location → List (PerOperator T TS) → ℕ
  stamped k ops = sum_ports (λ l info. count k (here l (each 1 info.pointstamps.frontier))) ops

  -- The same for the implications.
  unfoldable pub shown : Location × T → List (PerOperator T TS) → ℕ
  shown k ops = sum_ports (λ l info. count k (there l (each 1 info.implications.frontier))) ops

-- The number of times in all frontiers of pointstamps.
unfoldable pub active {ℓ κ} : {T : Type ℓ} {TS : Type κ} → List (PerOperator T TS) → ℕ
active ops = sum_ports (λ l info. sum_by (λ t d. d) (each 1 info.pointstamps.frontier)) ops

module _ {ℓ κ} {T : Type ℓ} {TS : Type κ} ⦃e : Eq T⦄ ⦃p : PartialOrder T⦄ ⦃o : Ord T⦄
    (s : PathSummary TS T) where
  -- How often the implications' frontiers of all ports come to a time and location in one hop.
  unfoldable pub inflow :
      List (Inner TS) → List (List (List Target)) → T × Location → List (PerOperator T TS) → ℕ
  inflow nodes edges k ops =
      sum_ports (λ l info. sum_by (flow s nodes edges k l) (each 1 info.implications.frontier)) ops

  -- How often the pointstamps' frontiers of all ports come to a time at an output of the scope.
  unfoldable pub projected : ℕ → T → List (PerOperator T TS) → ℕ
  projected n u ops =
      sum_ports
        (λ l info.
          sum_by (projection s n u info.output_summaries.tree) (each 1 info.pointstamps.frontier))
        ops

  -- The tracker fits its graph, and every change of an antichain has been handed out.
  pub record IsShaped (tracker : Tracker T TS) : Type (ℓ ⊔ κ) where
    pub leads :
        (l : Location)
        → has_port tracker.per_operator l ≡ true
        → LeadsTo s tracker.nodes tracker.edges (λ m. has_port tracker.per_operator m ≡ true) l
    pub ends :
        (l : Location) (info : PortInformation T TS)
        → port_at tracker.per_operator l ≡ some info
        → Ends s (length tracker.output_changes) info.output_summaries.tree
    pub drained :
        (l : Location) (info : PortInformation T TS)
        → port_at tracker.per_operator l ≡ some info
        → IsDrained info
    pub placed : All (λ (u : Entry T). has_port tracker.per_operator u.0.1 ≡ true) tracker.worklist
    pub summed : tracker.total_counts < word

  -- At every time and location, what is implied and what waits on the worklist add up to the
  -- pointstamps' frontier there and what flows in; the total is the number of active times.
  pub record IsBalanced (tracker : Tracker T TS) : Type ℓ where
    pub balance :
        (k : T × Location)
        → add_i64 (implied k tracker.per_operator) (count k tracker.worklist)
          ≡ add_i64
              (stamped k tracker.per_operator)
              (inflow tracker.nodes tracker.edges k tracker.per_operator)
    pub counted : tracker.total_counts ≡ active tracker.per_operator

  -- The graph still fits after a write to a port.
  pub leads-put :
      (nodes : List (Inner TS)) (edges : List (List (List Target))) (l : Location)
      (new : PortInformation T TS) (ops : List (PerOperator T TS))
      → ((m : Location)
          → has_port ops m ≡ true
          → LeadsTo s nodes edges (λ m. has_port ops m ≡ true) m)
      → (m : Location) → has_port (put_port l new ops) m ≡ true
      → LeadsTo s nodes edges (λ m. has_port (put_port l new ops) m ≡ true) m
  leads-put nodes edges l new ops h m found t =
      let (next, defined, all_in) = h m (has_port-of-put l new ops m found) t in
      (next, defined, All-imp (λ k. has_port-put l new ops k.1) next all_in)

  -- What changed between two trackers has been noted: the changes of the implications' frontiers in
  -- the pushed changes, those of the pointstamps' frontiers, projected, at the outputs.
  pub record IsNoted (before after : Tracker T TS) : Type ℓ where
    pub pushes :
        (k : Location × T)
        → add_i64 (count k after.pushed_changes.updates) (shown k before.per_operator)
          ≡ add_i64 (count k before.pushed_changes.updates) (shown k after.per_operator)
    pub outputs :
        (n : ℕ) (u : T)
        → add_i64 (count u (emitted after.output_changes n)) (projected n u before.per_operator)
          ≡ add_i64 (count u (emitted before.output_changes n)) (projected n u after.per_operator)

  pub IsNoted-refl : (x : Tracker T TS) → IsNoted x x
  IsNoted-refl x = record { pushes = λ k. refl; outputs = λ n u. refl }

  chain_sum :
      (a b c x y z : ℕ)
      → add_i64 b x ≡ add_i64 a y
      → add_i64 c y ≡ add_i64 b z
      → add_i64 c x ≡ add_i64 a z
  unfolding add_i64
  chain_sum a b c x y z h g = omega arith

  pub IsNoted-trans : (x y z : Tracker T TS) → IsNoted x y → IsNoted y z → IsNoted x z
  IsNoted-trans x y z h g = record {
    pushes = λ k.
        chain_sum _ (count k y.pushed_changes.updates) _ _ (shown k y.per_operator) _ (h.pushes k)
          (g.pushes k);
    outputs = λ n u.
        chain_sum _ (count u (emitted y.output_changes n)) _ _ (projected n u y.per_operator) _
          (h.outputs n u) (g.outputs n u);
  }
