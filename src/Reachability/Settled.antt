-- ===== src/Reachability/Settled.antt =====
-- A tracker with nothing left to circulate: its implications port by port.
use timely_dataflow.Prelude.{
  ℕ, zero, suc, ◌+◌, ◌≤◌, ◌<◌, ◌≡◌, ◌≢◌, refl, sym, ap, subst, ◌∙◌, true, false, Bool-cases, inl,
  inr, arith, List, [], ◌∷◌, some, get_elem?, sum_from, add_i64, add_i64-zero, zero-add_i64, word,
}
use mathlib.Core.Option.{some-injective}
use timely_dataflow.Order.{Eq, PartialOrder, Ord}
use timely_dataflow.Order.Pair.{pair_eq, pair_ord}
use timely_dataflow.Location.{
  Port, Location, new_target, new_source, from_target, from_source, is_target, tagged, location_eq,
  location_ord,
}
use timely_dataflow.Location.Port.{target, source}
use timely_dataflow.ChangeBatch.{Update}
use timely_dataflow.ChangeBatch.Count.{count, count-lt}
use timely_dataflow.MutableAntichain.Loop.{each}
use timely_dataflow.Timestamp.{PathSummary}
use timely_dataflow.Reachability.{PortInformation, PerOperator, Tracker, port_at}
use timely_dataflow.Reachability.Ports.{sum_ports, sum_operator, sum_ports-lt, some-of-bind}
use timely_dataflow.Reachability.Flow.{here, count-here}
use timely_dataflow.Reachability.Balance.{implied, stamped, inflow, IsShaped, IsBalanced}
use timely_dataflow.Reachability.Propagate.{propagate_all}
use timely_dataflow.Reachability.Correct.{IsBuffer, propagate_all_correct}

module _ {ℓ} {A : Type ℓ} (g : ℕ → A → ℕ) where
  -- A sum of zeroes.
  sum_from-vanish :
      (n : ℕ) (xs : List A) → ((j : ℕ) (y : A) → n ≤ j → g j y ≡ 0) → sum_from g n xs ≡ 0
  sum_from-vanish n [] h = refl
  sum_from-vanish n (x ∷ xs) h =
      rw (h n x (omega arith), sum_from-vanish (suc n) xs (λ j y le. h j y (omega arith)))
        (add_i64-zero 0 (omega arith))

  -- A sum of which one summand alone is not zero.
  sum_from-single :
      (n i m : ℕ) (xs : List A) (x : A)
      → m ≡ n + i
      → get_elem? xs i ≡ some x
      → ((j : ℕ) (y : A) → j ≢ m → g j y ≡ 0)
      → g m x < word
      → sum_from g n xs ≡ g m x
  sum_from-single n i m [] x e at h r = cc
  sum_from-single n zero m (y ∷ xs) x e at h r =
      let same : y ≡ x = cc in
      let here_n : n ≡ m = omega arith in
      rw (sum_from-vanish (suc n) xs (λ j z le. h j z (λ q. absurd (omega arith))), same, here_n)
        (add_i64-zero (g m x) r)
  sum_from-single n (suc i) m (y ∷ xs) x e at h r =
      rw (h n y (λ q. absurd (omega arith)), sum_from-single (suc n) i m xs x (omega arith) at h r)
        (zero-add_i64 (g m x) r)

other_side : (node i j : ℕ) → new_source node j ≡ new_target node i → ⊥
other_side node i j q = let b : false ≡ true = ap (λ (m : Location). is_target m) q in cc

module _ {ℓ κ} {T : Type ℓ} {TS : Type κ} (f : Location → PortInformation T TS → ℕ) where
  operator-vanish :
      (node : ℕ) (op : PerOperator T TS)
      → ((port : Port) (i : PortInformation T TS) → f (record { node = node; port = port }) i ≡ 0)
      → sum_operator f node op ≡ 0
  unfolding sum_operator
  operator-vanish node op h =
      rw
        (
          sum_from-vanish (λ i. f (new_target node i)) 0 op.targets (λ j y le. h (target j) y),
          sum_from-vanish (λ i. f (new_source node i)) 0 op.sources (λ j y le. h (source j) y),
        )
        (add_i64-zero 0 (omega arith))

  -- A sum over ports to which one port alone contributes.
  sum_ports-single :
      (node : ℕ) (port : Port) (info : PortInformation T TS) (ops : List (PerOperator T TS))
      → let l : Location = record { node = node; port = port } in
        port_at ops l ≡ some info
        → ((m : Location) (i : PortInformation T TS) → m ≢ l → f m i ≡ 0)
        → f l info < word
        → sum_ports f ops ≡ f l info
  unfolding sum_ports sum_operator port_at
  sum_ports-single node (target i) info ops at h r =
      let (op, at_node, at_port) = some-of-bind (get_elem? ops node) _ info at in
      let l : Location = record { node = node; port = target i } in
      let inner : sum_from (λ j. f (new_target node j)) 0 op.targets ≡ f l info =
        sum_from-single (λ j. f (new_target node j)) 0 i i op.targets info (omega arith) at_port
          (λ j y away.
            h (new_target node j) y (λ q. away (ap (λ (m : Location). (tagged m.port).1) q)))
          r in
      let outer : sum_from (λ j. f (new_source node j)) 0 op.sources ≡ 0 =
        sum_from-vanish (λ j. f (new_source node j)) 0 op.sources
          (λ j y le. h (new_source node j) y (λ q. other_side node i j q)) in
      let whole : sum_operator f node op ≡ f l info =
        rw (inner, outer) (add_i64-zero (f l info) r) in
      sum_from-single (sum_operator f) 0 node node ops op (omega arith) at_node
        (λ j y away.
          operator-vanish j y (λ port z. h _ z (λ q. away (ap (λ (m : Location). m.node) q))))
        (subst (λ x. x < word) (sym whole) r)
      ∙ whole
  sum_ports-single node (source i) info ops at h r =
      let (op, at_node, at_port) = some-of-bind (get_elem? ops node) _ info at in
      let l : Location = record { node = node; port = source i } in
      let inner : sum_from (λ j. f (new_source node j)) 0 op.sources ≡ f l info =
        sum_from-single (λ j. f (new_source node j)) 0 i i op.sources info (omega arith) at_port
          (λ j y away.
            h (new_source node j) y (λ q. away (ap (λ (m : Location). (tagged m.port).1) q)))
          r in
      let outer : sum_from (λ j. f (new_target node j)) 0 op.targets ≡ 0 =
        sum_from-vanish (λ j. f (new_target node j)) 0 op.targets
          (λ j y le. h (new_target node j) y (λ q. other_side node j i (sym q))) in
      let whole : sum_operator f node op ≡ f l info =
        rw (inner, outer) (zero-add_i64 (f l info) r) in
      sum_from-single (sum_operator f) 0 node node ops op (omega arith) at_node
        (λ j y away.
          operator-vanish j y (λ port z. h _ z (λ q. away (ap (λ (m : Location). m.node) q))))
        (subst (λ x. x < word) (sym whole) r)
      ∙ whole

module _ {ℓ κ} {T : Type ℓ} {TS : Type κ} ⦃e : Eq T⦄ where
  -- The sum of what ports hold at a location is what its port holds.
  at-location :
      (held : PortInformation T TS → List (Update T)) (t : T) (l : Location)
      (info : PortInformation T TS) (ops : List (PerOperator T TS))
      → port_at ops l ≡ some info
      → sum_ports (λ m i. count (t, l) (here m (held i))) ops ≡ count t (held info)
  at-location held t l info ops at =
      sum_ports-single (λ m i. count (t, l) (here m (held i))) l.node l.port info ops at
        (λ m i away. count-here t l m (held i) ∙ elim (Bool-cases (location_eq.equal m l)) [
          | inl same ↦ absurd (away (location_eq.eq_of_equal m l same))
          | inr other ↦ rw other refl
        ])
        (count-lt (t, l) (here l (held info)))
      ∙ count-here t l l (held info)
      ∙ rw (location_eq.equal_refl l) refl

module _ {ℓ κ} {T : Type ℓ} {TS : Type κ} ⦃e : Eq T⦄ ⦃p : PartialOrder T⦄ ⦃o : Ord T⦄
    (s : PathSummary TS T) where
  -- With an empty worklist the balance is one of the implications alone.
  implications_settled :
      (tracker : Tracker T TS) (t : T) (l : Location) (info : PortInformation T TS)
      → IsBalanced s tracker
      → tracker.worklist ≡ []
      → port_at tracker.per_operator l ≡ some info
      → count t info.implications.updates.updates
        ≡ add_i64
            (count t (each 1 info.pointstamps.frontier))
            (inflow s tracker.nodes tracker.edges (t, l) tracker.per_operator)
  unfolding implied stamped count
  implications_settled tracker t l info b none_left at =
      let ops = tracker.per_operator in
      sym (at-location (λ i. i.implications.updates.updates) t l info ops at)
      ∙ sym (add_i64-zero (implied (t, l) ops) (sum_ports-lt _ ops))
      ∙ ap (λ us. add_i64 (implied (t, l) ops) (count (t, l) us)) (sym none_left)
      ∙ b.balance (t, l)
      ∙ ap (λ c. add_i64 c (inflow s tracker.nodes tracker.edges (t, l) ops))
          (at-location (λ i. each 1 i.pointstamps.frontier) t l info ops at)

  -- Where `propagate_all`, on a tracker that fits its graph and is balanced, has run until its worklist
  -- is empty, the implications of each port are at a fixed point: the count of a time is one if the
  -- time is in the frontier of the port's pointstamps, else zero, and besides one for each way in which
  -- a time in the frontier of the implications of some port comes to it over one edge or one summary
  -- (all modulo 2 ^ 64).
  pub propagate_all-settled :
      (rounds : ℕ) (before after : Tracker T TS) (t : T) (l : Location)
      (info : PortInformation T TS)
      → IsShaped s before
      → IsBalanced s before
      → IsBuffer from_target before.per_operator before.target_changes
      → IsBuffer from_source before.per_operator before.source_changes
      → propagate_all s rounds before ≡ some after
      → after.worklist ≡ []
      → port_at after.per_operator l ≡ some info
      → count t info.implications.updates.updates
        ≡ add_i64
            (count t (each 1 info.pointstamps.frontier))
            (inflow s after.nodes after.edges (t, l) after.per_operator)
  propagate_all-settled rounds before after t l info h b ts ss runs none_left at =
      let (out, runs', done) = propagate_all_correct s rounds before h b ts ss in
      let same : out ≡ after = some-injective out after (sym runs' ∙ runs) in
      implications_settled after t l info (subst (IsBalanced s) same done.progress.balanced)
        none_left at
