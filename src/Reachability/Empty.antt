-- ===== src/Reachability/Empty.antt =====
-- Sums over ports with nothing to add, and where one comes from a port of a wired graph.
use timely_dataflow.Prelude.{
  ℕ, suc, ◌+◌, ◌≡◌, refl, subst, List, [], ◌∷◌, map, some, get_elem?, sum_from, zero_add, add_suc,
  add_zero, All, All-append, arith, add_i64-zero,
}
use timely_dataflow.Order.{Eq, PartialOrder, Ord}
use timely_dataflow.Location.{
  Port, Location, Target, new_target, new_source, from_target, location_eq,
}
use timely_dataflow.Location.Port.{target, source}
use timely_dataflow.Antichain.{Antichain}
use timely_dataflow.Timestamp.{PathSummary}
use timely_dataflow.Reachability.{PortInformation, PerOperator, port_at}
use timely_dataflow.Reachability.Propagate.{outcomes, crossing, along, consequences}
use timely_dataflow.Reachability.Ports.{sum_ports, sum_operator, some-of-bind}
use timely_dataflow.Reachability.Builder.{Builder}
use timely_dataflow.Reachability.Spread.{LeadsTo}
use timely_dataflow.Reachability.Wiring.{IsPlace, IsWired}

sum_from-empty {ℓ} :
    {A : Type ℓ} (g : ℕ → A → ℕ) (n : ℕ) (xs : List A)
    → ((j : ℕ) (y : A) → get_elem? xs j ≡ some y → g (n + j) y ≡ 0)
    → sum_from g n xs ≡ 0
sum_from-empty g n [] h = refl
sum_from-empty g n (x ∷ xs) h =
    rw
      (
        subst (λ m. g m x ≡ 0) (add_zero n) (h 0 x refl),
        sum_from-empty g (suc n) xs
            (λ j y at. subst (λ m. g m y ≡ 0) (add_suc n j) (h (suc j) y at)),
      )
      (add_i64-zero 0 (omega arith))

module _ {ℓ κ} {T : Type ℓ} {TS : Type κ} where
  -- A sum over ports that have nothing to add.
  pub sum_ports-empty :
      (f : Location → PortInformation T TS → ℕ) (ops : List (PerOperator T TS))
      → ((l : Location) (info : PortInformation T TS) → port_at ops l ≡ some info → f l info ≡ 0)
      → sum_ports f ops ≡ 0
  unfolding sum_ports sum_operator port_at
  sum_ports-empty f ops h = sum_from-empty (sum_operator f) 0 ops (λ j op at.
      rw
        (
          sum_from-empty (λ i. f (new_target (0 + j) i)) 0 op.targets
              (λ i y here.
                at_zero (λ n m. f (new_target n m) y) j i (h (new_target j i) y (rw at here))),
          sum_from-empty (λ i. f (new_source (0 + j) i)) 0 op.sources
              (λ i y here.
                at_zero (λ n m. f (new_source n m) y) j i (h (new_source j i) y (rw at here))),
        )
        (add_i64-zero 0 (omega arith)))
    where
      at_zero : (g : ℕ → ℕ → ℕ) (j i : ℕ) → g j i ≡ 0 → g (0 + j) (0 + i) ≡ 0
      at_zero g j i e = rw (zero_add j, zero_add i) e

module _ {ℓ κ} {T : Type ℓ} {TS : Type κ} (s : PathSummary TS T) where
  crossing-All :
      (P : Location → Type 0) (node : ℕ) (tree : List (ℕ × Antichain TS)) (time : T)
      → All (λ (x : ℕ × Antichain TS). P (new_source node x.0)) tree
      → All (λ (k : T × Location). P k.1) (crossing s node tree time)
  crossing-All P node [] time h = tt
  crossing-All P node ((o, ss) ∷ rest) time h =
      All-append (λ (k : T × Location). P k.1)
        (map (λ t. (t, new_source node o)) (outcomes s ss.elements time))
        (crossing s node rest time) (all_there (outcomes s ss.elements time))
        (crossing-All P node rest time h.1)
    where
      all_there :
          (ts : List T) → All (λ (k : T × Location). P k.1) (map (λ t. (t, new_source node o)) ts)
      all_there [] = tt
      all_there (t ∷ ts) = (h.0, all_there ts)

  along-All :
      (P : Location → Type 0) (tos : List Target) (time : T)
      → All (λ to. P (from_target to)) tos
      → All (λ (k : T × Location). P k.1) (along s tos time)
  along-All P [] time h = tt
  along-All P (to ∷ tos) time h = (h.0, along-All P tos time h.1)

module _ {ℓ κ} {T : Type ℓ} {TS : Type κ} ⦃e : Eq T⦄ ⦃p : PartialOrder T⦄ ⦃o : Ord T⦄
    (s : PathSummary TS T) where
  -- From a port of a wired graph one comes to ports only.
  pub leads-of-IsWired :
      (b : Builder TS) (node : ℕ) (port : Port)
      → IsWired b
      → IsPlace b.shape (record { node = node; port = port })
      → LeadsTo s b.nodes b.edges (IsPlace b.shape) (record { node = node; port = port })
  unfolding consequences
  leads-of-IsWired b node (target i) w h t =
      let (c, at) = w.inner node i h in
      let (ins, here, there) = some-of-bind (get_elem? b.nodes node) _ c at in
      (
        crossing s node c.tree t,
        rw (here, there) refl,
        crossing-All s (IsPlace b.shape) node c.tree t (w.inner_at node i c at).1,
      )
  leads-of-IsWired b node (source i) w h t =
      let (tos, at) = w.outer node i h in
      let (outs, here, there) = some-of-bind (get_elem? b.edges node) _ tos at in
      (
        along s tos t,
        rw (here, there) refl,
        along-All s (IsPlace b.shape) tos t (w.outer_at node i tos at).1,
      )
