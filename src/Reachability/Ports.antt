-- ===== src/Reachability/Ports.antt =====
-- What a write to one port of a tracker changes: the sums over all ports and the port at a location.
use timely_dataflow.Prelude.{
  ℕ, ◌<◌, ◌≡◌, refl, sym, inl, inr, arith, List, Option, none, some, get_elem?, modify, sum_from,
  sum_from_zero-modify, sum_from-lt, add_i64, modify_before, modify_after, ◌⊎◌, word,
}
use timely_dataflow.Location.{Port, Location, new_target, new_source, location_eq}
use timely_dataflow.Location.Port.{target, source}
use timely_dataflow.Timestamp.{◌>>=◌}
use timely_dataflow.Reachability.{PortInformation, PerOperator, port_at}
use timely_dataflow.Reachability.Propagate.{put_port}

-- A chain of options that has a result has each of its results.
pub some-of-bind {ℓ κ} :
    {A : Type ℓ} {B : Type κ} (x : Option A) (f : A → Option B) (b : B)
    → (x >>= f) ≡ some b
    → (a : A) × (x ≡ some a) × (f a ≡ some b)
some-of-bind none f b h = cc
some-of-bind (some a) f b h = (a, refl, h)

left_part :
    (u v r a b : ℕ) → add_i64 u a ≡ add_i64 v b → add_i64 (add_i64 u r) a ≡ add_i64 (add_i64 v r) b
unfolding add_i64
left_part u v r a b h = omega arith

right_part :
    (u v r a b : ℕ) → add_i64 u a ≡ add_i64 v b → add_i64 (add_i64 r u) a ≡ add_i64 (add_i64 r v) b
unfolding add_i64
right_part u v r a b h = omega arith

module _ {ℓ κ} {T : Type ℓ} {TS : Type κ} (f : Location → PortInformation T TS → ℕ) where
  unfoldable pub sum_operator : ℕ → PerOperator T TS → ℕ
  sum_operator node op =
      add_i64 (sum_from (λ i. f (new_target node i)) 0 op.targets)
        (sum_from (λ i. f (new_source node i)) 0 op.sources)

  -- The wrapping sum of `f` over all ports.
  unfoldable pub sum_ports : List (PerOperator T TS) → ℕ
  unfolding sum_operator
  sum_ports ops = sum_from sum_operator 0 ops

  pub sum_ports-lt : (ops : List (PerOperator T TS)) → sum_ports ops < word
  unfolding sum_ports
  sum_ports-lt ops = sum_from-lt sum_operator 0 ops

  pub sum_ports-put :
      (node : ℕ) (port : Port) (info new : PortInformation T TS) (ops : List (PerOperator T TS))
      (a b : ℕ)
      → port_at ops (record { node = node; port = port }) ≡ some info
      → add_i64 (f (record { node = node; port = port }) new) a
        ≡ add_i64 (f (record { node = node; port = port }) info) b
      → add_i64 (sum_ports (put_port (record { node = node; port = port }) new ops)) a
        ≡ add_i64 (sum_ports ops) b
  unfolding sum_ports sum_operator port_at put_port
  sum_ports-put node (target i) info new ops a b h e =
      let (op, at_node, at_port) = some-of-bind (get_elem? ops node) _ info h in
      sum_from_zero-modify sum_operator node _ ops op a b at_node (
        left_part _ _ (sum_from (λ i. f (new_source node i)) 0 op.sources) a b (
          sum_from_zero-modify (λ i. f (new_target node i)) i (λ _. new) op.targets info a b at_port
            e))
  sum_ports-put node (source i) info new ops a b h e =
      let (op, at_node, at_port) = some-of-bind (get_elem? ops node) _ info h in
      sum_from_zero-modify sum_operator node _ ops op a b at_node (
        right_part _ _ (sum_from (λ i. f (new_target node i)) 0 op.targets) a b (
          sum_from_zero-modify (λ i. f (new_source node i)) i (λ _. new) op.sources info a b at_port
            e))

module _ {ℓ κ} {T : Type ℓ} {TS : Type κ} where
  -- A port that is there stays there, as it was or, at the location of the write, with what is written.
  pub port_at-put :
      (node : ℕ) (port : Port) (new : PortInformation T TS) (ops : List (PerOperator T TS))
      (node' : ℕ) (port' : Port) (info : PortInformation T TS)
      → port_at ops (record { node = node'; port = port' }) ≡ some info
      → let l : Location = record { node = node; port = port } in
        let m : Location = record { node = node'; port = port' } in
        (port_at (put_port l new ops) m ≡ some info)
        ⊎ ((port_at (put_port l new ops) m ≡ some new) × (l ≡ m))
  unfolding port_at put_port
  port_at-put node (target i) new ops node' (target j) info h =
      let (op, at_node, at_port) = some-of-bind (get_elem? ops node') _ info h in
      elim (modify_after node node' (λ op. record op { targets = modify i (λ _. new) op.targets })
        ops op at_node) [
          | inl kept ↦ inl (rw kept at_port)
          | inr (written, same) ↦ elim (modify_after i j (λ _. new) op.targets info at_port) [
            | inl kept ↦ inl (rw written kept)
            | inr (here, same_port) ↦
                inr (rw written here, λ x. record { node = same x; port = target (same_port x) })
          ]
        ]
  port_at-put node (target i) new ops node' (source j) info h =
      let (op, at_node, at_port) = some-of-bind (get_elem? ops node') _ info h in
      elim (modify_after node node' (λ op. record op { targets = modify i (λ _. new) op.targets })
        ops op at_node) [
          | inl kept ↦ inl (rw kept at_port)
          | inr (written, same) ↦ inl (rw written at_port)
        ]
  port_at-put node (source i) new ops node' (target j) info h =
      let (op, at_node, at_port) = some-of-bind (get_elem? ops node') _ info h in
      elim (modify_after node node' (λ op. record op { sources = modify i (λ _. new) op.sources })
        ops op at_node) [
          | inl kept ↦ inl (rw kept at_port)
          | inr (written, same) ↦ inl (rw written at_port)
        ]
  port_at-put node (source i) new ops node' (source j) info h =
      let (op, at_node, at_port) = some-of-bind (get_elem? ops node') _ info h in
      elim (modify_after node node' (λ op. record op { sources = modify i (λ _. new) op.sources })
        ops op at_node) [
          | inl kept ↦ inl (rw kept at_port)
          | inr (written, same) ↦ elim (modify_after i j (λ _. new) op.sources info at_port) [
            | inl kept ↦ inl (rw written kept)
            | inr (here, same_port) ↦
                inr (rw written here, λ x. record { node = same x; port = source (same_port x) })
          ]
        ]

  -- What stands at a port after a write stood there before or is what was written.
  pub port_at-of-put :
      (node : ℕ) (port : Port) (new : PortInformation T TS) (ops : List (PerOperator T TS))
      (node' : ℕ) (port' : Port) (info : PortInformation T TS)
      → let l : Location = record { node = node; port = port } in
        let m : Location = record { node = node'; port = port' } in
        port_at (put_port l new ops) m ≡ some info
        → (port_at ops m ≡ some info)
          ⊎ ((new ≡ info) × (old : PortInformation T TS) × (port_at ops m ≡ some old))
  unfolding port_at put_port
  port_at-of-put node (target i) new ops node' (target j) info h =
      let (op', at_node, at_port) =
        some-of-bind
          (get_elem?
            (modify node (λ op. record op { targets = modify i (λ _. new) op.targets }) ops) node')
          _ info h in
      elim (modify_before node node' (λ op. record op { targets = modify i (λ _. new) op.targets })
        ops op' at_node) [
          | inl kept ↦ inl (rw kept at_port)
          | inr (op, at, value, same) ↦
              let at_port' = rw (sym value) at at_port in
              elim (modify_before i j (λ _. new) op.targets info at_port') [
                | inl kept ↦ inl (rw at kept)
                | inr (x, there, is_new, same_port) ↦ inr (is_new, x, rw at there)
              ]
        ]
  port_at-of-put node (target i) new ops node' (source j) info h =
      let (op', at_node, at_port) =
        some-of-bind
          (get_elem?
            (modify node (λ op. record op { targets = modify i (λ _. new) op.targets }) ops) node')
          _ info h in
      elim (modify_before node node' (λ op. record op { targets = modify i (λ _. new) op.targets })
        ops op' at_node) [
          | inl kept ↦ inl (rw kept at_port)
          | inr (op, at, value, same) ↦
              let at_port' = rw (sym value) at at_port in inl (rw at at_port')
        ]
  port_at-of-put node (source i) new ops node' (target j) info h =
      let (op', at_node, at_port) =
        some-of-bind
          (get_elem?
            (modify node (λ op. record op { sources = modify i (λ _. new) op.sources }) ops) node')
          _ info h in
      elim (modify_before node node' (λ op. record op { sources = modify i (λ _. new) op.sources })
        ops op' at_node) [
          | inl kept ↦ inl (rw kept at_port)
          | inr (op, at, value, same) ↦
              let at_port' = rw (sym value) at at_port in inl (rw at at_port')
        ]
  port_at-of-put node (source i) new ops node' (source j) info h =
      let (op', at_node, at_port) =
        some-of-bind
          (get_elem?
            (modify node (λ op. record op { sources = modify i (λ _. new) op.sources }) ops) node')
          _ info h in
      elim (modify_before node node' (λ op. record op { sources = modify i (λ _. new) op.sources })
        ops op' at_node) [
          | inl kept ↦ inl (rw kept at_port)
          | inr (op, at, value, same) ↦
              let at_port' = rw (sym value) at at_port in
              elim (modify_before i j (λ _. new) op.sources info at_port') [
                | inl kept ↦ inl (rw at kept)
                | inr (x, there, is_new, same_port) ↦ inr (is_new, x, rw at there)
              ]
        ]
