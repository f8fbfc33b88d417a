-- ===== src/Reachability/Allocate.antt =====
-- The shape of what is allocated from a wired graph.
use timely_dataflow.Prelude.{
  ℕ, zero, suc, ◌<◌, ◌≡◌, refl, Bool, true, false, ◌==◌, ltb, List, [], ◌∷◌, map, length, Option,
  some, get_elem?, get_elem?-lt, modify, length-modify, All, arith,
}
use mathlib.Core.Option.{some-injective}
use timely_dataflow.Location.{Port, Location, new_source, location_eq}
use timely_dataflow.Location.Port.{target, source}
use timely_dataflow.Antichain.{Antichain}
use timely_dataflow.MutableAntichain
use timely_dataflow.Connectivity.{PortConnectivity}
use timely_dataflow.Reachability.{
  Inner, PortInformation, PerOperator, replicate, new_port, new_operator, port_at,
}
use timely_dataflow.Reachability.Propagate.{put_port}
use timely_dataflow.Reachability.Summaries.{assign}
use timely_dataflow.Reachability.Balance.{
  has_port, has_port-elim, has_port-put, has_port-of-put, put_port-All,
}
use timely_dataflow.Reachability.Wiring.{has_place, IsPlace}

module _ {ℓ} {A : Type ℓ} where
  pub get_elem?-replicate :
      (n i : ℕ) (x : A) → ltb i n ≡ true → get_elem? (replicate n x) i ≡ some x
  get_elem?-replicate zero i x h = absurd (ground arith)
  get_elem?-replicate (suc n) zero x h = refl
  get_elem?-replicate (suc n) (suc i) x h = get_elem?-replicate n i x (ground arith)

  replicate-get_elem? :
      (n i : ℕ) (x y : A) → get_elem? (replicate n x) i ≡ some y → (x ≡ y) × (ltb i n ≡ true)
  replicate-get_elem? zero i x y h = cc
  replicate-get_elem? (suc n) zero x y h = (some-injective x y h, ground arith)
  replicate-get_elem? (suc n) (suc i) x y h =
      let (same, lt) = replicate-get_elem? n i x y h in (same, ground arith)

module _ {ℓ κ} {T : Type ℓ} {TS : Type κ} where
  -- The ports before the summaries are assigned.
  abbrev pub fresh_ports : List (ℕ × ℕ) → List (PerOperator T TS)
  fresh_ports shape = map (λ io. new_operator io.0 io.1) shape

  -- Every place of the shape has a new port.
  pub port_at-fresh :
      (shape : List (ℕ × ℕ)) (n : ℕ) (port : Port)
      → IsPlace shape (record { node = n; port = port })
      → port_at (fresh_ports shape) (record { node = n; port = port }) ≡ some new_port
  unfolding port_at has_place new_operator
  port_at-fresh [] n port h = cc
  port_at-fresh (io ∷ shape) zero (target i) h = get_elem?-replicate io.0 i new_port h
  port_at-fresh (io ∷ shape) zero (source i) h = get_elem?-replicate io.1 i new_port h
  port_at-fresh (io ∷ shape) (suc n) (target i) h = port_at-fresh shape n (target i) h
  port_at-fresh (io ∷ shape) (suc n) (source i) h = port_at-fresh shape n (source i) h

  -- And no other port is there.
  pub port_at-fresh_only :
      (shape : List (ℕ × ℕ)) (n : ℕ) (port : Port) (info : PortInformation T TS)
      → port_at (fresh_ports shape) (record { node = n; port = port }) ≡ some info
      → IsPlace shape (record { node = n; port = port }) × (new_port ≡ info)
  unfolding port_at has_place new_operator
  port_at-fresh_only [] n port info h = cc
  port_at-fresh_only (io ∷ shape) zero (target i) info h =
      let (same, lt) = replicate-get_elem? io.0 i new_port info h in (lt, same)
  port_at-fresh_only (io ∷ shape) zero (source i) info h =
      let (same, lt) = replicate-get_elem? io.1 i new_port info h in (lt, same)
  port_at-fresh_only (io ∷ shape) (suc n) (target i) info h =
      port_at-fresh_only shape n (target i) info h
  port_at-fresh_only (io ∷ shape) (suc n) (source i) info h =
      port_at-fresh_only shape n (source i) info h

-- The scope's inputs have room in the summary of the scope.
abbrev pub HasRoom {κ} : (Location → Bool) → {TS : Type κ} → Inner TS → Type 0
HasRoom places outer = (i : ℕ) → places (new_source 0 i) ≡ true → i < length outer

module _ {ℓ κ} {T : Type ℓ} {TS : Type κ} (places : Location → Bool) (n : ℕ) where
  -- Ports as they are made: nothing is counted yet, and the summaries lead to one of `n` outputs.
  pub record IsFresh (info : PortInformation T TS) : Type (ℓ ⊔ κ) where
    pub no_stamps : info.pointstamps ≡ MutableAntichain.new
    pub no_implications : info.implications ≡ MutableAntichain.new
    pub bounded : All (λ (x : ℕ × Antichain TS). x.0 < n) info.output_summaries.tree

  -- The ports are those of the graph, and fresh.
  pub record AreFresh (ops : List (PerOperator T TS)) : Type (ℓ ⊔ κ) where
    pub there : (l : Location) → places l ≡ true → has_port ops l ≡ true
    pub only_there : (l : Location) → has_port ops l ≡ true → places l ≡ true
    pub fresh :
        (l : Location) (info : PortInformation T TS) → port_at ops l ≡ some info → IsFresh info

  -- What `assign` comes to.
  abbrev pub Assigns : Option (List (PerOperator T TS) × Inner TS) → Type (ℓ ⊔ κ)
  Assigns result = (out : List (PerOperator T TS) × Inner TS) × (result ≡ some out) × AreFresh out.0

  AreFresh-put :
      (l : Location) (info : PortInformation T TS) (c : PortConnectivity TS)
      (ops : List (PerOperator T TS))
      → port_at ops l ≡ some info
      → All (λ (x : ℕ × Antichain TS). x.0 < n) c.tree
      → AreFresh ops
      → AreFresh (put_port l (record info { output_summaries = c }) ops)
  AreFresh-put l info c ops found ends f = record {
    there = λ m p. has_port-put l _ ops m (f.there m p);
    only_there = λ m h. f.only_there m (has_port-of-put l _ ops m h);
    fresh = put_port-All IsFresh l _ ops f.fresh (record {
      no_stamps = (f.fresh l info found).no_stamps;
      no_implications = (f.fresh l info found).no_implications;
      bounded = ends;
    });
  }

  -- One round, with what the other rounds come to.
  assign_one :
      (node : ℕ) (port : Port) (c : PortConnectivity TS)
      (results : List (Location × PortConnectivity TS)) (ops : List (PerOperator T TS))
      (outer : Inner TS)
      → places (record { node = node; port = port }) ≡ true
      → All (λ (x : ℕ × Antichain TS). x.0 < n) c.tree
      → HasRoom places outer
      → AreFresh ops
      → ((ops' : List (PerOperator T TS)) (outer' : Inner TS)
          → HasRoom places outer'
          → AreFresh ops'
          → Assigns (assign results ops' outer'))
      → Assigns (assign ((record { node = node; port = port }, c) ∷ results) ops outer)
  unfolding assign
  assign_one zero (source i) c results ops outer q r o f rec =
      let (old, found) = get_elem?-lt outer i (o i q) in
      let long = length-modify i (λ _. c) outer in
      let (out, runs, done) = rec ops (modify i (λ _. c) outer) (λ j h. rw long (o j h)) f in
      (out, rw found runs, done)
  assign_one zero (target i) c results ops outer q r o f rec = rec ops outer o f
  assign_one (suc node) port c results ops outer q r o f rec =
      let l : Location = record { node = suc node; port = port } in
      let (info, found) = has_port-elim ops l (f.there l q) in
      let away : (suc node == 0) ≡ false = ground arith in
      let (out, runs, done) =
        rec (put_port l (record info { output_summaries = c }) ops) outer o
          (AreFresh-put l info c ops found r f) in
      (out, rw (away, assign, found) runs, done)

  pub assign-AreFresh :
      (results : List (Location × PortConnectivity TS)) (ops : List (PerOperator T TS))
      (outer : Inner TS)
      → All (λ (r : Location × PortConnectivity TS). places r.0 ≡ true) results
      → All
          (λ (r : Location × PortConnectivity TS). All (λ (x : ℕ × Antichain TS). x.0 < n) r.1.tree)
          results
      → HasRoom places outer
      → AreFresh ops
      → Assigns (assign results ops outer)
  unfolding assign
  assign-AreFresh [] ops outer q r o f = ((ops, outer), refl, f)
  assign-AreFresh ((l, c) ∷ results) ops outer q r o f =
      assign_one l.node l.port c results ops outer q.0 r.0 o f
        (λ ops' outer' o' f'. assign-AreFresh results ops' outer' q.1 r.1 o' f')
