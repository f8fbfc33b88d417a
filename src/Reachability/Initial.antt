-- ===== src/Reachability/Initial.antt =====
-- The tracker that is allocated from a wired graph, with its summaries.
use timely_dataflow.Prelude.{
  ℕ, zero, suc, ◌<◌, ◌≡◌, refl, sym, ap, subst, Bool, true, Bool-cases, ◌==◌, ltb, List, [], ◌∷◌,
  map, retain, length, some, get_elem?, zero_add, All, All-append, All-imp, arith, inl, inr,
}
use timely_dataflow.Order.{Eq, PartialOrder, Ord}
use timely_dataflow.Location.{Location, Target, from_target, location_eq}
use timely_dataflow.ChangeBatch
use timely_dataflow.ChangeBatch.Count.{count}
use timely_dataflow.ChangeBatch.Additive.{sum_by}
use timely_dataflow.MutableAntichain
use timely_dataflow.Connectivity.{default}
use timely_dataflow.Timestamp.{PathSummary}
use timely_dataflow.Reachability.{Inner, PerOperator, Tracker, replicate, new_port}
use timely_dataflow.Reachability.Builder.{Builder}
use timely_dataflow.Reachability.Summaries.{
  concat, reverse_edges, reverse_nodes, summarize_outputs, allocate_from,
}
use timely_dataflow.Reachability.Balance.{
  has_port, has_port-elim, implied, stamped, inflow, active, IsShaped, IsBalanced,
}
use timely_dataflow.Reachability.Wiring.{has_place, IsPlace, at_both, IsWired, reverse_edges-All}
use timely_dataflow.Reachability.Backward.{IsFound, reverse_nodes-IsInternal, walk-IsFound}
use timely_dataflow.Reachability.Allocate.{
  IsFresh, AreFresh, HasRoom, assign-AreFresh, port_at-fresh, port_at-fresh_only, fresh_ports,
}
use timely_dataflow.Reachability.Empty.{sum_ports-empty, leads-of-IsWired}

module _ {ℓ κ} {A : Type ℓ} (Q : A → Type κ) where
  indexed-All : (xs : List A) → ((i : ℕ) (x : A) → get_elem? xs i ≡ some x → Q x) → All Q xs
  indexed-All [] h = tt
  indexed-All (x ∷ xs) h = (h 0 x refl, indexed-All xs (λ i y at. h (suc i) y at))

  concat-All : (xss : List (List A)) → All (λ xs. All Q xs) xss → All Q (concat xss)
  concat-All [] h = tt
  concat-All (xs ∷ xss) h = All-append Q xs (concat xss) h.0 (concat-All xss h.1)

  -- What holds at each index of both holds of all.
  both-All :
      (xsss : List (List A))
      → ((n i : ℕ) (x : A) → at_both xsss n i ≡ some x → Q x)
      → All Q (concat xsss)
  both-All xsss h = concat-All xsss (all_lists xsss h)
    where
      all_lists :
          (xsss : List (List A))
          → ((n i : ℕ) (x : A) → at_both xsss n i ≡ some x → Q x)
          → All (λ xs. All Q xs) xsss
      all_lists [] h = tt
      all_lists (xs ∷ xsss) h =
          (indexed-All xs (λ i x at. h 0 i x at), all_lists xsss (λ n i x at. h (suc n) i x at))

length-replicate {ℓ} : {A : Type ℓ} (n : ℕ) (x : A) → length (replicate n x) ≡ n
length-replicate zero x = refl
length-replicate (suc n) x = ap suc (length-replicate n x)

module _ {ℓ κ} {T : Type ℓ} {TS : Type κ} ⦃p : PartialOrder TS⦄ (s : PathSummary TS T) where
  -- The first paths end at outputs of the scope.
  outputs-bounded :
      (shape : List (ℕ × ℕ)) (io : ℕ × ℕ) (tos : List Target)
      → get_elem? shape 0 ≡ some io
      → All (λ to. IsPlace shape (from_target to)) tos
      → All
          (λ (w : Location × (ℕ × TS)). w.1.0 < io.0)
          (map
            (λ (to : Target). (from_target to, (to.port, s.default)))
            (retain (λ (to : Target). to.node == 0) tos))
  unfolding has_place
  outputs-bounded shape io [] at h = tt
  outputs-bounded shape io (to ∷ tos) at h = elim (Bool-cases (to.node == 0)) [
    | inl outer ↦
        let first : to.node ≡ 0 = ground arith in
        let within : ltb to.port io.0 ≡ true = rw (first, at) at h.0 in
        rw outer (ground arith, outputs-bounded shape io tos at h.1)
    | inr inner ↦ rw inner (outputs-bounded shape io tos at h.1)
  ]

  -- All that is found stands at ports and leads to outputs of the scope.
  summarize_outputs-IsFound :
      (rounds : ℕ) (b : Builder TS) (io : ℕ × ℕ)
      → IsWired b
      → get_elem? b.shape 0 ≡ some io
      → IsFound (IsPlace b.shape) io.0 (summarize_outputs s rounds b.nodes b.edges)
  unfolding summarize_outputs
  summarize_outputs-IsFound rounds b io w at =
      walk-IsFound s (IsPlace b.shape) io.0 rounds (reverse_edges 0 b.edges [])
        (reverse_nodes 0 b.nodes []) _
        (reverse_edges-All (IsPlace b.shape) 0 b.edges []
          (λ n i tos here. rw (zero_add n) (w.outer_at n i tos here).0) tt)
        (reverse_nodes-IsInternal (IsPlace b.shape) 0 b.nodes []
          (λ n i c here. rw (zero_add n) (w.inner_at n i c here).0) tt)
        (record {
          placed = tt;
          ends = tt;
          waiting = outputs-bounded b.shape io (concat (concat b.edges)) at (
              concat-All (λ to. IsPlace b.shape (from_target to)) (concat b.edges)
                (both-All (λ tos. All (λ to. IsPlace b.shape (from_target to)) tos) b.edges
                  (λ n i tos here. (w.outer_at n i tos here).1)));
        })

module _ {ℓ κ} {T : Type ℓ} {TS : Type κ} ⦃e : Eq T⦄ ⦃p : PartialOrder T⦄ ⦃o : Ord T⦄
    (s : PathSummary TS T) where
  -- A tracker on the graph of a builder, with ports as they are made.
  abbrev tracker_on : Builder TS → List (PerOperator T TS) → ℕ → Tracker T TS
  tracker_on b ops n = record {
    nodes = b.nodes;
    edges = b.edges;
    per_operator = ops;
    target_changes = ChangeBatch.new;
    source_changes = ChangeBatch.new;
    worklist = [];
    pushed_changes = ChangeBatch.new;
    output_changes = replicate n ChangeBatch.new;
    total_counts = 0;
  }

  tracker_on-IsShaped :
      (b : Builder TS) (ops : List (PerOperator T TS)) (n : ℕ)
      → IsWired b
      → AreFresh (has_place b.shape) n ops
      → IsShaped s (tracker_on b ops n)
  unfolding MutableAntichain.new
  tracker_on-IsShaped b ops n w f = record {
    leads = λ l h t.
        let (next, defined, all_there) =
          leads-of-IsWired s b l.node l.port w (f.only_there l h) t in
        (next, defined, All-imp (λ k. f.there k.1) next all_there);
    ends = λ l info h.
        rw (length-replicate {A = ChangeBatch.ChangeBatch T} n ChangeBatch.new)
          (f.fresh l info h).bounded;
    drained = λ l info h.
        (rw (f.fresh l info h).no_stamps refl, rw (f.fresh l info h).no_implications refl);
    placed = tt;
    summed = omega arith;
  }

  module _ (places : Location → Bool) (n : ℕ) (ops : List (PerOperator T TS))
      (f : AreFresh places n ops) where
    implied-empty : (k : T × Location) → implied k ops ≡ 0
    unfolding implied count MutableAntichain.new ChangeBatch.new
    implied-empty k =
        sum_ports-empty _ ops (λ l info at. rw (f.fresh l info at).no_implications refl)

    stamped-empty : (k : T × Location) → stamped k ops ≡ 0
    unfolding stamped count MutableAntichain.new
    stamped-empty k = sum_ports-empty _ ops (λ l info at. rw (f.fresh l info at).no_stamps refl)

    active-empty : active ops ≡ 0
    unfolding active sum_by MutableAntichain.new
    active-empty = sum_ports-empty _ ops (λ l info at. rw (f.fresh l info at).no_stamps refl)

    inflow-empty :
        (nodes : List (Inner TS)) (edges : List (List (List Target))) (k : T × Location)
        → inflow s nodes edges k ops ≡ 0
    unfolding inflow sum_by MutableAntichain.new
    inflow-empty nodes edges k =
        sum_ports-empty _ ops (λ l info at. rw (f.fresh l info at).no_implications refl)

  tracker_on-IsBalanced :
      (b : Builder TS) (places : Location → Bool) (ops : List (PerOperator T TS)) (n : ℕ)
      → AreFresh places n ops
      → IsBalanced s (tracker_on b ops n)
  unfolding count
  tracker_on-IsBalanced b places ops n f = record {
    balance = λ k.
        rw
          (
            implied-empty places n ops f k,
            stamped-empty places n ops f k,
            inflow-empty places n ops f b.nodes b.edges k,
          )
          refl;
    counted = sym (active-empty places n ops f);
  }

module _ {ℓ κ} {T : Type ℓ} {TS : Type κ} ⦃e : Eq T⦄ ⦃p : PartialOrder T⦄ ⦃o : Ord T⦄
    ⦃q : PartialOrder TS⦄ (s : PathSummary TS T) where
  fresh_ports-AreFresh :
      (shape : List (ℕ × ℕ)) (n : ℕ)
      → AreFresh {T = T} {TS = TS} (has_place shape) n (fresh_ports shape)
  unfolding has_port new_port default
  fresh_ports-AreFresh shape n = record {
    there = λ l h. rw (port_at-fresh shape l.node l.port h) refl;
    only_there = λ l h.
        let (info, found) = has_port-elim (fresh_ports shape) l h in
        (port_at-fresh_only shape l.node l.port info found).0;
    fresh = λ l info h.
        let made = (port_at-fresh_only shape l.node l.port info h).1 in
        subst (IsFresh (has_place shape) n) made
          (record { no_stamps = refl; no_implications = refl; bounded = tt });
  }

  room :
      (shape : List (ℕ × ℕ)) (io : ℕ × ℕ)
      → get_elem? shape 0 ≡ some io
      → HasRoom (has_place shape) (replicate io.1 (default {TS = TS}))
  unfolding has_place
  room shape io at i h =
      let within : ltb i io.1 ≡ true = rw at at h in
      rw (length-replicate io.1 (default {TS = TS})) (ground arith)

  -- From a wired graph of a scope `allocate_from` does not panic, however many rounds it looks for
  -- summaries, and makes a tracker that fits the graph and is balanced.
  pub allocate_from_correct :
      (rounds : ℕ) (b : Builder TS) (io : ℕ × ℕ)
      → IsWired b
      → get_elem? b.shape 0 ≡ some io
      → (out : Tracker T TS × Inner TS) × (allocate_from s rounds b ≡ some out)
        × IsShaped s out.0
        × IsBalanced s out.0
  unfolding allocate_from
  allocate_from_correct rounds b io w at =
      let found = summarize_outputs-IsFound s rounds b io w at in
      let (out, runs, f) =
        assign-AreFresh (has_place b.shape) io.0 (summarize_outputs s rounds b.nodes b.edges).0
          (fresh_ports b.shape) (replicate io.1 default) found.placed found.ends
          (λ i h. room b.shape io at i h) (fresh_ports-AreFresh b.shape io.0) in
      (
        (tracker_on s b out.0 io.0, out.1),
        rw (at, runs) refl,
        tracker_on-IsShaped s b out.0 io.0 w f,
        tracker_on-IsBalanced s b (has_place b.shape) out.0 io.0 f,
      )
