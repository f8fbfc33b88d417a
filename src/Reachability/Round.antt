-- ===== src/Reachability/Round.antt =====
-- One round of the loop of step 2, on a tracker that fits its graph.
use timely_dataflow.Prelude.{
  ℕ, ◌≡◌, refl, sym, ◌∙◌, true, Bool-cases, inl, inr, arith, List, [], ◌∷◌, some, add_i64,
  zero-add_i64, All, All-imp, length,
}
use timely_dataflow.Order.{Eq, PartialOrder, Ord}
use timely_dataflow.Order.Pair.{pair_eq, pair_ord}
use timely_dataflow.Location.{Location, Target, location_eq, location_ord}
use timely_dataflow.ChangeBatch.{ChangeBatch, Update}
use timely_dataflow.ChangeBatch.Count.{count, count-lt, share}
use timely_dataflow.ChangeBatch.Compact.{InRange}
use timely_dataflow.ChangeBatch.Additive.{sum_by, sum_by-lt, sum_by-counts}
use timely_dataflow.MutableAntichain.{update_iter}
use timely_dataflow.MutableAntichain.Loop.{each}
use timely_dataflow.MutableAntichain.Linear.{IsUpdate, update_iter-IsUpdate}
use timely_dataflow.Timestamp.{PathSummary}
use timely_dataflow.Reachability.{PortInformation, PerOperator, Tracker, Entry, Inner, port_at}
use timely_dataflow.Reachability.Propagate.{put_port}
use timely_dataflow.Reachability.Flow.{here, there, lead-here, lead-there}
use timely_dataflow.Reachability.Spread.{flow, flow-IsAdditive, IsSpread}
use timely_dataflow.Reachability.Announce.{Ends}
use timely_dataflow.Reachability.Step.{IsProgress}
use timely_dataflow.Reachability.Balance.{
  has_port, has_port-put, put_port-All, sum_ports-grow, sum_ports-keep, implied, stamped, shown,
  active, inflow, projected, leads-put, recorded, IsDrained, IsShaped, IsBalanced,
}

-- The elements of a frontier by one each are `i64`.
pub each_one-InRange {ℓ} : {T : Type ℓ} (ts : List T) → InRange (each 1 ts)
each_one-InRange [] = tt
each_one-InRange (t ∷ ts) = (omega arith, each_one-InRange ts)

-- An entry by zero counts nothing.
pub uncounted {ℓ} :
    {K : Type ℓ} ⦃e : Eq K⦄ (k j : K) (d : ℕ) (us : List (Update K)) {c : ℕ}
    → add_i64 (share k (j, d)) (count k us) ≡ c
    → d ≡ 0
    → count k us ≡ c
uncounted ⦃e⦄ k j d us h z =
    sym (elim (Bool-cases (e.equal j k)) [
      | inl same ↦ rw (same, z) (zero-add_i64 (count k us) (count-lt k us))
      | inr other ↦ rw other (zero-add_i64 (count k us) (count-lt k us))
    ])
    ∙ h

-- The entries taken off move to the implications, and what follows from them is put on.
move_sum :
    (i w p n taken left f : ℕ)
    → add_i64 i w ≡ add_i64 p n
    → add_i64 taken left ≡ w
    → add_i64 (add_i64 i (add_i64 taken 0)) (add_i64 left f) ≡ add_i64 p (add_i64 n f)
unfolding add_i64
move_sum i w p n taken left f h g = omega arith

note_sum : (a z s : ℕ) → add_i64 (add_i64 a z) s ≡ add_i64 a (add_i64 s z)
unfolding add_i64
note_sum a z s = omega arith

module _ {ℓ κ} {T : Type ℓ} {TS : Type κ} ⦃e : Eq T⦄ ⦃p : PartialOrder T⦄ ⦃o : Ord T⦄
    (s : PathSummary TS T) where
  -- The entries of one time and location cancel: only the worklist changes.
  pub drop_round :
      (tracker : Tracker T TS) (us : List (Entry T))
      → IsShaped s tracker
      → IsBalanced s tracker
      → ((k : T × Location) → count k us ≡ count k tracker.worklist)
      → All (λ (u : Entry T). has_port tracker.per_operator u.0.1 ≡ true) us
      → IsProgress s tracker (record tracker { worklist = us })
  drop_round tracker us h b same placed = record {
    shaped = record {
      leads = h.leads;
      ends = h.ends;
      drained = h.drained;
      placed = placed;
      summed = h.summed;
    };
    balanced = record { balance = λ k. rw (same k) (b.balance k); counted = b.counted };
    noted = record { pushes = λ k. refl; outputs = λ n u. refl };
  }

  -- What new implications at one port do to the sums over all ports.
  module _ (l : Location) (info : PortInformation T TS) (ops : List (PerOperator T TS))
      (items : List (Update T)) (found : port_at ops l ≡ some info)
      (updated : IsUpdate info.implications items) where
    abbrev with_implications : PortInformation T TS
    with_implications = record info { implications = (update_iter info.implications items).0 }

    implied-put :
        (k : T × Location)
        → implied k (put_port l with_implications ops)
          ≡ add_i64 (implied k ops) (count k (here l items))
    unfolding implied
    implied-put k =
        sum_ports-grow _ l info with_implications ops (count k (here l items)) found
          (lead-here k l _ items _ (λ t. sym (updated.told t))) (count-lt k _)

    shown-put :
        (k : Location × T)
        → shown k (put_port l with_implications ops)
          ≡ add_i64 (shown k ops) (count k (there l (update_iter info.implications items).1))
    unfolding shown
    shown-put k =
        sum_ports-grow _ l info with_implications ops
          (count k (there l (update_iter info.implications items).1)) found
          (lead-there k l (each 1 info.implications.frontier)
            (update_iter info.implications items).1
            (each 1 (update_iter info.implications items).0.frontier) updated.leads)
          (count-lt k _)

    inflow-put :
        (nodes : List (Inner TS)) (edges : List (List (List Target))) (k : T × Location)
        → inflow s nodes edges k (put_port l with_implications ops)
          ≡ add_i64
              (inflow s nodes edges k ops)
              (sum_by (flow s nodes edges k l) (update_iter info.implications items).1)
    unfolding inflow
    inflow-put nodes edges k =
        sum_ports-grow _ l info with_implications ops
          (sum_by (flow s nodes edges k l) (update_iter info.implications items).1) found
          (sum_by-counts (flow s nodes edges k l) (flow-IsAdditive s nodes edges k l)
            (each 1 info.implications.frontier) (update_iter info.implications items).1
            (each 1 (update_iter info.implications items).0.frontier)
            (each_one-InRange (update_iter info.implications items).0.frontier) updated.leads)
          (sum_by-lt (flow s nodes edges k l)
            (each 1 (update_iter info.implications items).0.frontier))

    stamped-keep : (k : T × Location) → stamped k (put_port l with_implications ops) ≡ stamped k ops
    unfolding stamped
    stamped-keep k = sum_ports-keep _ l info with_implications ops found refl

    pub recorded-keep :
        (k : T × Location) → recorded k (put_port l with_implications ops) ≡ recorded k ops
    unfolding recorded
    recorded-keep k = sum_ports-keep _ l info with_implications ops found refl

    active-keep : active (put_port l with_implications ops) ≡ active ops
    unfolding active
    active-keep = sum_ports-keep _ l info with_implications ops found refl

    projected-keep :
        (n : ℕ) (u : T) → projected s n u (put_port l with_implications ops) ≡ projected s n u ops
    unfolding projected
    projected-keep n u = sum_ports-keep _ l info with_implications ops found refl

  -- The implications of the port at `l` take the accumulated difference, and their changes spread.
  pub spread_round :
      (tracker : Tracker T TS) (l : Location) (time : T) (diff : ℕ) (us : List (Entry T))
      (info : PortInformation T TS) (out : List (Entry T) × ChangeBatch (Location × T))
      → let (implications, changes) = update_iter info.implications ((time, diff) ∷ []) in
        IsShaped s tracker
        → IsBalanced s tracker
        → ((k : T × Location)
            → add_i64 (share k ((time, l), diff)) (count k us) ≡ count k tracker.worklist)
        → All (λ (u : Entry T). has_port tracker.per_operator u.0.1 ≡ true) us
        → port_at tracker.per_operator l ≡ some info
        → IsSpread s tracker.nodes tracker.edges
            (λ m. has_port tracker.per_operator m ≡ true)
            l
            changes
            us
            tracker.pushed_changes
            out
        → IsProgress s tracker (record tracker {
          per_operator =
              put_port l (record info { implications = implications }) tracker.per_operator;
          worklist = out.0;
          pushed_changes = out.1;
        })
  unfolding count
  spread_round tracker l time diff us info out h b taken placed found sp =
      let ops = tracker.per_operator in
      let items : List (Update T) = (time, diff) ∷ [] in
      let new_info : PortInformation T TS = record info {
        implications = (update_iter info.implications items).0;
      } in
      let updated = update_iter-IsUpdate info.implications items (h.drained l info found).1 in
      record {
        shaped = record {
          leads = leads-put s tracker.nodes tracker.edges l new_info ops h.leads;
          ends =
              put_port-All (λ i. Ends s (length tracker.output_changes) i.output_summaries.tree) l
                new_info ops h.ends (h.ends l info found);
          drained =
              put_port-All IsDrained l new_info ops h.drained
                ((h.drained l info found).0, updated.drained);
          placed = All-imp (λ u. has_port-put l new_info ops u.0.1) out.0 (sp.placed placed);
          summed = h.summed;
        };
        balanced = record {
          balance = λ k.
              rw
                (
                  implied-put l info ops items found updated k,
                  sp.flows k,
                  stamped-keep l info ops items found updated k,
                  inflow-put l info ops items found updated tracker.nodes tracker.edges k,
                )
                (move_sum (implied k ops) (count k tracker.worklist) (stamped k ops) _ _
                  (count k us) _ (b.balance k) (taken k));
          counted = b.counted ∙ sym (active-keep l info ops items found updated);
        };
        noted = record {
          pushes = λ k.
              rw (sp.notes k, shown-put l info ops items found updated k)
                (note_sum (count k tracker.pushed_changes.updates) _ (shown k ops));
          outputs = λ n u. rw (projected-keep l info ops items found updated n u) refl;
        };
      }
