-- ===== src/Reachability/Absorb.antt =====
-- Step 1 port by port, where the buffered changes are at ports of the graph.
use timely_dataflow.Prelude.{
  ℕ, ◌≡◌, refl, sym, ap, ◌∙◌, subst, true, arith, List, some, length, add_i64, add_i64-lt, All-imp,
}
use timely_dataflow.Order.{Eq, PartialOrder, Ord}
use timely_dataflow.Order.Pair.{pair_eq, pair_ord}
use timely_dataflow.Location.{Location, Target, location_eq, location_ord}
use timely_dataflow.ChangeBatch.{ChangeBatch, Update}
use timely_dataflow.ChangeBatch.Count.{count, count-lt}
use timely_dataflow.ChangeBatch.Additive.{IsAdditive, sum_by, sum_by-lt, sum_by-counts}
use timely_dataflow.MutableAntichain.{update_iter}
use timely_dataflow.MutableAntichain.Loop.{each}
use timely_dataflow.MutableAntichain.Linear.{IsUpdate, update_iter-IsUpdate}
use timely_dataflow.Timestamp.{PathSummary}
use timely_dataflow.Reachability.{PortInformation, PerOperator, Tracker, Entry, Inner, port_at}
use timely_dataflow.Reachability.Propagate.{put_port, absorb}
use timely_dataflow.Reachability.Flow.{here, lead-here}
use timely_dataflow.Reachability.Announce.{
  emitted, projection, projection-IsAdditive, Ends, IsAnnounced, announce_lem,
}
use timely_dataflow.Reachability.Balance.{
  has_port, has_port-elim, has_port-put, put_port-All, sum_ports-grow, sum_ports-keep, implied,
  stamped, shown, active, inflow, projected, leads-put, recorded, IsDrained, IsShaped, IsBalanced,
}
use timely_dataflow.Reachability.Round.{each_one-InRange}
use timely_dataflow.Reachability.Step.{IsProgress, IsStep}

plain-IsAdditive {ℓ} : {T : Type ℓ} → IsAdditive {T = T} (λ t d. d)
plain-IsAdditive = record { at_zero = λ t. refl; plus = λ t d x. refl }

queue_sum :
    (i w p n z : ℕ) → add_i64 i w ≡ add_i64 p n → add_i64 i (add_i64 w z) ≡ add_i64 (add_i64 p z) n
unfolding add_i64
queue_sum i w p n z h = omega arith

note_sum : (a z s : ℕ) → add_i64 (add_i64 a z) s ≡ add_i64 a (add_i64 s z)
unfolding add_i64
note_sum a z s = omega arith

module _ {ℓ κ} {T : Type ℓ} {TS : Type κ} ⦃e : Eq T⦄ ⦃p : PartialOrder T⦄ ⦃o : Ord T⦄
    (s : PathSummary TS T) where
  -- What new pointstamps at one port do to the sums over all ports.
  module _ (l : Location) (info : PortInformation T TS) (ops : List (PerOperator T TS))
      (items : List (Update T)) (found : port_at ops l ≡ some info)
      (updated : IsUpdate info.pointstamps items) where
    abbrev with_pointstamps : PortInformation T TS
    with_pointstamps = record info { pointstamps = (update_iter info.pointstamps items).0 }

    abbrev changes : List (Update T)
    changes = (update_iter info.pointstamps items).1

    recorded-put :
        (k : T × Location)
        → recorded k (put_port l with_pointstamps ops)
          ≡ add_i64 (recorded k ops) (count k (here l items))
    unfolding recorded
    recorded-put k =
        sum_ports-grow _ l info with_pointstamps ops (count k (here l items)) found
          (lead-here k l _ items _ (λ t. sym (updated.told t))) (count-lt k _)

    stamped-put :
        (k : T × Location)
        → stamped k (put_port l with_pointstamps ops)
          ≡ add_i64 (stamped k ops) (count k (here l changes))
    unfolding stamped
    stamped-put k =
        sum_ports-grow _ l info with_pointstamps ops (count k (here l changes)) found
          (lead-here k l (each 1 info.pointstamps.frontier) changes
            (each 1 (update_iter info.pointstamps items).0.frontier) updated.leads)
          (count-lt k _)

    active-put :
        active (put_port l with_pointstamps ops) ≡ add_i64 (active ops) (sum_by (λ t d. d) changes)
    unfolding active
    active-put =
        sum_ports-grow _ l info with_pointstamps ops (sum_by (λ t d. d) changes) found
          (sum_by-counts (λ t d. d) plain-IsAdditive (each 1 info.pointstamps.frontier) changes
            (each 1 (update_iter info.pointstamps items).0.frontier)
            (each_one-InRange (update_iter info.pointstamps items).0.frontier) updated.leads)
          (sum_by-lt (λ t d. d) (each 1 (update_iter info.pointstamps items).0.frontier))

    projected-put :
        (n : ℕ) (u : T)
        → projected s n u (put_port l with_pointstamps ops)
          ≡ add_i64
              (projected s n u ops)
              (sum_by (projection s n u info.output_summaries.tree) changes)
    unfolding projected
    projected-put n u =
        let weight = projection s n u info.output_summaries.tree in
        sum_ports-grow _ l info with_pointstamps ops (sum_by weight changes) found
          (sum_by-counts weight (projection-IsAdditive s n u info.output_summaries.tree)
            (each 1 info.pointstamps.frontier) changes
            (each 1 (update_iter info.pointstamps items).0.frontier)
            (each_one-InRange (update_iter info.pointstamps items).0.frontier) updated.leads)
          (sum_by-lt weight (each 1 (update_iter info.pointstamps items).0.frontier))

    implied-keep : (k : T × Location) → implied k (put_port l with_pointstamps ops) ≡ implied k ops
    unfolding implied
    implied-keep k = sum_ports-keep _ l info with_pointstamps ops found refl

    shown-keep : (k : Location × T) → shown k (put_port l with_pointstamps ops) ≡ shown k ops
    unfolding shown
    shown-keep k = sum_ports-keep _ l info with_pointstamps ops found refl

    inflow-keep :
        (nodes : List (Inner TS)) (edges : List (List (List Target))) (k : T × Location)
        → inflow s nodes edges k (put_port l with_pointstamps ops) ≡ inflow s nodes edges k ops
    unfolding inflow
    inflow-keep nodes edges k = sum_ports-keep _ l info with_pointstamps ops found refl

  absorb-IsProgress :
      (tracker : Tracker T TS) (l : Location) (items : List (Update T))
      (info : PortInformation T TS) (out : ℕ × (List (ChangeBatch T) × List (Entry T)))
      → let (pointstamps, changes) = update_iter info.pointstamps items in
        IsShaped s tracker
        → IsBalanced s tracker
        → port_at tracker.per_operator l ≡ some info
        → has_port tracker.per_operator l ≡ true
        → IsAnnounced s
            (λ m. has_port tracker.per_operator m ≡ true)
            l
            info.output_summaries.tree
            changes
            tracker.total_counts
            tracker.output_changes
            tracker.worklist
            out
        → IsProgress s tracker (record tracker {
          per_operator =
              put_port l (record info { pointstamps = pointstamps }) tracker.per_operator;
          total_counts = out.0;
          output_changes = out.1.0;
          worklist = out.1.1;
        })
  absorb-IsProgress tracker l items info out h b found at an =
      let ops = tracker.per_operator in
      let new_info : PortInformation T TS = record info {
        pointstamps = (update_iter info.pointstamps items).0;
      } in
      let told = update_iter-IsUpdate info.pointstamps items (h.drained l info found).0 in
      let longer =
        λ (n : ℕ) (i : PortInformation T TS) (g : n ≡ length tracker.output_changes)
            (q : Ends s (length tracker.output_changes) i.output_summaries.tree).
          subst (λ m. Ends s m i.output_summaries.tree) (sym g) q in
      record {
        shaped = record {
          leads = leads-put s tracker.nodes tracker.edges l new_info ops h.leads;
          ends =
              put_port-All (λ i. Ends s (length out.1.0) i.output_summaries.tree) l new_info ops
                (λ m i at_m. longer _ i an.projects.0 (h.ends m i at_m))
                (longer _ info an.projects.0 (h.ends l info found));
          drained =
              put_port-All IsDrained l new_info ops h.drained
                (told.drained, (h.drained l info found).1);
          placed = All-imp (λ u. has_port-put l new_info ops u.0.1) out.1.1 (an.placed at h.placed);
          summed = rw an.summed (add_i64-lt tracker.total_counts _);
        };
        balanced = record {
          balance = λ k.
              rw
                (
                  implied-keep l info ops items found told k,
                  an.queued k,
                  stamped-put l info ops items found told k,
                  inflow-keep l info ops items found told tracker.nodes tracker.edges k,
                )
                (queue_sum (implied k ops) (count k tracker.worklist) (stamped k ops) _ _
                  (b.balance k));
          counted =
              an.summed
              ∙ ap (λ c. add_i64 c (sum_by (λ t d. d) (update_iter info.pointstamps items).1))
                  b.counted
              ∙ sym (active-put l info ops items found told);
        };
        noted = record {
          pushes = λ k. rw (shown-keep l info ops items found told k) refl;
          outputs = λ n u.
              rw (an.projects.1 n u, projected-put l info ops items found told n u)
                (note_sum (count u (emitted tracker.output_changes n)) _ (projected s n u ops));
        };
      }

  pub absorb_lem :
      (tracker : Tracker T TS) (l : Location) (items : List (Update T))
      → IsShaped s tracker
      → IsBalanced s tracker
      → has_port tracker.per_operator l ≡ true
      → (after : Tracker T TS) × (absorb s tracker l items ≡ some after)
        × IsStep s (λ k. count k (here l items)) tracker after
  unfolding absorb
  absorb_lem tracker l items h b at =
      let (info, found) = has_port-elim tracker.per_operator l at in
      let (out, runs, an) =
        announce_lem s (λ m. has_port tracker.per_operator m ≡ true) l info.output_summaries.tree
          (update_iter info.pointstamps items).1 tracker.total_counts tracker.output_changes
          tracker.worklist h.summed (h.ends l info found) in
      let told = update_iter-IsUpdate info.pointstamps items (h.drained l info found).0 in
      (
        _,
        rw (found, runs) refl,
        record {
          progress = absorb-IsProgress tracker l items info out h b found at an;
          stays = has_port-put l _ tracker.per_operator;
          records = recorded-put l info tracker.per_operator items found told;
          targets_stay = refl;
          sources_stay = refl;
        },
      )
