-- ===== src/Reachability/Correct.antt =====
-- `propagate_all` as a whole.
use timely_dataflow.Prelude.{ℕ, ◌≡◌, ◌∙◌, true, arith, List, some, add_i64, All-imp}
use timely_dataflow.Order.{Eq, PartialOrder, Ord}
use timely_dataflow.Order.Pair.{pair_eq, pair_ord}
use timely_dataflow.Location.{
  Location, Target, Source, from_target, from_source, location_eq, location_ord, target_eq,
  target_ord, source_eq, source_ord,
}
use timely_dataflow.ChangeBatch.{ChangeBatch, Update, compact, drain}
use timely_dataflow.ChangeBatch
use timely_dataflow.ChangeBatch.Count.{count}
use timely_dataflow.ChangeBatch.Compact.{InRange, On}
use timely_dataflow.ChangeBatch.Invariant.{compact-On}
use timely_dataflow.Timestamp.{PathSummary}
use timely_dataflow.Reachability.{PerOperator, Tracker}
use timely_dataflow.Reachability.Propagate.{
  groups, absorb_all, absorb_targets, absorb_sources, propagate_all,
}
use timely_dataflow.Reachability.Balance.{
  has_port, recorded, IsShaped, IsBalanced, IsNoted, IsNoted-trans,
}
use timely_dataflow.Reachability.Circulate.{circulate_lem}
use timely_dataflow.Reachability.Step.{IsProgress, IsStep, IsStep-told}
use timely_dataflow.Reachability.Drain.{
  listed, listed-compact, grouped-groups, groups-All, absorb_all_lem,
}

add_none : (a b c : ℕ) → add_i64 (add_i64 (add_i64 a b) c) 0 ≡ add_i64 a (add_i64 b c)
unfolding add_i64
add_none a b c = omega arith

module _ {ℓ κ} {T : Type ℓ} {TS : Type κ} ⦃e : Eq T⦄ ⦃p : PartialOrder T⦄ ⦃o : Ord T⦄ where
  -- The changes of a buffer are at ports, and `i64`.
  pub record IsBuffer {K : Type 0} (place : K → Location) (ops : List (PerOperator T TS))
      (b : ChangeBatch (K × T)) : Type ℓ where
    pub at_ports : On (λ (j : K × T). has_port ops (place j.0) ≡ true) b.updates
    pub ranged : InRange b.updates

  -- What is buffered for a time and location.
  abbrev pub buffered : T × Location → Tracker T TS → ℕ
  buffered k tracker =
      add_i64 (count k (listed from_target tracker.target_changes.updates))
        (count k (listed from_source tracker.source_changes.updates))

module _ {ℓ κ} {T : Type ℓ} {TS : Type κ} ⦃e : Eq T⦄ ⦃p : PartialOrder T⦄ ⦃o : Ord T⦄
    (s : PathSummary TS T) where
  -- One buffer is drained into the tracker `x`.
  drain_lem :
      {K : Type 0} ⦃f : Eq K⦄ ⦃q : Ord K⦄ (place : K → Location) (x : Tracker T TS)
      (b : ChangeBatch (K × T))
      → IsShaped s x
      → IsBalanced s x
      → IsBuffer place x.per_operator b
      → (after : Tracker T TS) × (absorb_all s place x (groups (compact b).updates) ≡ some after)
        × IsStep s (λ k. count k (listed place b.updates)) x after
  drain_lem {K = K} place x b h l buffer =
      let at =
        compact-On (λ (j : K × T). has_port x.per_operator (place j.0) ≡ true) b buffer.at_ports in
      let (after, runs, step) =
        absorb_all_lem s place x (groups (compact b).updates) h l (
          groups-All place (λ j. has_port x.per_operator (place j) ≡ true) (compact b).updates
            at) in
      (
        after,
        runs,
        IsStep-told s _ _ x after
            (λ k.
              grouped-groups place k (compact b).updates ∙ listed-compact place k b buffer.ranged)
            step,
      )

  -- The invariants do not look at the buffers.
  IsShaped-apart :
      (x : Tracker T TS) (b : ChangeBatch (Target × T)) (c : ChangeBatch (Source × T))
      → IsShaped s x
      → IsShaped s (record x { target_changes = b; source_changes = c })
  IsShaped-apart x b c h = record {
    leads = h.leads;
    ends = h.ends;
    drained = h.drained;
    placed = h.placed;
    summed = h.summed;
  }

  IsBalanced-apart :
      (x : Tracker T TS) (b : ChangeBatch (Target × T)) (c : ChangeBatch (Source × T))
      → IsBalanced s x
      → IsBalanced s (record x { target_changes = b; source_changes = c })
  IsBalanced-apart x b c h = record { balance = h.balance; counted = h.counted }

  IsNoted-apart :
      (x y : Tracker T TS) (b : ChangeBatch (Target × T)) (c : ChangeBatch (Source × T))
      → IsNoted s (record x { target_changes = b; source_changes = c }) y
      → IsNoted s x y
  IsNoted-apart x y b c h = record { pushes = h.pushes; outputs = h.outputs }

  -- What `propagate_all` makes of a tracker.
  pub record IsPropagated (before after : Tracker T TS) : Type (ℓ ⊔ κ) where
    pub progress : IsProgress s before after
    pub records :
        (k : T × Location)
        → recorded k after.per_operator
          ≡ add_i64 (recorded k before.per_operator) (buffered k before)
    pub no_targets : after.target_changes ≡ ChangeBatch.new
    pub no_sources : after.source_changes ≡ ChangeBatch.new

  absorb_targets_lem :
      (x : Tracker T TS)
      → IsShaped s x
      → IsBalanced s x
      → IsBuffer from_target x.per_operator x.target_changes
      → (y : Tracker T TS) × (absorb_targets s x ≡ some y)
        × IsStep s
            (λ k. count k (listed from_target x.target_changes.updates))
            (record x { target_changes = ChangeBatch.new })
            y
  unfolding absorb_targets drain ChangeBatch.new
  absorb_targets_lem x h l b =
      let none_left : ChangeBatch (Target × T) = ChangeBatch.new in
      drain_lem from_target (record x { target_changes = none_left }) x.target_changes
        (IsShaped-apart x none_left x.source_changes h)
        (IsBalanced-apart x none_left x.source_changes l)
        (record { at_ports = b.at_ports; ranged = b.ranged })

  absorb_sources_lem :
      (x : Tracker T TS)
      → IsShaped s x
      → IsBalanced s x
      → IsBuffer from_source x.per_operator x.source_changes
      → (y : Tracker T TS) × (absorb_sources s x ≡ some y)
        × IsStep s
            (λ k. count k (listed from_source x.source_changes.updates))
            (record x { source_changes = ChangeBatch.new })
            y
  unfolding absorb_sources drain ChangeBatch.new
  absorb_sources_lem x h l b =
      let none_left : ChangeBatch (Source × T) = ChangeBatch.new in
      drain_lem from_source (record x { source_changes = none_left }) x.source_changes
        (IsShaped-apart x x.target_changes none_left h)
        (IsBalanced-apart x x.target_changes none_left l)
        (record { at_ports = b.at_ports; ranged = b.ranged })

  -- The buffer of the sources waits while that of the targets is drained.
  IsBuffer-step :
      (told : T × Location → ℕ) (x y : Tracker T TS)
      → IsStep s told (record x { target_changes = ChangeBatch.new }) y
      → IsBuffer from_source x.per_operator x.source_changes
      → IsBuffer from_source y.per_operator y.source_changes
  IsBuffer-step told x y step b = rw step.sources_stay (record {
    at_ports = All-imp (λ u. step.stays (from_source u.0.0)) x.source_changes.updates b.at_ports;
    ranged = b.ranged;
  })

  IsPropagated-steps :
      (w x y z : Tracker T TS)
      → IsStep s
          (λ k. count k (listed from_target w.target_changes.updates))
          (record w { target_changes = ChangeBatch.new })
          x
      → IsStep s
          (λ k. count k (listed from_source x.source_changes.updates))
          (record x { source_changes = ChangeBatch.new })
          y
      → IsStep s (λ k. 0) y z
      → IsPropagated w z
  IsPropagated-steps w x y z f g h = record {
    progress = record {
      shaped = h.progress.shaped;
      balanced = h.progress.balanced;
      noted =
          IsNoted-trans s w x z
            (IsNoted-apart w x ChangeBatch.new w.source_changes f.progress.noted)
            (IsNoted-trans s x y z
              (IsNoted-apart x y x.target_changes ChangeBatch.new g.progress.noted)
              h.progress.noted);
    };
    records = λ k.
        h.records k
        ∙ rw (g.records k, f.records k, f.sources_stay) (add_none (recorded k w.per_operator) _ _);
    no_targets = h.targets_stay ∙ g.targets_stay ∙ f.targets_stay;
    no_sources = h.sources_stay ∙ g.sources_stay;
  }

  -- On a tracker that fits its graph and is balanced, with changes buffered at its ports only,
  -- `propagate_all` does not panic, however many rounds its second step runs for: the tracker stays
  -- balanced, every buffered change is recorded at its port, both buffers are empty, and the pushed
  -- changes and the output changes have grown by exactly what the frontiers changed by.
  pub propagate_all_correct :
      (rounds : ℕ) (tracker : Tracker T TS)
      → IsShaped s tracker
      → IsBalanced s tracker
      → IsBuffer from_target tracker.per_operator tracker.target_changes
      → IsBuffer from_source tracker.per_operator tracker.source_changes
      → (after : Tracker T TS) × (propagate_all s rounds tracker ≡ some after)
        × IsPropagated tracker after
  unfolding propagate_all
  propagate_all_correct rounds w h l ts ss =
      let (x, runs_x, f) = absorb_targets_lem w h l ts in
      let (y, runs_y, g) =
        absorb_sources_lem x f.progress.shaped f.progress.balanced (IsBuffer-step _ w x f ss) in
      let (z, runs_z, c) = circulate_lem s rounds y g.progress.shaped g.progress.balanced in
      (z, rw (runs_x, runs_y) runs_z, IsPropagated-steps w x y z f g c)
