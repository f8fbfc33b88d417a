-- ===== src/MutableAntichain/Correct.antt =====
-- The invariant of a mutable antichain, and what `update_iter` does to it.
use timely_dataflow.Prelude.{
  ◌≡◌, refl, sym, ◌∙◌, false, List, [], inl, inr, arith, Bool-cases, minus, add_i64, zero-add_i64,
  if◌then◌else◌,
}
use mathlib.Core.List.Memᴰ
use timely_dataflow.Order.{Eq, PartialOrder, Ord, IsCompatible}
use timely_dataflow.ChangeBatch.{ChangeBatch, Update, drain}
use timely_dataflow.ChangeBatch
use timely_dataflow.ChangeBatch.Count.{count, count-lt, count-append}
use timely_dataflow.ChangeBatch.Compact.{IsAscending, InRange}
use timely_dataflow.ChangeBatch.Invariant.{
  IsWellFormed, compact-IsWellFormed, compact-InRange, new-IsWellFormed,
}
use timely_dataflow.ChangeBatch.Methods.{drain_correct}
use timely_dataflow.MutableAntichain.{
  MutableAntichain, new, new_bottom, note_all, rebuild, update_iter, update_loop, hand_out,
  from_iter, count_for,
}
use timely_dataflow.MutableAntichain.Rebuild.{IsFrontier, IsFrontier-counts, rebuild_correct}
use timely_dataflow.MutableAntichain.Apply.{Fits}
use timely_dataflow.MutableAntichain.Linear.{rebuild-leads, keep-leads}
use timely_dataflow.MutableAntichain.Loop.{
  sum_for-eq, each, IsValid, note_all-IsWellFormed, update_loop_lem, update_loop-IsWellFormed,
  update_loop-InRange,
}

module _ {ℓ} {T : Type ℓ} ⦃e : Eq T⦄ ⦃p : PartialOrder T⦄ ⦃o : Ord T⦄
    (compatible : IsCompatible p o) where
  -- What the conditional rebuild makes of a state `m` whose changes are handed out.
  record Settles (m n : MutableAntichain T) : Type ℓ where
    formed : IsWellFormed n.updates
    ranged : InRange n.updates.updates
    exact : IsFrontier (λ k. count k m.updates.updates) n.frontier
    counts : (k : T) → count k n.updates.updates ≡ count k m.updates.updates
    leads :
        (k : T)
        → add_i64 (count k (each 1 m.frontier)) (count k n.changes.updates)
          ≡ count k (each 1 n.frontier)
    changes_formed : IsWellFormed n.changes

  Settles-rebuild :
      (m : MutableAntichain T)
      → IsWellFormed m.updates
      → InRange m.updates.updates
      → m.changes ≡ ChangeBatch.new
      → Settles m (rebuild m)
  unfolding rebuild ChangeBatch.iter
  Settles-rebuild m w r none_left =
      let (exact, counts) = rebuild_correct compatible m w r in
      let frontier = (rebuild m).frontier in
      let gone = note_all m.changes (minus 1) m.frontier in
      let new_formed : IsWellFormed m.changes = rw none_left new-IsWellFormed in
      record {
        formed = compact-IsWellFormed m.updates w;
        ranged = compact-InRange m.updates r;
        exact = exact;
        counts = counts;
        leads = rebuild-leads m none_left;
        changes_formed =
            note_all-IsWellFormed gone 1 frontier
              (note_all-IsWellFormed m.changes (minus 1) m.frontier new_formed);
      }

  Settles-keep :
      (m : MutableAntichain T)
      → IsWellFormed m.updates
      → InRange m.updates.updates
      → IsFrontier (λ k. count k m.updates.updates) m.frontier
      → m.changes ≡ ChangeBatch.new
      → Settles m m
  Settles-keep m w r i none_left = record {
    formed = w;
    ranged = r;
    exact = i;
    counts = λ k. refl;
    leads = keep-leads m none_left;
    changes_formed = rw none_left new-IsWellFormed;
  }

  hand_out-IsValid :
      (m n : MutableAntichain T)
      → Settles m n
      → let (m', changes) = hand_out n in
        IsValid m'
        × ((k : T) → count k m'.updates.updates ≡ count k m.updates.updates)
        × ((k : T)
            → add_i64 (count k (each 1 m.frontier)) (count k changes)
              ≡ count k (each 1 m'.frontier))
        × IsAscending changes
  unfolding hand_out
  hand_out-IsValid m n s =
      let (counts, ascending, empty) = drain_correct n.changes s.changes_formed in
      (
        record {
          formed = s.formed;
          ranged = s.ranged;
          exact = IsFrontier-counts _ _ n.frontier (λ k. sym (s.counts k)) s.exact;
          drained = empty;
        },
        s.counts,
        λ k. rw (counts k) (s.leads k),
        ascending,
      )

  -- Where `Ord` does not contradict `PartialOrder`, on a valid mutable antichain, and unless a
  -- count overflows on the way of the `i64` updates, `update_iter` adds the updates to the counts,
  -- leaves the frontier exactly the least times with a positive count whether or not it rebuilds,
  -- and hands out changes that lead from the old frontier to the new one.
  pub update_iter_correct :
      (m : MutableAntichain T) (items : List (Update T))
      → IsValid m
      → InRange items
      → Fits m.updates.updates items
      → let (m', changes) = update_iter m items in
        IsValid m'
        × ((k : T)
            → count k m'.updates.updates ≡ add_i64 (count k m.updates.updates) (count k items))
        × ((k : T)
            → add_i64 (count k (each 1 m.frontier)) (count k changes)
              ≡ count k (each 1 m'.frontier))
        × IsAscending changes
  unfolding update_iter
  update_iter_correct m items v r f =
      let b = (update_loop m.frontier m.updates false items).0 in
      let required = (update_loop m.frontier m.updates false items).1 in
      let (counts, kept) =
        update_loop_lem m.frontier m.updates.updates m.updates false items (λ k. refl) r f
          (λ _. v.exact) in
      let w = update_loop-IsWellFormed m.frontier m.updates false items v.formed in
      let r' = update_loop-InRange m.frontier m.updates false items v.ranged r in
      let m' = record m { updates = b } in
      let settled : Settles m' (if required then rebuild m' else m') = elim (Bool-cases required) [
        | inl again ↦ rw again (Settles-rebuild m' w r' v.drained)
        | inr skip ↦ rw skip (
            Settles-keep m' w r'
              (IsFrontier-counts _ _ m.frontier (λ k. sym (counts k)) (kept skip)) v.drained)
      ] in
      let (valid, counts', leads, ascending) = hand_out-IsValid m' _ settled in
      (valid, λ k. counts' k ∙ counts k ∙ count-append k m.updates.updates items, leads, ascending)

module _ {ℓ} {T : Type ℓ} ⦃e : Eq T⦄ ⦃p : PartialOrder T⦄ ⦃o : Ord T⦄ where
  pub new-IsValid : IsValid {T = T} new
  unfolding new ChangeBatch.new count
  new-IsValid = record {
    formed = record { within = omega arith; ascending = tt };
    ranged = tt;
    exact = record {
      antichain = tt;
      sound = λ f m. absurd (Memᴰ.not-nil m);
      complete = λ t h. absurd (ground arith);
    };
    drained = refl;
  }

  -- The antichain of one element is valid: that element has the count one.
  pub new_bottom-IsValid : (bottom : T) → IsValid (new_bottom bottom)
  unfolding new_bottom ChangeBatch.new_from ChangeBatch.update ChangeBatch.new
      ChangeBatch.maintain_bounds count add_i64
  new_bottom-IsValid bottom = record {
    formed = record { within = omega arith; ascending = tt };
    ranged = (omega arith, tt);
    exact = record {
      antichain = (tt, tt);
      sound = λ f m. rw (Memᴰ.eq_of_singleton m, e.equal_refl bottom) refl;
      complete = λ t h. ground (arith, e.eq_of_equal bottom t, p.le_refl bottom);
    };
    drained = refl;
  }

module _ {ℓ} {T : Type ℓ} ⦃e : Eq T⦄ ⦃p : PartialOrder T⦄ ⦃o : Ord T⦄
    (compatible : IsCompatible p o) where
  -- Where `Ord` does not contradict `PartialOrder`, a mutable antichain built from `i64` updates
  -- whose sums do not overflow is valid, and counts them.
  pub from_iter-IsValid :
      (items : List (Update T))
      → InRange items
      → Fits [] items
      → IsValid (from_iter items)
        × ((k : T) → count k (from_iter items).updates.updates ≡ count k items)
  unfolding from_iter new ChangeBatch.new count
  from_iter-IsValid items r f =
      let (valid, counts, _, _) = update_iter_correct compatible new items new-IsValid r f in
      (valid, λ k. counts k ∙ zero-add_i64 (count k items) (count-lt k items))

-- `count_for` reports the count of a time.
pub count_for-eq-count {ℓ} :
    {T : Type ℓ} ⦃e : Eq T⦄ (m : MutableAntichain T) (t : T)
    → count_for m t ≡ count t m.updates.updates
unfolding count_for
count_for-eq-count m t =
    sum_for-eq t 0 m.updates.updates (omega arith) ∙ zero-add_i64 _ (count-lt t m.updates.updates)
