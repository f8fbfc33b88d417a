-- ===== src/MutableAntichain/Linear.antt =====
-- What `update_iter` does to counts and frontier whatever the counts are: no overflow is ruled out
-- here, and no validity of the state is asked for but that its changes have been handed out.
use timely_dataflow.Prelude.{
  ℕ, ◌≡◌, refl, sym, ◌∙◌, ap, Bool, false, ◌||◌, List, [], ◌∷◌, Bool-cases, inl, inr, arith,
  add_i64, add_i64_assoc, add_i64-zero, zero-add_i64, word, ◌<◌, minus,
}
use timely_dataflow.Order.{Eq, PartialOrder, Ord}
use timely_dataflow.ChangeBatch.{ChangeBatch, Update, drain}
use timely_dataflow.ChangeBatch
use timely_dataflow.ChangeBatch.Count.{count, count-lt, count-append}
use timely_dataflow.ChangeBatch.Invariant.{count-compact, count-update}
use timely_dataflow.MutableAntichain.{
  MutableAntichain, rebuild, update_loop, update_iter, hand_out, may_change, note_all,
}
use timely_dataflow.MutableAntichain.Loop.{each, none_changed, count-note_all, count-each_cancel}

-- Old elements, less the old, plus the new ones.
replace_counts : (a b c : ℕ) → c < word → add_i64 b a ≡ 0 → add_i64 a (add_i64 b c) ≡ c
unfolding add_i64
replace_counts a b c h z = omega arith

module _ {ℓ} {T : Type ℓ} ⦃e : Eq T⦄ ⦃p : PartialOrder T⦄ ⦃o : Ord T⦄ where
  -- The batch after the loop has the counts of the items too.
  count-update_loop :
      (k : T) (frontier : List T) (b : ChangeBatch T) (required : Bool) (items : List (Update T))
      → count k (update_loop frontier b required items).0.updates
        ≡ add_i64 (count k b.updates) (count k items)
  unfolding update_loop count
  count-update_loop k frontier b required [] =
      sym (add_i64-zero (count k b.updates) (count-lt k b.updates))
  count-update_loop k frontier b required ((t, d) ∷ items) =
      count-update_loop k frontier (ChangeBatch.update b t d) (required || may_change frontier t d)
        items
      ∙ ap (λ c. add_i64 c (count k items)) (count-update k b t d)
      ∙ add_i64_assoc (count k b.updates) (count k ((t, d) ∷ [])) (count k items)
      ∙ ap (add_i64 (count k b.updates)) (sym (count-append k ((t, d) ∷ []) items))

  count-rebuild :
      (k : T) (m : MutableAntichain T)
      → count k (rebuild m).updates.updates ≡ count k m.updates.updates
  unfolding rebuild ChangeBatch.iter
  count-rebuild k m = count-compact k m.updates

  -- The changes that `rebuild` notes lead from the old frontier to the new one.
  pub rebuild-leads :
      (m : MutableAntichain T)
      → m.changes ≡ ChangeBatch.new
      → (k : T)
      → add_i64 (count k (each 1 m.frontier)) (count k (rebuild m).changes.updates)
        ≡ count k (each 1 (rebuild m).frontier)
  unfolding rebuild
  rebuild-leads m none_left k =
      let frontier = (rebuild m).frontier in
      let gone = note_all m.changes (minus 1) m.frontier in
      rw (count-note_all k gone 1 frontier, count-note_all k m.changes (minus 1) m.frontier)
        (rw (none_changed m none_left k) (
          ap (λ c. add_i64 (count k (each 1 m.frontier)) (add_i64 c (count k (each 1 frontier))))
            (zero-add_i64 _ (count-lt k (each (minus 1) m.frontier)))
          ∙ replace_counts _ _ _ (count-lt k (each 1 frontier)) (count-each_cancel k m.frontier)))

  pub keep-leads :
      (m : MutableAntichain T)
      → m.changes ≡ ChangeBatch.new
      → (k : T)
      → add_i64 (count k (each 1 m.frontier)) (count k m.changes.updates)
        ≡ count k (each 1 m.frontier)
  keep-leads m none_left k =
      rw (none_changed m none_left k) (add_i64-zero _ (count-lt k (each 1 m.frontier)))

  -- With all changes handed out before, and no further condition, `update_iter` adds the items to the
  -- counts, hands out exactly what changes of the frontier, and has again handed out all changes.
  pub record IsUpdate (m : MutableAntichain T) (items : List (Update T)) : Type ℓ where
    pub told :
        (k : T)
        → count k (update_iter m items).0.updates.updates
          ≡ add_i64 (count k m.updates.updates) (count k items)
    pub leads :
        (k : T)
        → add_i64 (count k (each 1 m.frontier)) (count k (update_iter m items).1)
          ≡ count k (each 1 (update_iter m items).0.frontier)
    pub drained : (update_iter m items).0.changes ≡ ChangeBatch.new

  pub update_iter-IsUpdate :
      (m : MutableAntichain T) (items : List (Update T))
      → m.changes ≡ ChangeBatch.new
      → IsUpdate m items
  unfolding update_iter hand_out drain ChangeBatch.new
  update_iter-IsUpdate m items none_left =
      let b = (update_loop m.frontier m.updates false items).0 in
      let m' : MutableAntichain T = record m { updates = b } in
      elim (Bool-cases (update_loop m.frontier m.updates false items).1) [
        | inl required ↦ record {
          told = λ k.
              rw required
                (count-rebuild k m' ∙ count-update_loop k m.frontier m.updates false items);
          leads = λ k.
              rw (required, count-compact k (rebuild m').changes) (rebuild-leads m' none_left k);
          drained = refl;
        }
        | inr kept ↦ record {
          told = λ k. rw kept (count-update_loop k m.frontier m.updates false items);
          leads = λ k. rw (kept, count-compact k m.changes) (keep-leads m none_left k);
          drained = refl;
        }
      ]
