-- ===== src/Reachability/Circulate.antt =====
-- The loop of step 2, round by round.
use timely_dataflow.Prelude.{
  ℕ, zero, suc, List-cases, ◌≡◌, refl, sym, ap, ◌∙◌, subst, true, Bool-cases, inl, inr, arith, List,
  [], ◌∷◌, ◌==◌, some, add_i64, add_i64-zero, All,
}
use timely_dataflow.Order.{Eq, PartialOrder, Ord}
use timely_dataflow.Order.Pair.{pair_eq, pair_ord}
use timely_dataflow.Location.{Location, location_eq, location_ord}
use timely_dataflow.ChangeBatch.{Update}
use timely_dataflow.ChangeBatch.Count.{count}
use timely_dataflow.MutableAntichain.{update_iter}
use timely_dataflow.MutableAntichain.Linear.{update_iter-IsUpdate}
use timely_dataflow.Timestamp.{PathSummary, ◌>>=◌}
use timely_dataflow.Reachability.{Tracker, Entry}
use timely_dataflow.Reachability.Propagate.{accumulate, round, circulate}
use timely_dataflow.Reachability.Flow.{count-accumulate, accumulate-All}
use timely_dataflow.Reachability.Spread.{spread_lem}
use timely_dataflow.Reachability.Step.{IsStep, IsStep-refl, IsStep-trans}
use timely_dataflow.Reachability.Balance.{
  has_port, has_port-elim, has_port-put, recorded-lt, IsShaped, IsBalanced,
}
use timely_dataflow.Reachability.Round.{uncounted, recorded-keep, drop_round, spread_round}

module _ {ℓ κ} {T : Type ℓ} {TS : Type κ} ⦃e : Eq T⦄ ⦃p : PartialOrder T⦄ ⦃o : Ord T⦄
    (s : PathSummary TS T) where
  -- Step 2's body at the entry that `pop` yields: it does not fail, and keeps the invariants.
  round_lem :
      (tracker : Tracker T TS) (time : T) (l : Location) (d : ℕ) (others : List (Entry T))
      → IsShaped s tracker
      → IsBalanced s tracker
      → tracker.worklist ≡ ((time, l), d) ∷ others
      → (after : Tracker T TS) × (round s tracker ((time, l), d) others ≡ some after)
        × IsStep s (λ k. 0) tracker after
  unfolding round count
  round_lem tracker time l d others h b front =
      let (diff, us) = accumulate (time, l) d others in
      let here_all =
        subst (All (λ (u : Entry T). has_port tracker.per_operator u.0.1 ≡ true)) front h.placed in
      let placed =
        accumulate-All (λ u. has_port tracker.per_operator u.0.1 ≡ true) (time, l) d others
          here_all.1 in
      let taken = λ (k : T × Location). count-accumulate k (time, l) d others ∙ counted k in
      elim (Bool-cases (diff == 0)) [
        | inl none_left ↦ (
          record tracker { worklist = us },
          rw none_left refl,
          record {
            progress =
                drop_round s tracker us h b
                  (λ k. uncounted k (time, l) diff us (taken k) (ground arith)) placed;
            stays = λ m at. at;
            records = λ k. sym (add_i64-zero _ (recorded-lt k tracker.per_operator));
            targets_stay = refl;
            sources_stay = refl;
          },
        )
        | inr some_left ↦
            let items : List (Update T) = (time, diff) ∷ [] in
            let (info, found) = has_port-elim tracker.per_operator l here_all.0 in
            let (out, runs, sp) =
              spread_lem s tracker.nodes tracker.edges (λ m. has_port tracker.per_operator m ≡ true)
                l (update_iter info.implications ((time, diff) ∷ [])).1 us tracker.pushed_changes
                (h.leads l here_all.0) in
            (
              _,
              rw (some_left, found, runs) refl,
              record {
                progress = spread_round s tracker l time diff us info out h b taken placed found sp;
                stays = has_port-put l _ tracker.per_operator;
                records = λ k.
                    recorded-keep s l info tracker.per_operator items found
                      (update_iter-IsUpdate info.implications items (h.drained l info found).1) k
                    ∙ sym (add_i64-zero _ (recorded-lt k tracker.per_operator));
                targets_stay = refl;
                sources_stay = refl;
              },
            )
      ]
    where
      counted : (k : T × Location) → count k (((time, l), d) ∷ others) ≡ count k tracker.worklist
      counted k = ap (count k) (sym front)

  circulate-cons :
      (n : ℕ) (tracker : Tracker T TS) (entry : Entry T) (others : List (Entry T))
      → tracker.worklist ≡ entry ∷ others
      → circulate s (suc n) tracker ≡ (round s tracker entry others >>= circulate s n)
  unfolding circulate
  circulate-cons n tracker entry others front = rw front refl

  -- Any number of rounds does not fail, and keeps the invariants.
  pub circulate_lem :
      (n : ℕ) (tracker : Tracker T TS)
      → IsShaped s tracker
      → IsBalanced s tracker
      → (after : Tracker T TS) × (circulate s n tracker ≡ some after)
        × IsStep s (λ k. 0) tracker after
  unfolding circulate add_i64
  circulate_lem zero tracker h b = (tracker, refl, IsStep-refl s tracker h b)
  circulate_lem (suc n) tracker h b = elim (List-cases tracker.worklist) [
    | inl empty ↦ (tracker, rw empty refl, IsStep-refl s tracker h b)
    | inr (((time, l), d), others, front) ↦
        let (middle, runs, step) = round_lem tracker time l d others h b front in
        let (after, ends, rest) =
          circulate_lem n middle step.progress.shaped step.progress.balanced in
        (
          after,
          circulate-cons n tracker ((time, l), d) others front ∙ rw runs ends,
          IsStep-trans s (λ k. 0) (λ k. 0) tracker middle after step rest,
        )
  ]
