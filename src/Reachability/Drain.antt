-- ===== src/Reachability/Drain.antt =====
-- The two loops of step 1, over the buffered changes.
use timely_dataflow.Prelude.{
  ℕ, ◌≡◌, refl, sym, ap, ◌∙◌, true, Bool-cases, inl, inr, arith, List, [], ◌∷◌, map, some, add_i64,
  add_i64-zero, add_i64_assoc, All, All-imp,
}
use timely_dataflow.Order.{Eq, PartialOrder, Ord}
use timely_dataflow.Order.Pair.{pair_eq, pair_ord}
use timely_dataflow.Location.{Location, location_eq, location_ord}
use timely_dataflow.ChangeBatch.{ChangeBatch, Update, compact}
use timely_dataflow.ChangeBatch.Count.{count, count-lt, share}
use timely_dataflow.ChangeBatch.Compact.{InRange}
use timely_dataflow.ChangeBatch.Invariant.{count-compact}
use timely_dataflow.ChangeBatch.Additive.{IsAdditive, sum_by, sum_by-lt, sum_by-counts}
use timely_dataflow.Timestamp.{PathSummary}
use timely_dataflow.Reachability.{Tracker, Entry}
use timely_dataflow.Reachability.Propagate.{join, groups, absorb_all}
use timely_dataflow.Reachability.Flow.{here}
use timely_dataflow.Reachability.Balance.{has_port, IsShaped, IsBalanced}
use timely_dataflow.Reachability.Step.{IsStep, IsStep-refl, IsStep-trans}
use timely_dataflow.Reachability.Absorb.{absorb_lem}

module _ {ℓ} {T : Type ℓ} {K : Type 0} ⦃e : Eq T⦄ ⦃f : Eq K⦄ (place : K → Location) where
  -- Updates of keys and times as updates of times and locations.
  abbrev pub listed : List (Update (K × T)) → List (Entry T)
  listed us = map (λ u. ((u.0.1, place u.0.0), u.1)) us

  -- The counts of grouped updates.
  unfoldable pub grouped : T × Location → List (K × List (Update T)) → ℕ
  grouped k [] = 0
  grouped k ((j, us) ∷ rest) = add_i64 (count k (here (place j) us)) (grouped k rest)

  grouped-join :
      (k : T × Location) (j : K) (u : Update T) (gs : List (K × List (Update T)))
      → grouped k (join j u gs) ≡ add_i64 (share k ((u.0, place j), u.1)) (grouped k gs)
  unfolding grouped join count
  grouped-join k j u [] = regroup (share k ((u.0, place j), u.1)) 0
    where
      regroup : (a b : ℕ) → add_i64 (add_i64 a 0) b ≡ add_i64 a b
      regroup a b = unfold add_i64 in omega arith
  grouped-join k j u ((i, us) ∷ gs) = elim (Bool-cases (f.equal i j)) [
    | inl same ↦
        rw (same, f.eq_of_equal i j same)
          (add_i64_assoc (share k ((u.0, place j), u.1)) (count k (here (place j) us))
            (grouped k gs))
    | inr other ↦ rw other (regroup (share k ((u.0, place j), u.1)) _)
  ]
    where
      regroup : (a b : ℕ) → add_i64 (add_i64 a 0) b ≡ add_i64 a b
      regroup a b = unfold add_i64 in omega arith

  pub grouped-groups :
      (k : T × Location) (us : List (Update (K × T))) → grouped k (groups us) ≡ count k (listed us)
  unfolding groups grouped count
  grouped-groups k [] = refl
  grouped-groups k (((j, t), d) ∷ us) =
      grouped-join k j (t, d) (groups us)
      ∙ ap (add_i64 (share k ((t, place j), d))) (grouped-groups k us)

  join-All :
      (P : K → Type 0) (j : K) (u : Update T) (gs : List (K × List (Update T)))
      → P j
      → All (λ (g : K × List (Update T)). P g.0) gs
      → All (λ (g : K × List (Update T)). P g.0) (join j u gs)
  unfolding join
  join-All P j u [] h r = (h, tt)
  join-All P j u ((i, us) ∷ gs) h r = elim (Bool-cases (f.equal i j)) [
    | inl same ↦ rw same (h, r.1)
    | inr other ↦ rw other (h, r)
  ]

  pub groups-All :
      (P : K → Type 0) (us : List (Update (K × T)))
      → All (λ (u : Update (K × T)). P u.0.0) us
      → All (λ (g : K × List (Update T)). P g.0) (groups us)
  unfolding groups
  groups-All P [] h = tt
  groups-All P (((j, t), d) ∷ us) h = join-All P j (t, d) (groups us) h.0 (groups-All P us h.1)

  -- The weight of an update at a time and location.
  abbrev weigh : T × Location → K × T → ℕ → ℕ
  weigh k j d = share {T = T × Location} k ((j.1, place j.0), d)

  weigh-IsAdditive : (k : T × Location) → IsAdditive (weigh k)
  weigh-IsAdditive k = record {
    at_zero = λ j. elim (Bool-cases (pair_eq.equal (j.1, place j.0) k)) [
      | inl same ↦ rw same refl
      | inr other ↦ rw other refl
    ];
    plus = λ j d x. elim (Bool-cases (pair_eq.equal (j.1, place j.0) k)) [
      | inl same ↦ rw same refl
      | inr other ↦ rw other (sym (add_i64-zero 0 (omega arith)))
    ];
  }

  listed-sum :
      (k : T × Location) (us : List (Update (K × T))) → count k (listed us) ≡ sum_by (weigh k) us
  unfolding count sum_by
  listed-sum k [] = refl
  listed-sum k (u ∷ us) = ap (add_i64 (weigh k u.0 u.1)) (listed-sum k us)

  module _ ⦃o : Ord T⦄ ⦃q : Ord K⦄ where
    -- Compacting leaves the counts at every time and location.
    pub listed-compact :
        (k : T × Location) (b : ChangeBatch (K × T))
        → InRange b.updates
        → count k (listed (compact b).updates) ≡ count k (listed b.updates)
    unfolding count sum_by
    listed-compact k b r =
        listed-sum k (compact b).updates
        ∙ sym (add_i64-zero _ (sum_by-lt (weigh k) (compact b).updates))
        ∙ sum_by-counts (weigh k) (weigh-IsAdditive k) (compact b).updates [] b.updates r
            (λ j. add_i64-zero _ (count-lt j (compact b).updates) ∙ count-compact j b)
        ∙ sym (listed-sum k b.updates)

module _ {ℓ κ} {T : Type ℓ} {TS : Type κ} ⦃e : Eq T⦄ ⦃p : PartialOrder T⦄ ⦃o : Ord T⦄
    (s : PathSummary TS T) where
  module _ {K : Type 0} ⦃f : Eq K⦄ (place : K → Location) where
    pub absorb_all_lem :
        (tracker : Tracker T TS) (gs : List (K × List (Update T)))
        → IsShaped s tracker
        → IsBalanced s tracker
        → All (λ (g : K × List (Update T)). has_port tracker.per_operator (place g.0) ≡ true) gs
        → (after : Tracker T TS) × (absorb_all s place tracker gs ≡ some after)
          × IsStep s (λ k. grouped place k gs) tracker after
    unfolding absorb_all grouped
    absorb_all_lem tracker [] h b at = (tracker, refl, IsStep-refl s tracker h b)
    absorb_all_lem tracker ((j, us) ∷ gs) h b at =
        let (middle, runs, step) = absorb_lem s tracker (place j) us h b at.0 in
        let (after, ends, rest) =
          absorb_all_lem middle gs step.progress.shaped step.progress.balanced
            (All-imp (λ g. step.stays (place g.0)) gs at.1) in
        (
          after,
          rw runs ends,
          IsStep-trans s (λ k. count k (here (place j) us)) (λ k. grouped place k gs) tracker middle
              after step rest,
        )
