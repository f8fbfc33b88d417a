-- ===== src/MutableAntichain/Rebuild.antt =====
-- `rebuild`, and the frontier as the least times with a positive count.
use timely_dataflow.Prelude.{
  ℕ, ◌≡◌, ◌≢◌, refl, sym, ap, subst, true, false, not, ◌&&◌, List, [], ◌∷◌, ◌++◌, ◌⊎◌, inl, inr,
  arith, Bool-cases, any, All, Memᴰ, any-append, any-of-mem, mem-of-All, All-of-mem, positive,
  zero-add_i64, if◌then◌else◌,
}
use mathlib.Core.List.Memᴰ
use timely_dataflow.Order.{Eq, PartialOrder, Ord, IsCompatible}
use timely_dataflow.ChangeBatch.{Update, compact, iter}
use timely_dataflow.ChangeBatch.Count.{count}
use timely_dataflow.ChangeBatch.Compact.{IsAbove, IsAscending, InRange}
use timely_dataflow.ChangeBatch.Keys.{count-IsAscending}
use timely_dataflow.ChangeBatch.Invariant.{
  IsWellFormed, compact-IsAscending, compact-InRange, count-compact,
}
use timely_dataflow.Antichain.Laws.{IsAntichain, AreIncomparable, IsAntichain-append}
use timely_dataflow.MutableAntichain.{MutableAntichain, build_frontier, rebuild}

module _ {ℓ} {T : Type ℓ} ⦃p : PartialOrder T⦄ where
  -- `frontier` holds exactly the least times whose count is positive.
  pub record IsFrontier (counts : T → ℕ) (frontier : List T) : Type ℓ where
    pub antichain : IsAntichain frontier
    pub sound : (f : T) → Memᴰ f frontier → positive (counts f) ≡ true
    pub complete :
        (t : T) → positive (counts t) ≡ true → any (λ f. p.less_equal f t) frontier ≡ true

  pub IsFrontier-counts :
      (c d : T → ℕ) (frontier : List T)
      → ((t : T) → c t ≡ d t)
      → IsFrontier c frontier
      → IsFrontier d frontier
  IsFrontier-counts c d frontier h i = record {
    antichain = i.antichain;
    sound = λ f m. subst (λ x. positive x ≡ true) (h f) (i.sound f m);
    complete = λ t k. i.complete t (subst (λ x. positive x ≡ true) (sym (h t)) k);
  }

  -- One round of the loop.
  abbrev grow : List T → T → ℕ → List T
  grow frontier t d =
      if positive d && not (any (λ f. p.less_equal f t) frontier)
      then frontier ++ t ∷ []
      else frontier

  grow-covers :
      (frontier : List T) (t : T) (d : ℕ)
      → positive d ≡ true
      → any (λ f. p.less_equal f t) (grow frontier t d) ≡ true
  grow-covers frontier t d h = elim (Bool-cases (any (λ f. p.less_equal f t) frontier)) [
    | inl old ↦ rw (h, old) old
    | inr new ↦
        rw (h, new)
          (ground (arith, any-append (λ f. p.less_equal f t) frontier (t ∷ []), p.le_refl t))
  ]

  grow-keeps :
      (frontier : List T) (t s : T) (d : ℕ)
      → any (λ f. p.less_equal f s) frontier ≡ true
      → any (λ f. p.less_equal f s) (grow frontier t d) ≡ true
  grow-keeps frontier t s d h =
      elim (Bool-cases (positive d && not (any (λ f. p.less_equal f t) frontier))) [
        | inl add ↦ rw add (ground (arith, any-append (λ f. p.less_equal f s) frontier (t ∷ [])))
        | inr skip ↦ rw skip h
      ]

  grow-mem :
      (frontier : List T) (t : T) (d : ℕ) {f : T}
      → Memᴰ f (grow frontier t d)
      → Memᴰ f frontier ⊎ ((f ≡ t) × (positive d ≡ true))
  grow-mem frontier t d {f = f} m =
      elim (Bool-cases (positive d && not (any (λ f. p.less_equal f t) frontier))) [
        | inl add ↦
            let m' : Memᴰ f (frontier ++ t ∷ []) = rw add at m in
            elim (Memᴰ.append_cases frontier m') [
              | inl old ↦ inl old
              | inr last ↦ inr (Memᴰ.eq_of_singleton last, ground arith)
            ]
        | inr skip ↦ inl (rw skip at m)
      ]

  build_frontier-keeps :
      (frontier : List T) (us : List (Update T)) (s : T)
      → any (λ f. p.less_equal f s) frontier ≡ true
      → any (λ f. p.less_equal f s) (build_frontier frontier us) ≡ true
  unfolding build_frontier
  build_frontier-keeps frontier [] s h = h
  build_frontier-keeps frontier ((t, d) ∷ us) s h =
      build_frontier-keeps (grow frontier t d) us s (grow-keeps frontier t s d h)

  -- Each time of the list with a positive difference lies above the frontier that is built.
  build_frontier-covers :
      (frontier : List T) (us : List (Update T)) (s : T) (x : ℕ)
      → Memᴰ (s, x) us
      → positive x ≡ true
      → any (λ f. p.less_equal f s) (build_frontier frontier us) ≡ true
  unfolding build_frontier
  build_frontier-covers frontier [] s x m h = elim m [ ]
  build_frontier-covers frontier ((t, d) ∷ us) s x (Memᴰ.head e) h =
      build_frontier-keeps (grow frontier t d) us s (
        subst (λ (u : Update T). any (λ f. p.less_equal f u.0) (grow frontier t d) ≡ true) (sym e)
          (grow-covers frontier t d (subst (λ (u : Update T). positive u.1 ≡ true) e h)))
  build_frontier-covers frontier ((t, d) ∷ us) s x (Memᴰ.tail m) h =
      build_frontier-covers (grow frontier t d) us s x m h

  -- What the built frontier holds was there or is such a time.
  build_frontier-mem :
      (frontier : List T) (us : List (Update T)) {f : T}
      → Memᴰ f (build_frontier frontier us)
      → Memᴰ f frontier ⊎ ((x : ℕ) × Memᴰ (f, x) us × (positive x ≡ true))
  unfolding build_frontier
  build_frontier-mem frontier [] m = inl m
  build_frontier-mem frontier ((t, d) ∷ us) m = elim (build_frontier-mem (grow frontier t d) us m) [
    | inl early ↦ elim (grow-mem frontier t d early) [
      | inl old ↦ inl old
      | inr (e, h) ↦ inr (d, Memᴰ.head (λ i. (e i, d)), h)
    ]
    | inr (x, later, h) ↦ inr (x, Memᴰ.tail later, h)
  ]

module _ {ℓ} {T : Type ℓ} ⦃p : PartialOrder T⦄ ⦃o : Ord T⦄ (compatible : IsCompatible p o) where
  -- Every time of the frontier stands, in the order of sorting, before every update that is left.
  abbrev Precedes : List T → List (Update T) → Type ℓ
  Precedes frontier us = (f : T) → Memᴰ f frontier → IsAbove f us

  incomparable-new :
      (frontier : List T) (t : T) (d : ℕ) (us : List (Update T))
      → Precedes frontier ((t, d) ∷ us)
      → any (λ f. p.less_equal f t) frontier ≡ false
      → All (AreIncomparable t) frontier
  incomparable-new frontier t d us before h = All-of-mem (AreIncomparable t) frontier λ f m. (
    elim (Bool-cases (p.less_equal t f)) [
      | inl le ↦ absurd (compatible.not_gt t f le (o.gt_of_lt f t (before f m).0))
      | inr not_le ↦ not_le
    ],
    elim (Bool-cases (p.less_equal f t)) [
      | inl le ↦ let found = any-of-mem (λ f. p.less_equal f t) frontier m le in ground arith
      | inr not_le ↦ not_le
    ],
  )

  grow-IsAntichain :
      (frontier : List T) (t : T) (d : ℕ) (us : List (Update T))
      → Precedes frontier ((t, d) ∷ us)
      → IsAntichain frontier
      → IsAntichain (grow frontier t d)
  grow-IsAntichain frontier t d us before h =
      elim (Bool-cases (positive d && not (any (λ f. p.less_equal f t) frontier))) [
        | inl add ↦ rw add (
            IsAntichain-append t frontier (incomparable-new frontier t d us before (ground arith))
              h)
        | inr skip ↦ rw skip h
      ]

  grow-Precedes :
      (frontier : List T) (t : T) (d : ℕ) (us : List (Update T))
      → Precedes frontier ((t, d) ∷ us)
      → IsAbove t us
      → Precedes (grow frontier t d) us
  grow-Precedes frontier t d us before above f m = elim (grow-mem frontier t d m) [
    | inl old ↦ (before f old).1
    | inr (e, _) ↦ subst (λ g. IsAbove g us) (sym e) above
  ]

  -- From ascending updates the loop builds an antichain.
  build_frontier-IsAntichain :
      (frontier : List T) (us : List (Update T))
      → Precedes frontier us
      → IsAscending us
      → IsAntichain frontier
      → IsAntichain (build_frontier frontier us)
  unfolding build_frontier
  build_frontier-IsAntichain frontier [] before a h = h
  build_frontier-IsAntichain frontier ((t, d) ∷ us) before a h =
      build_frontier-IsAntichain (grow frontier t d) us (grow-Precedes frontier t d us before a.0)
        a.1 (grow-IsAntichain frontier t d us before h)

module _ {ℓ} {T : Type ℓ} ⦃e : Eq T⦄ ⦃p : PartialOrder T⦄ ⦃o : Ord T⦄
    (compatible : IsCompatible p o) where
  -- A key with a count other than zero occurs, in ascending updates with its count.
  mem-of-count : (us : List (Update T)) (k : T) → count k us ≢ 0 → (x : ℕ) × Memᴰ (k, x) us
  unfolding count
  mem-of-count [] k h = absurd (h refl)
  mem-of-count ((t, d) ∷ us) k h = elim (Bool-cases (e.equal t k)) [
    | inl same ↦ (d, Memᴰ.head (ap (λ (z : T). (z, d)) (sym (e.eq_of_equal t k same))))
    | inr other ↦
        let (x, m) = mem-of-count us k (λ z. h (rw (other, z) (zero-add_i64 0 (omega arith)))) in
        (x, Memᴰ.tail m)
  ]

  build_frontier-IsFrontier :
      (us : List (Update T))
      → IsAscending us
      → InRange us
      → IsFrontier (λ k. count k us) (build_frontier [] us)
  build_frontier-IsFrontier us a r = record {
    antichain = build_frontier-IsAntichain compatible [] us (λ f m. absurd (Memᴰ.not-nil m)) a tt;
    sound = λ f m. elim (build_frontier-mem [] us m) [
      | inl old ↦ absurd (Memᴰ.not-nil old)
      | inr (x, n, h) ↦ rw (counts (f, x) n) h
    ];
    complete = λ t h.
        let (x, m) = mem-of-count us t (λ z. ground arith) in
        build_frontier-covers [] us t x m (rw (counts (t, x) m) at h);
  }
    where
      counts : (u : Update T) → Memᴰ u us → count u.0 us ≡ u.1
      counts u m = mem-of-All (λ v. count v.0 us ≡ v.1) us (count-IsAscending us a r) m

  -- Where `Ord` does not contradict `PartialOrder`, after `rebuild` of well-formed `i64` updates
  -- the frontier holds exactly the least times with a positive count, and no count has changed.
  pub rebuild_correct :
      (m : MutableAntichain T)
      → IsWellFormed m.updates
      → InRange m.updates.updates
      → IsFrontier (λ k. count k m.updates.updates) (rebuild m).frontier
        × ((k : T) → count k (rebuild m).updates.updates ≡ count k m.updates.updates)
  unfolding rebuild iter
  rebuild_correct m w r = (
    IsFrontier-counts _ _ _ (λ k. count-compact k m.updates)
        (build_frontier-IsFrontier (compact m.updates).updates (compact-IsAscending m.updates w)
          (compact-InRange m.updates r)),
    λ k. count-compact k m.updates,
  )
