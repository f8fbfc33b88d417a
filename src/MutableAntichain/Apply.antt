-- ===== src/MutableAntichain/Apply.antt =====
-- The frontier after the loop of `update_iter`, where it rebuilds and where it decides that no rebuild
-- is required.
use timely_dataflow.Prelude.{
  ℕ, ◌<◌, ◌≡◌, refl, sym, ◌∙◌, subst, Bool, true, false, not, ◌&&◌, List, [], ◌∷◌, ◌++◌, inl, inr,
  arith, Bool-cases, any, Memᴰ, any-of-mem, mem-of-any, positive, negative, add_i64, add_i64-zero,
  zero-add_i64, word,
}
use timely_dataflow.Order.{Eq, PartialOrder, less_than}
use timely_dataflow.ChangeBatch.{Update}
use timely_dataflow.ChangeBatch.Count.{count, count-lt, count-append, share}
use timely_dataflow.Antichain.Laws.{IsAntichain}
use timely_dataflow.Antichain.Equality.{eq-of-comparable}
use timely_dataflow.MutableAntichain.{may_change}
use timely_dataflow.MutableAntichain.Rebuild.{IsFrontier}

-- The sum of two `i64` does not overflow: with operands of one sign the result has it too.
abbrev pub no_overflow : ℕ → ℕ → Bool
no_overflow a b =
    not (negative a && negative b && not (negative (add_i64 a b)))
    && not (not (negative a) && not (negative b) && negative (add_i64 a b))

-- Retracting from a count that is not positive leaves it so.
retract_nonpositive :
    (a b : ℕ)
    → a < word
    → b < word
    → no_overflow a b ≡ true
    → positive a ≡ false
    → negative b ≡ true
    → positive (add_i64 a b) ≡ false
unfolding add_i64
retract_nonpositive a b ha hb n p q = ground arith

module _ {ℓ} {T : Type ℓ} ⦃e : Eq T⦄ where
  -- No count overflows on the way, from the updates `us` through the `items` in their order.
  abbrev pub Fits : List (Update T) → List (Update T) → Type 0
  Fits us [] = Unit
  Fits us (u ∷ items) = (no_overflow (count u.0 us) u.1 ≡ true) × Fits (us ++ u ∷ []) items

  -- The counts after one more update.
  count-snoc :
      (k : T) (us : List (Update T)) (t : T) (d : ℕ)
      → count k (us ++ (t, d) ∷ []) ≡ add_i64 (count k us) (add_i64 (share k (t, d)) 0)
  unfolding count
  count-snoc k us t d = count-append k us ((t, d) ∷ [])

  count-snoc_other :
      (k : T) (us : List (Update T)) (t : T) (d : ℕ)
      → e.equal t k ≡ false
      → count k (us ++ (t, d) ∷ []) ≡ count k us
  count-snoc_other k us t d h =
      count-snoc k us t d
      ∙ rw (h, zero-add_i64 0 (omega arith)) (add_i64-zero (count k us) (count-lt k us))

  count-snoc_self :
      (us : List (Update T)) (t : T) (d : ℕ)
      → d < word
      → count t (us ++ (t, d) ∷ []) ≡ add_i64 (count t us) d
  count-snoc_self us t d h = count-snoc t us t d ∙ rw (e.equal_refl t, add_i64-zero d h) refl

module _ {ℓ} {T : Type ℓ} ⦃e : Eq T⦄ ⦃p : PartialOrder T⦄ where
  -- An update of a time outside of the frontier, whose count is not positive or which lies above
  -- the frontier, leaves the frontier right.
  untouched :
      (us : List (Update T)) (frontier : List T) (t : T) (d : ℕ)
      → ((f : T) → Memᴰ f frontier → e.equal t f ≡ false)
      → (positive (count t (us ++ (t, d) ∷ [])) ≡ true
          → any (λ f. p.less_equal f t) frontier ≡ true)
      → IsFrontier (λ k. count k us) frontier
      → IsFrontier (λ k. count k (us ++ (t, d) ∷ [])) frontier
  untouched us frontier t d outside above i = record {
    antichain = i.antichain;
    sound = λ f m. rw (count-snoc_other f us t d (outside f m)) (i.sound f m);
    complete = λ s h. elim (Bool-cases (e.equal t s)) [
      | inl same ↦
          subst (λ z. any (λ f. p.less_equal f z) frontier ≡ true) (e.eq_of_equal t s same)
            (above (
              subst (λ z. positive (count z (us ++ (t, d) ∷ [])) ≡ true)
                (sym (e.eq_of_equal t s same)) h))
      | inr other ↦ i.complete s (rw (count-snoc_other s us t d other) at h)
    ];
  }

  -- What lies strictly above an element of an antichain is not in it.
  beyond-outside :
      (frontier : List T) (t : T)
      → IsAntichain frontier
      → any (λ f. less_than f t) frontier ≡ true
      → (f : T) → Memᴰ f frontier
      → e.equal t f ≡ false
  unfolding less_than
  beyond-outside frontier t a h f m =
      let (g, n, lt) = mem-of-any (λ g. less_than g t) frontier h in
      elim (Bool-cases (e.equal t f)) [
        | inl same ↦
            let t_in = subst (λ z. Memᴰ z frontier) (sym (e.eq_of_equal t f same)) m in
            let le : p.less_equal g t ≡ true = ground arith in
            let g_is_t = eq-of-comparable frontier a n t_in le in
            absurd (ground (arith, e.equal_refl t))
        | inr other ↦ other
      ]

  below_none-outside :
      (frontier : List T) (t : T)
      → any (λ f. p.less_equal f t) frontier ≡ false
      → (f : T) → Memᴰ f frontier
      → e.equal t f ≡ false
  below_none-outside frontier t h f m = elim (Bool-cases (e.equal t f)) [
    | inl same ↦
        let le : p.less_equal f t ≡ true =
          subst (λ z. p.less_equal z t ≡ true) (e.eq_of_equal t f same) (p.le_refl t) in
        let found = any-of-mem (λ f. p.less_equal f t) frontier m le in absurd (ground arith)
    | inr other ↦ other
  ]

  above-of-beyond :
      (frontier : List T) (t : T)
      → any (λ f. less_than f t) frontier ≡ true
      → any (λ f. p.less_equal f t) frontier ≡ true
  unfolding less_than
  above-of-beyond frontier t h =
      let (g, n, lt) = mem-of-any (λ g. less_than g t) frontier h in
      any-of-mem (λ f. p.less_equal f t) frontier n (ground arith)

  -- An update that may not change the frontier does not.
  pub may_change-IsFrontier :
      (us : List (Update T)) (frontier : List T) (t : T) (d : ℕ)
      → d < word
      → no_overflow (count t us) d ≡ true
      → may_change frontier t d ≡ false
      → IsFrontier (λ k. count k us) frontier
      → IsFrontier (λ k. count k (us ++ (t, d) ∷ [])) frontier
  unfolding may_change
  may_change-IsFrontier us frontier t d r n h i =
      elim (Bool-cases (any (λ f. less_than f t) frontier)) [
        | inl beyond ↦
            untouched us frontier t d (beyond-outside frontier t i.antichain beyond)
              (λ _. above-of-beyond frontier t beyond) i
        | inr at_most ↦
            let none_below : any (λ f. p.less_equal f t) frontier ≡ false = ground arith in
            let retracts : negative d ≡ true = ground arith in
            untouched us frontier t d (below_none-outside frontier t none_below)
              (λ pos. absurd (not_positive none_below retracts pos)) i
      ]
    where
      not_positive :
          any (λ f. p.less_equal f t) frontier ≡ false
          → negative d ≡ true
          → positive (count t (us ++ (t, d) ∷ [])) ≡ true
          → ⊥
      not_positive none_below retracts pos =
          let before : positive (count t us) ≡ false = elim (Bool-cases (positive (count t us))) [
            | inl pos' ↦ let found = i.complete t pos' in ground arith
            | inr no_pos ↦ no_pos
          ] in
          let after = retract_nonpositive (count t us) d (count-lt t us) r n before retracts in
          let pos' : positive (add_i64 (count t us) d) ≡ true =
            rw (count-snoc_self us t d r) at pos in
          ground arith
