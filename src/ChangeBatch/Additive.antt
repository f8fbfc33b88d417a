-- ===== src/ChangeBatch/Additive.antt =====
-- Sums over updates that depend on the updates only through the count of each key.
use timely_dataflow.Prelude.{
  ℕ, zero, suc, ◌≤◌, ◌<◌, ◌≡◌, refl, sym, ap, ◌∙◌, inl, inr, true, false, not, List, [], ◌∷◌, ◌++◌,
  map, length, retain, Bool-cases, if◌then◌else◌, arith, minus, add_i64, add_i64-lt, add_i64-zero,
  zero-add_i64, add_i64_assoc, add_i64_left_comm, subst, word,
}
use timely_dataflow.Order.{Eq}
use timely_dataflow.ChangeBatch.{Update}
use timely_dataflow.ChangeBatch.Count.{count, count-lt, count-append, share}
use timely_dataflow.ChangeBatch.Compact.{InRange}

-- A weight of updates that adds up over the difference of a key.
pub record IsAdditive {ℓ} {T : Type ℓ} (weight : T → ℕ → ℕ) : Type ℓ where
  pub at_zero : (t : T) → weight t 0 ≡ 0
  pub plus : (t : T) (d e : ℕ) → weight t (add_i64 d e) ≡ add_i64 (weight t d) (weight t e)

module _ {ℓ} {T : Type ℓ} (weight : T → ℕ → ℕ) where
  unfoldable pub sum_by : List (Update T) → ℕ
  sum_by [] = 0
  sum_by ((t, d) ∷ us) = add_i64 (weight t d) (sum_by us)

  pub sum_by-lt : (us : List (Update T)) → sum_by us < word
  unfolding sum_by
  sum_by-lt [] = omega arith
  sum_by-lt ((t, d) ∷ us) = add_i64-lt (weight t d) (sum_by us)

  pub sum_by-append :
      (us vs : List (Update T)) → sum_by (us ++ vs) ≡ add_i64 (sum_by us) (sum_by vs)
  unfolding sum_by
  sum_by-append [] vs = sym (zero-add_i64 (sum_by vs) (sum_by-lt vs))
  sum_by-append ((t, d) ∷ us) vs =
      ap (add_i64 (weight t d)) (sum_by-append us vs)
      ∙ sym (add_i64_assoc (weight t d) (sum_by us) (sum_by vs))

abbrev pub negate {ℓ} : {T : Type ℓ} → List (Update T) → List (Update T)
negate us = map (λ u. (u.0, minus u.1)) us

minus_cancel : (d : ℕ) → d < word → add_i64 (minus d) d ≡ 0
unfolding add_i64
minus_cancel d h = omega arith

pub exchange :
    (a b c d : ℕ) → add_i64 (add_i64 a b) (add_i64 c d) ≡ add_i64 (add_i64 a c) (add_i64 b d)
unfolding add_i64
exchange a b c d = omega arith

module _ {ℓ} {T : Type ℓ} ⦃e : Eq T⦄ where
  -- The updates of the other keys.
  abbrev others : T → List (Update T) → List (Update T)
  others k us = retain (λ u. not (e.equal u.0 k)) us

  length-others : (k : T) (us : List (Update T)) → length (others k us) ≤ length us
  length-others k [] = omega arith
  length-others k (u ∷ us) = ground (arith, length-others k us)

  equal_trans : (i j k : T) → e.equal i j ≡ true → e.equal j k ≡ true → e.equal i k ≡ true
  equal_trans i j k h g = subst (λ x. e.equal x k ≡ true) (sym (e.eq_of_equal i j h)) g

  equal_sym : (i j : T) → e.equal i j ≡ true → e.equal j i ≡ true
  equal_sym i j h = subst (λ x. e.equal x i ≡ true) (e.eq_of_equal i j h) (e.equal_refl i)

  count-others :
      (j k : T) (us : List (Update T))
      → count j (others k us) ≡ (if e.equal j k then 0 else count j us)
  unfolding count
  count-others j k [] = ground arith
  count-others j k ((t, d) ∷ us) = elim (Bool-cases (e.equal t k)) [
    | inl same ↦ elim (Bool-cases (e.equal j k)) [
      | inl here ↦ rw (same, here) (count-others j k us ∙ rw here refl)
      | inr away ↦
          let apart : e.equal t j ≡ false = ground (arith, equal_sym t j, equal_trans j t k) in
          rw (same, away, apart)
            (count-others j k us ∙ rw away (sym (zero-add_i64 (count j us) (count-lt j us))))
    ]
    | inr other ↦ elim (Bool-cases (e.equal j k)) [
      | inl here ↦
          let apart : e.equal t j ≡ false = ground (arith, equal_trans t j k) in
          rw (other, here, apart)
            (ap (add_i64 0) (count-others j k us ∙ rw here refl) ∙ add_i64-zero 0 (omega arith))
      | inr away ↦
          rw (other, away) (ap (add_i64 (share j (t, d))) (count-others j k us ∙ rw away refl))
    ]
  ]

  -- The counts of negated updates cancel.
  count-negate :
      (k : T) (us : List (Update T)) → InRange us → add_i64 (count k (negate us)) (count k us) ≡ 0
  unfolding count
  count-negate k [] r = add_i64-zero 0 (omega arith)
  count-negate k ((t, d) ∷ us) r =
      exchange (share k (t, minus d)) (count k (negate us)) (share k (t, d)) (count k us)
      ∙ rw (count-negate k us r.1) (elim (Bool-cases (e.equal t k)) [
        | inl same ↦ rw (same, minus_cancel d r.0) (add_i64-zero 0 (omega arith))
        | inr other ↦ rw (other, add_i64-zero 0 (omega arith)) (add_i64-zero 0 (omega arith))
      ])

module _ {ℓ} {T : Type ℓ} ⦃e : Eq T⦄ (weight : T → ℕ → ℕ) (additive : IsAdditive weight) where
  sum_by-others :
      (k : T) (us : List (Update T))
      → sum_by weight us ≡ add_i64 (weight k (count k us)) (sum_by weight (others k us))
  unfolding sum_by count
  sum_by-others k [] = rw (additive.at_zero k) (sym (add_i64-zero 0 (omega arith)))
  sum_by-others k ((t, d) ∷ us) = elim (Bool-cases (e.equal t k)) [
    | inl same ↦
        rw (same, additive.plus k d (count k us), e.eq_of_equal t k same)
          (ap (add_i64 (weight k d)) (sum_by-others k us)
            ∙ sym
                (add_i64_assoc (weight k d) (weight k (count k us)) (sum_by weight (others k us))))
    | inr other ↦
        rw (other, zero-add_i64 (count k us) (count-lt k us))
          (ap (add_i64 (weight t d)) (sum_by-others k us)
            ∙ add_i64_left_comm (weight t d) (weight k (count k us)) (sum_by weight (others k us)))
  ]

  -- If every key cancels, so does the sum.
  sum_by-zero_counts :
      (n : ℕ) (us : List (Update T))
      → length us ≤ n
      → ((k : T) → count k us ≡ 0)
      → sum_by weight us ≡ 0
  unfolding sum_by
  sum_by-zero_counts n [] h z = refl
  sum_by-zero_counts zero (u ∷ us) h z = absurd (omega arith)
  sum_by-zero_counts (suc n) ((t, d) ∷ us) h z =
      sum_by-others t ((t, d) ∷ us)
      ∙ rw (z t, additive.at_zero t)
          (ap (add_i64 0) (
              sum_by-zero_counts n (others t ((t, d) ∷ us)) (shorter (e.equal_refl t))
                (λ k. count-others k t ((t, d) ∷ us) ∙ vanish k))
            ∙ add_i64-zero 0 (omega arith))
    where
      shorter : e.equal t t ≡ true → length (others t ((t, d) ∷ us)) ≤ n
      shorter r = rw r (omega (arith, length-others t us))

      vanish : (k : T) → (if e.equal k t then 0 else count k ((t, d) ∷ us)) ≡ 0
      vanish k = rw (z k) (ground arith)

  sum_by-negate :
      (us : List (Update T))
      → InRange us
      → add_i64 (sum_by weight (negate us)) (sum_by weight us) ≡ 0
  unfolding sum_by
  sum_by-negate [] r = add_i64-zero 0 (omega arith)
  sum_by-negate ((t, d) ∷ us) r =
      exchange (weight t (minus d)) (sum_by weight (negate us)) (weight t d) (sum_by weight us)
      ∙ rw
          (
            sym (additive.plus t (minus d) d),
            sum_by-negate us r.1,
            minus_cancel d r.0,
            additive.at_zero t,
          )
          (add_i64-zero 0 (omega arith))

  settle_sum :
      (a b c n : ℕ)
      → c < word
      → a < word
      → add_i64 a (add_i64 b n) ≡ 0
      → add_i64 n c ≡ 0
      → add_i64 a b ≡ c
  unfolding add_i64
  settle_sum a b c n h g y z = omega arith

  cancel_sum : (a b c n : ℕ) → add_i64 a b ≡ c → add_i64 n c ≡ 0 → add_i64 a (add_i64 b n) ≡ 0
  unfolding add_i64
  cancel_sum a b c n y z = omega arith

  -- The sums follow the counts: if for every key the counts of `us` and `vs` add up to that of `ws`, so
  -- do the sums.
  pub sum_by-counts :
      (us vs ws : List (Update T))
      → InRange ws
      → ((k : T) → add_i64 (count k us) (count k vs) ≡ count k ws)
      → add_i64 (sum_by weight us) (sum_by weight vs) ≡ sum_by weight ws
  sum_by-counts us vs ws r h =
      settle_sum (sum_by weight us) (sum_by weight vs) (sum_by weight ws)
        (sum_by weight (negate ws)) (sum_by-lt weight ws) (sum_by-lt weight us)
        (sym sums ∙ zero_sum) (sum_by-negate ws r)
    where
      sums :
          sum_by weight (us ++ (vs ++ negate ws))
          ≡ add_i64 (sum_by weight us) (add_i64 (sum_by weight vs) (sum_by weight (negate ws)))
      sums =
          sum_by-append weight us (vs ++ negate ws)
          ∙ ap (add_i64 (sum_by weight us)) (sum_by-append weight vs (negate ws))

      zero_counts : (k : T) → count k (us ++ (vs ++ negate ws)) ≡ 0
      zero_counts k =
          count-append k us (vs ++ negate ws)
          ∙ ap (add_i64 (count k us)) (count-append k vs (negate ws))
          ∙ cancel_sum (count k us) (count k vs) (count k ws) (count k (negate ws)) (h k)
              (count-negate k ws r)

      zero_sum : sum_by weight (us ++ (vs ++ negate ws)) ≡ 0
      zero_sum =
          sum_by-zero_counts (length (us ++ (vs ++ negate ws))) (us ++ (vs ++ negate ws))
            (omega arith) zero_counts
