-- ===== src/ChangeBatch/Count.antt =====
-- What a list of updates says of a key: the wrapping sum of its differences. What appending,
-- sorting, consolidating and dropping zeroes do to it.
use timely_dataflow.Prelude.{
  ℕ, ◌<◌, Ordering, ◌≡◌, refl, sym, ◌∙◌, ap, List, [], ◌∷◌, ◌++◌, inl, inr, Bool-cases, arith, word,
  add_i64, add_i64-lt, add_i64_assoc, add_i64_left_comm, zero-add_i64, retain, if◌then◌else◌,
}
use timely_dataflow.Order.{Eq, Ord}
use timely_dataflow.Sort.{insert_by, sort_by}
use timely_dataflow.ChangeBatch.{Update, by_key, consolidate, consolidate_all, nonzero}

-- What one update adds to the count of `k`.
abbrev pub share {ℓ} : {T : Type ℓ} ⦃e : Eq T⦄ → T → Update T → ℕ
share ⦃e⦄ k u = if e.equal u.0 k then u.1 else 0

module _ {ℓ} {T : Type ℓ} ⦃e : Eq T⦄ (k : T) where
  unfoldable pub count : List (Update T) → ℕ
  count [] = 0
  count (u ∷ us) = add_i64 (share k u) (count us)

  pub count-lt : (us : List (Update T)) → count us < word
  unfolding count
  count-lt [] = omega arith
  count-lt (u ∷ us) = add_i64-lt (share k u) (count us)

  pub count-append : (us vs : List (Update T)) → count (us ++ vs) ≡ add_i64 (count us) (count vs)
  unfolding count
  count-append [] vs = sym (zero-add_i64 (count vs) (count-lt vs))
  count-append (u ∷ us) vs =
      ap (add_i64 (share k u)) (count-append us vs)
      ∙ sym (add_i64_assoc (share k u) (count us) (count vs))

  pub count-retain : (us : List (Update T)) → count (retain nonzero us) ≡ count us
  unfolding count
  count-retain [] = refl
  count-retain ((t, d) ∷ us) = ground (arith, count-retain us, count-lt us, zero-add_i64 (count us))

  -- Two updates of one key act like their merger beside a zero.
  merge_shares :
      (t s : T) (d x c : ℕ)
      → t ≡ s
      → add_i64 (share k (t, 0)) (add_i64 (share k (s, add_i64 x d)) c)
        ≡ add_i64 (share k (t, d)) (add_i64 (share k (s, x)) c)
  unfolding add_i64
  merge_shares t s d x c h = rw h (ground arith)

  count-consolidate :
      (t : T) (d : ℕ) (us : List (Update T)) → count (consolidate t d us) ≡ count ((t, d) ∷ us)
  unfolding count consolidate
  count-consolidate t d [] = refl
  count-consolidate t d ((s, x) ∷ us) = elim (Bool-cases (e.equal t s)) [
    | inl same ↦
        rw (same, count-consolidate s (add_i64 x d) us, count)
          (merge_shares t s d x (count us) (e.eq_of_equal t s same))
    | inr other ↦ rw (other, count-consolidate s x us, count)
  ]

  count-consolidate_all : (us : List (Update T)) → count (consolidate_all us) ≡ count us
  unfolding consolidate_all
  count-consolidate_all [] = refl
  count-consolidate_all ((t, d) ∷ us) = count-consolidate t d us

module _ {ℓ} {T : Type ℓ} ⦃e : Eq T⦄ ⦃o : Ord T⦄ (k : T) where
  -- Inserting anywhere adds the update to the counts.
  pub count-insert_by :
      (cmp : Update T → Update T → Ordering) (u : Update T) (us : List (Update T))
      → count k (insert_by cmp u us) ≡ count k (u ∷ us)
  unfolding count insert_by
  count-insert_by cmp u [] = refl
  count-insert_by cmp u (v ∷ us) =
      ground
        (arith, count-insert_by cmp u us, add_i64_left_comm (share k u) (share k v) (count k us))

  count-sort_by : (us : List (Update T)) → count k (sort_by by_key us) ≡ count k us
  unfolding count sort_by
  count-sort_by [] = refl
  count-sort_by (u ∷ us) =
      count-insert_by by_key u (sort_by by_key us) ∙ ap (add_i64 (share k u)) (count-sort_by us)

  pub count-rebuild :
      (us : List (Update T))
      → count k (retain nonzero (consolidate_all (sort_by by_key us))) ≡ count k us
  count-rebuild us =
      count-retain k (consolidate_all (sort_by by_key us))
      ∙ count-consolidate_all k (sort_by by_key us)
      ∙ count-sort_by us
