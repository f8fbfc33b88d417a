-- ===== src/ChangeBatch/Methods.antt =====
-- The methods of a change batch, in terms of the count of each key: compaction, emptiness, draining,
-- and the bound on what is not compact.
use timely_dataflow.Prelude.{
  ◌/◌, ◌≤◌, ◌<◌, ◌≡◌, ◌≢◌, ◌↔◌, ◌⊎◌, inl, inr, refl, sym, subst, ◌∙◌, ap, List, [], ◌∷◌, ◌++◌, true,
  false, Bool-cases, arith, length, All, All-take, take, drop, take-append-drop, length-take,
  length-append, nil-of-is_nil, is_nil, ltb, leb, ◌&&◌, add_i64, zero-add_i64, word,
}
use timely_dataflow.Order.{Eq, Ord}
use timely_dataflow.ChangeBatch.{
  ChangeBatch, Update, new, new_from, compact, maintain_bounds, update, extend, drain, is_empty,
  drain_into,
}
use timely_dataflow.ChangeBatch.Count.{count, count-lt, count-append}
use timely_dataflow.ChangeBatch.Compact.{IsAscending, IsNonzero, InRange}
use timely_dataflow.ChangeBatch.Keys.{count-IsAscending, Cancelled, length-Cancelled}
use timely_dataflow.ChangeBatch.Invariant.{
  IsWellFormed, compact-IsAscending, count-compact, count-extend, extend-IsWellFormed,
  new-IsWellFormed, compact-clean, compact-IsProper, IsProper,
}

module _ {ℓ} {T : Type ℓ} ⦃e : Eq T⦄ ⦃o : Ord T⦄ where
  -- After `maintain_bounds` few updates are stored or most of them are clean.
  maintain_bound :
      (b : ChangeBatch T)
      → (length (maintain_bounds b).updates ≤ 32)
        ⊎ (length (maintain_bounds b).updates / 2 < (maintain_bounds b).clean)
  unfolding maintain_bounds
  maintain_bound b =
      elim (Bool-cases (ltb 32 (length b.updates) && leb b.clean (length b.updates / 2))) [
        | inl grown ↦ rw (grown, compact-clean b) (omega arith)
        | inr small ↦ rw small (ground arith)
      ]

  -- Compacting a well-formed batch of nonzero `i64` differences leaves the count of every key as it
  -- was, puts the keys in strictly ascending order, leaves no zero difference, and marks all of it
  -- clean.
  pub compact_correct :
      (b : ChangeBatch T)
      → IsProper b
      → ((k : T) → count k (compact b).updates ≡ count k b.updates)
        × IsAscending (compact b).updates
        × ((compact b).clean ≡ length (compact b).updates)
        × IsProper (compact b)
  compact_correct b p = (
    λ k. count-compact k b,
    compact-IsAscending b p.formed,
    compact-clean b,
    compact-IsProper b p,
  )

  Cancelled-of-counts :
      (us vs : List (Update T))
      → ((k : T) → add_i64 (count k us) (count k vs) ≡ 0)
      → (ws : List (Update T)) → All (λ u. count u.0 us ≡ u.1) ws
      → Cancelled vs ws
  Cancelled-of-counts us vs z [] h = tt
  Cancelled-of-counts us vs z (w ∷ ws) h =
      (subst (λ x. add_i64 x (count w.0 vs) ≡ 0) h.0 (z w.0), Cancelled-of-counts us vs z ws h.1)

  -- If every key cancels, at most half of the updates are clean.
  zero_counts-clean :
      (b : ChangeBatch T)
      → IsWellFormed b
      → IsNonzero b.updates
      → InRange b.updates
      → ((k : T) → count k b.updates ≡ 0)
      → b.clean ≤ length b.updates / 2
  zero_counts-clean b w n r z =
      let us = take b.clean b.updates in
      let vs = drop b.clean b.updates in
      let whole = take-append-drop b.clean b.updates in
      let r' = All-take (λ u. u.1 < word) b.clean b.updates r in
      let sums = λ (k : T). sym (count-append k us vs) ∙ ap (count k) whole ∙ z k in
      omega (
        arith,
        length-Cancelled us vs w.ascending (All-take (λ u. u.1 ≢ 0) b.clean b.updates n) r'
            (Cancelled-of-counts us vs sums us (count-IsAscending us w.ascending r')),
        length-take b.clean b.updates w.within,
        sym (length-append us vs) ∙ ap length whole,
      )

  nil-of-zero_counts :
      (us : List (Update T))
      → IsAscending us
      → IsNonzero us
      → InRange us
      → ((k : T) → count k us ≡ 0)
      → is_nil us ≡ true
  nil-of-zero_counts [] a n r z = refl
  nil-of-zero_counts (u ∷ us) a n r z =
      absurd (n.0 (sym (count-IsAscending (u ∷ us) a r).0 ∙ z u.0))

  zero_counts-of-nil : (us : List (Update T)) → is_nil us ≡ true → (k : T) → count k us ≡ 0
  unfolding count
  zero_counts-of-nil [] h k = refl
  zero_counts-of-nil (u ∷ us) h k = cc

  -- On a well-formed batch of nonzero `i64` differences `is_empty` answers whether the count of
  -- every key is zero, also where the shortcut answers with no compaction.
  pub is_empty_correct :
      (b : ChangeBatch T) → IsProper b → ((is_empty b).1 ≡ true) ↔ ((k : T) → count k b.updates ≡ 0)
  unfolding is_empty
  is_empty_correct b p = elim (Bool-cases (ltb (length b.updates / 2) b.clean)) [
    | inl short ↦
        rw short
          ((λ h. cc), λ z. absurd (half short (zero_counts-clean b p.formed p.nonzeros p.ranged z)))
    | inr long ↦
        let q = compact-IsProper b p in
        rw long (
          (λ h k. sym (count-compact k b) ∙ zero_counts-of-nil (compact b).updates h k),
          λ z.
              nil-of-zero_counts (compact b).updates (compact-IsAscending b p.formed) q.nonzeros
                q.ranged (λ k. count-compact k b ∙ z k),
        )
  ]
    where
      half : ltb (length b.updates / 2) b.clean ≡ true → ¬ (b.clean ≤ length b.updates / 2)
      half h k = ground arith

  -- A batch that was told of one update by zero says that it is not empty, though the count of
  -- every key is zero: `compact` looks at no single update.
  pub is_empty-zero_update :
      (t : T)
      → ((is_empty (new_from t 0)).1 ≡ false) × ((k : T) → count k (new_from t 0).updates ≡ 0)
  unfolding is_empty new_from update new compact maintain_bounds count
  is_empty-zero_update t = (refl, λ k. ground (arith, zero-add_i64 0 (omega arith)))

  -- After `extend` of a well-formed batch (and `update`, which is `extend` by one) at most 32
  -- updates are stored, or more than half of them are known to be compact; the counts are those of
  -- both lists, and the batch stays well formed.
  pub extend_bounded :
      (b : ChangeBatch T) (items : List (Update T))
      → IsWellFormed b
      → ((length (extend b items).updates ≤ 32)
          ⊎ (length (extend b items).updates / 2 < (extend b items).clean))
        × ((k : T) → count k (extend b items).updates ≡ add_i64 (count k b.updates) (count k items))
        × IsWellFormed (extend b items)
  unfolding extend
  extend_bounded b items w =
      (extend_bound, λ k. count-extend k b items, extend-IsWellFormed b items w)
    where
      extend_bound :
          (length (extend b items).updates ≤ 32)
          ⊎ (length (extend b items).updates / 2 < (extend b items).clean)
      extend_bound = maintain_bound (record b { updates = b.updates ++ items })

  -- `drain` of a well-formed batch hands out, once for each key in ascending order, updates with
  -- the counts of the batch, and leaves it empty.
  pub drain_correct :
      (b : ChangeBatch T)
      → IsWellFormed b
      → ((k : T) → count k (drain b).1 ≡ count k b.updates)
        × IsAscending (drain b).1
        × ((drain b).0 ≡ new)
  unfolding drain new
  drain_correct b w = (λ k. count-compact k b, compact-IsAscending b w, refl)

  -- `drain_into` between well-formed batches moves all counts over and leaves no update behind,
  -- whether it swaps the two batches or appends, and both batches stay well formed.
  pub drain_into_correct :
      (b c : ChangeBatch T)
      → IsWellFormed b
      → IsWellFormed c
      → ((k : T)
          → count k (drain_into b c).1.updates ≡ add_i64 (count k c.updates) (count k b.updates))
        × ((drain_into b c).0.updates ≡ [])
        × IsWellFormed (drain_into b c).0
        × IsWellFormed (drain_into b c).1
  unfolding drain_into count new
  drain_into_correct b c wb wc = elim (Bool-cases (is_nil c.updates)) [
    | inl empty ↦
        let none_left = nil-of-is_nil c.updates empty in
        rw empty (
          λ k. rw none_left (sym (zero-add_i64 (count k b.updates) (count-lt k b.updates))),
          none_left,
          wc,
          wb,
        )
    | inr full ↦ rw full (
      λ k. count-extend k c b.updates,
      refl,
      new-IsWellFormed,
      extend-IsWellFormed c b.updates wc,
    )
  ]
