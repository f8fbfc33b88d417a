-- ===== src/ChangeBatch/Keys.antt =====
-- Counts over updates with distinct keys, and why more distinct keys than other updates cannot all
-- cancel: the reason for the shortcut in `is_empty`.
use timely_dataflow.Prelude.{
  ◌≤◌, ◌<◌, ◌≡◌, ◌≢◌, refl, sym, ap, subst, ◌∙◌, List, [], ◌∷◌, false, inl, inr, Bool-cases, arith,
  length, not, retain, All, add_i64, zero-add_i64, add_i64-zero,
}
use Prim.Native.Nat.Ordering.{lt}
use timely_dataflow.Order.{Eq, Ord}
use timely_dataflow.ChangeBatch.{Update}
use timely_dataflow.ChangeBatch.Count.{count, count-lt, share}
use timely_dataflow.ChangeBatch.Compact.{IsAbove, IsAscending, IsNonzero, InRange}

module _ {ℓ} {T : Type ℓ} ⦃e : Eq T⦄ ⦃o : Ord T⦄ where
  pub other-of-lt : (a b : T) → o.cmp a b ≡ lt → e.equal b a ≡ false
  other-of-lt a b h = ground (arith, e.eq_of_equal b a, o.cmp_refl a)

  other-of-lt' : (a b : T) → o.cmp a b ≡ lt → e.equal a b ≡ false
  other-of-lt' a b h = ground (arith, e.eq_of_equal a b, o.cmp_refl a)

  -- A key below all others has no share in them.
  pub count-IsAbove : (k : T) (us : List (Update T)) → IsAbove k us → count k us ≡ 0
  unfolding count
  count-IsAbove k [] h = refl
  count-IsAbove k (u ∷ us) h =
      rw (other-of-lt k u.0 h.0, count-IsAbove k us h.1) (zero-add_i64 0 (omega arith))

  -- With ascending keys the count of each key is its one difference.
  pub count-IsAscending :
      (us : List (Update T)) → IsAscending us → InRange us → All (λ u. count u.0 us ≡ u.1) us
  unfolding count
  count-IsAscending [] h r = tt
  count-IsAscending (u ∷ us) h r = (
    rw (e.equal_refl u.0, count-IsAbove u.0 us h.0) (add_i64-zero u.1 r.0),
    later us h.0 (count-IsAscending us h.1 r.1),
  )
    where
      later :
          (vs : List (Update T))
          → IsAbove u.0 vs
          → All (λ v. count v.0 us ≡ v.1) vs
          → All (λ v. count v.0 (u ∷ us) ≡ v.1) vs
      later [] a c = tt
      later (v ∷ vs) a c = (
        rw (other-of-lt' u.0 v.0 a.0) (zero-add_i64 (count v.0 us) (count-lt v.0 us) ∙ c.0),
        later vs a.1 c.1,
      )

  abbrev without : T → List (Update T) → List (Update T)
  without k us = retain (λ u. not (e.equal u.0 k)) us

  length-without-le : (k : T) (us : List (Update T)) → length (without k us) ≤ length us
  length-without-le k [] = omega arith
  length-without-le k (u ∷ us) = ground (arith, length-without-le k us)

  -- A key with a count other than zero occurs.
  length-without-lt :
      (k : T) (us : List (Update T)) → count k us ≢ 0 → length (without k us) < length us
  unfolding count
  length-without-lt k [] h = absurd (h refl)
  length-without-lt k (u ∷ us) h = elim (Bool-cases (e.equal u.0 k)) [
    | inl same ↦ rw same (omega (arith, length-without-le k us))
    | inr other ↦ rw other (
        omega
          (arith, length-without-lt k us (λ z. h (rw (other, z) (zero-add_i64 0 (omega arith))))))
  ]

  count-without :
      (k j : T) (us : List (Update T)) → e.equal k j ≡ false → count j (without k us) ≡ count j us
  unfolding count
  count-without k j [] h = refl
  count-without k j (u ∷ us) h = elim (Bool-cases (e.equal u.0 k)) [
    | inl same ↦
        rw (same, count-without k j us h, e.eq_of_equal u.0 k same, h)
          (sym (zero-add_i64 (count j us) (count-lt j us)))
    | inr other ↦ rw (other, count) (ap (add_i64 (share j u)) (count-without k j us h))
  ]

  -- Each of the ascending updates `us` is cancelled by the updates `vs`.
  abbrev pub Cancelled : List (Update T) → List (Update T) → Type 0
  Cancelled vs us = All (λ u. add_i64 u.1 (count u.0 vs) ≡ 0) us

  Cancelled-without :
      (k : T) (vs us : List (Update T))
      → IsAbove k us
      → Cancelled vs us
      → Cancelled (without k vs) us
  Cancelled-without k vs [] a c = tt
  Cancelled-without k vs (u ∷ us) a c =
      (rw (count-without k u.0 vs (other-of-lt' k u.0 a.0)) c.0, Cancelled-without k vs us a.1 c.1)

  -- So it takes at least as many updates to cancel them.
  pub length-Cancelled :
      (us vs : List (Update T))
      → IsAscending us
      → IsNonzero us
      → InRange us
      → Cancelled vs us
      → length us ≤ length vs
  length-Cancelled [] vs a n r c = omega arith
  length-Cancelled (u ∷ us) vs a n r c = omega (
    arith,
    length-without-lt u.0 vs
        (λ z. n.0 (sym (add_i64-zero u.1 r.0) ∙ subst (λ x. add_i64 u.1 x ≡ 0) z c.0)),
    length-Cancelled us (without u.0 vs) a.1 n.1 r.1 (Cancelled-without u.0 vs us a.0 c.1),
  )
