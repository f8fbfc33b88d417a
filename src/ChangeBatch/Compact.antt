-- ===== src/ChangeBatch/Compact.antt =====
-- The form that `compact` brings the updates into: keys strictly ascending, so no key occurs twice,
-- and no difference is zero.
use timely_dataflow.Prelude.{
  ℕ, ◌≡◌, ◌≢◌, sym, subst, inl, inr, List, [], ◌∷◌, Bool, true, false, Bool-cases, arith, retain,
  All, All-retain, add_i64, add_i64-lt, word, ◌<◌, if◌then◌else◌,
}
use Prim.Native.Nat.Ordering.{lt, gt}
use timely_dataflow.Order.{Eq, Ord}
use timely_dataflow.Sort.{IsSorted, sort_by, sort_by-IsSorted, All-sort_by}
use timely_dataflow.ChangeBatch.{Update, by_key, consolidate, consolidate_all, nonzero}

abbrev pub IsNonzero {ℓ} : {T : Type ℓ} → List (Update T) → Type 0
IsNonzero us = All (λ u. u.1 ≢ 0) us

-- Every difference is the bit pattern of an `i64`.
abbrev pub InRange {ℓ} : {T : Type ℓ} → List (Update T) → Type 0
InRange us = All (λ u. u.1 < word) us

-- Every key is `P`.
abbrev pub On {ℓ κ} : {T : Type ℓ} → (T → Type κ) → List (Update T) → Type κ
On P us = All (λ u. P u.0) us

module _ {ℓ} {T : Type ℓ} ⦃o : Ord T⦄ where
  -- Every key of the list is strictly above `k`.
  abbrev pub IsAbove : T → List (Update T) → Type 0
  IsAbove k us = All (λ u. o.cmp k u.0 ≡ lt) us

  abbrev pub IsAscending : List (Update T) → Type 0
  IsAscending [] = Unit
  IsAscending (u ∷ us) = IsAbove u.0 us × IsAscending us

  abbrev IsFrom : T → List (Update T) → Type 0
  IsFrom k us = All (λ u. o.cmp k u.0 ≢ gt) us

  IsAbove-of-IsFrom : (t s : T) (us : List (Update T)) → o.cmp t s ≡ lt → IsFrom s us → IsAbove t us
  IsAbove-of-IsFrom t s [] h f = tt
  IsAbove-of-IsFrom t s (u ∷ us) h f =
      (ground (arith, o.lt_trans t s u.0, o.eq_of_cmp s u.0), IsAbove-of-IsFrom t s us h f.1)

  IsFrom-of-IsAbove : (t : T) (us : List (Update T)) → IsAbove t us → IsFrom t us
  IsFrom-of-IsAbove t [] h = tt
  IsFrom-of-IsAbove t (u ∷ us) h = (ground arith, IsFrom-of-IsAbove t us h.1)

  pub flip_key : (a b : Update T) → by_key a b ≡ gt → by_key b a ≢ gt
  flip_key a b h = ground (arith, o.lt_of_gt a.0 b.0)

pub retain-IsNonzero {ℓ} : {T : Type ℓ} (us : List (Update T)) → IsNonzero (retain nonzero us)
retain-IsNonzero [] = tt
retain-IsNonzero (u ∷ us) = ground (arith, retain-IsNonzero us)

module _ {ℓ} {T : Type ℓ} ⦃e : Eq T⦄ ⦃o : Ord T⦄ where
  abbrev Kept : T → List (Update T) → Type 0
  Kept t us = IsFrom t us × IsAscending us

  Kept-cons :
      (b : Bool) (t s : T) (d : ℕ) (us : List (Update T))
      → o.cmp t s ≡ lt
      → Kept s us
      → Kept t (if b then (t, d) ∷ us else us)
  Kept-cons true t s d us h k =
      let above = IsAbove-of-IsFrom t s us h k.0 in
      ((ground (arith, o.cmp_refl t), IsFrom-of-IsAbove t us above), (above, k.1))
  Kept-cons false t s d us h k = (IsFrom-of-IsAbove t us (IsAbove-of-IsFrom t s us h k.0), k.1)

  Kept-one : (b : Bool) (t : T) (d : ℕ) → Kept t (if b then (t, d) ∷ [] else [])
  Kept-one true t d = ((ground (arith, o.cmp_refl t), tt), (tt, tt))
  Kept-one false t d = (tt, tt)

  lt-of-other : (t s : T) → e.equal t s ≡ false → o.cmp t s ≢ gt → o.cmp t s ≡ lt
  lt-of-other t s h g = ground (arith, o.eq_of_cmp t s, e.equal_refl t)

  -- The difference at the head does not matter to the order.
  IsSorted-head :
      (s : T) (x y : ℕ) (us : List (Update T))
      → IsSorted by_key ((s, x) ∷ us)
      → IsSorted by_key ((s, y) ∷ us)
  IsSorted-head s x y [] h = tt
  IsSorted-head s x y (u ∷ us) h = h

  consolidate-Kept :
      (t : T) (d : ℕ) (us : List (Update T))
      → IsSorted by_key ((t, d) ∷ us)
      → Kept t (retain nonzero (consolidate t d us))
  unfolding consolidate
  consolidate-Kept t d [] h = Kept-one (nonzero (t, d)) t d
  consolidate-Kept t d ((s, x) ∷ us) h = elim (Bool-cases (e.equal t s)) [
    | inl same ↦
        rw (same, consolidate)
          (subst (λ r. Kept r (retain nonzero (consolidate s (add_i64 x d) us)))
            (sym (e.eq_of_equal t s same))
            (consolidate-Kept s (add_i64 x d) us (IsSorted-head s x (add_i64 x d) us h.1)))
    | inr other ↦
        rw (other, consolidate)
          (Kept-cons (nonzero (t, d)) t s d _ (lt-of-other t s other h.0)
            (consolidate-Kept s x us h.1))
  ]

  consolidate_all-IsAscending :
      (us : List (Update T))
      → IsSorted by_key us
      → IsAscending (retain nonzero (consolidate_all us))
  unfolding consolidate_all
  consolidate_all-IsAscending [] h = tt
  consolidate_all-IsAscending ((t, d) ∷ us) h = (consolidate-Kept t d us h).1

  pub rebuild-IsAscending :
      (us : List (Update T)) → IsAscending (retain nonzero (consolidate_all (sort_by by_key us)))
  rebuild-IsAscending us =
      consolidate_all-IsAscending (sort_by by_key us) (sort_by-IsSorted by_key flip_key us)

  consolidate-InRange :
      (t : T) (d : ℕ) (us : List (Update T)) → d < word → InRange us → InRange (consolidate t d us)
  unfolding consolidate
  consolidate-InRange t d [] h r = (h, tt)
  consolidate-InRange t d ((s, x) ∷ us) h r = elim (Bool-cases (e.equal t s)) [
    | inl same ↦
        rw (same, consolidate)
          (omega arith, consolidate-InRange s (add_i64 x d) us (add_i64-lt x d) r.1)
    | inr other ↦ rw (other, consolidate) (h, consolidate-InRange s x us r.0 r.1)
  ]

  consolidate_all-InRange : (us : List (Update T)) → InRange us → InRange (consolidate_all us)
  unfolding consolidate_all
  consolidate_all-InRange [] r = tt
  consolidate_all-InRange ((t, d) ∷ us) r = consolidate-InRange t d us r.0 r.1

  pub rebuild-InRange :
      (us : List (Update T))
      → InRange us
      → InRange (retain nonzero (consolidate_all (sort_by by_key us)))
  rebuild-InRange us r =
      All-retain (λ u. u.1 < word) nonzero (consolidate_all (sort_by by_key us))
        (consolidate_all-InRange (sort_by by_key us) (All-sort_by by_key (λ u. u.1 < word) us r))

  -- No new key comes up.
  consolidate-On {κ} :
      (P : T → Type κ) (t : T) (d : ℕ) (us : List (Update T))
      → P t
      → On P us
      → On P (consolidate t d us)
  unfolding consolidate
  consolidate-On P t d [] h r = (h, tt)
  consolidate-On P t d ((s, x) ∷ us) h r =
      (h, consolidate-On P s (if e.equal t s then add_i64 x d else x) us r.0 r.1)

  consolidate_all-On {κ} :
      (P : T → Type κ) (us : List (Update T)) → On P us → On P (consolidate_all us)
  unfolding consolidate_all
  consolidate_all-On P [] r = tt
  consolidate_all-On P ((t, d) ∷ us) r = consolidate-On P t d us r.0 r.1

  pub rebuild-On {κ} :
      (P : T → Type κ) (us : List (Update T))
      → On P us
      → On P (retain nonzero (consolidate_all (sort_by by_key us)))
  rebuild-On P us r =
      All-retain (λ u. P u.0) nonzero (consolidate_all (sort_by by_key us))
        (consolidate_all-On P (sort_by by_key us) (All-sort_by by_key (λ u. P u.0) us r))
