-- ===== src/Antichain/Laws.antt =====
-- `insert` and `extend`: whether elements are comparable, and what lies above one of them.
use timely_dataflow.Prelude.{
  ◌≡◌, refl, Bool, true, false, not, ◌||◌, List, [], ◌∷◌, ◌++◌, arith, inl, inr, Bool-cases, any,
  retain, All, All-append, All-retain, any-append,
}
use timely_dataflow.Order.{PartialOrder}
use timely_dataflow.Antichain.{
  Antichain, new, insert, insert_ref, extend, extend_from, from_iter, from_vec, from_vec_loop,
  less_equal,
}

module _ {ℓ} {T : Type ℓ} ⦃p : PartialOrder T⦄ where
  abbrev pub AreIncomparable : T → T → Type 0
  AreIncomparable x y = (p.less_equal x y ≡ false) × (p.less_equal y x ≡ false)

  -- No two elements are comparable.
  abbrev pub IsAntichain : List T → Type 0
  IsAntichain [] = Unit
  IsAntichain (x ∷ xs) = All (AreIncomparable x) xs × IsAntichain xs

  pub IsAntichain-retain : (q : T → Bool) (xs : List T) → IsAntichain xs → IsAntichain (retain q xs)
  IsAntichain-retain q [] h = tt
  IsAntichain-retain q (x ∷ xs) h =
      ground (arith, All-retain (AreIncomparable x) q xs h.0, IsAntichain-retain q xs h.1)

  pub IsAntichain-append :
      (e : T) (xs : List T)
      → All (AreIncomparable e) xs
      → IsAntichain xs
      → IsAntichain (xs ++ e ∷ [])
  IsAntichain-append e [] i h = (tt, tt)
  IsAntichain-append e (x ∷ xs) i h = (
    All-append (AreIncomparable x) xs (e ∷ []) h.0 ((i.0.1, i.0.0), tt),
    IsAntichain-append e xs i.1 h.1,
  )

  -- What `insert` retains is incomparable to an element that nothing lies below.
  incomparable-retain :
      (e : T) (xs : List T)
      → any (λ x. p.less_equal x e) xs ≡ false
      → All (AreIncomparable e) (retain (λ x. not (p.less_equal e x)) xs)
  incomparable-retain e [] h = tt
  incomparable-retain e (x ∷ xs) h = ground (arith, incomparable-retain e xs)

  -- Dropping what lies above an element drops nothing from the up-set that it generates.
  any-retain :
      (e t : T) (xs : List T)
      → (any (λ x. p.less_equal x t) (retain (λ x. not (p.less_equal e x)) xs) || p.less_equal e t)
        ≡ (any (λ x. p.less_equal x t) xs || p.less_equal e t)
  any-retain e t [] = refl
  any-retain e t (x ∷ xs) = ground (arith, any-retain e t xs, p.le_trans e x t)

  any-of-below :
      (e t : T) (xs : List T)
      → any (λ x. p.less_equal x e) xs ≡ true
      → p.less_equal e t ≡ true
      → any (λ x. p.less_equal x t) xs ≡ true
  any-of-below e t [] h k = cc
  any-of-below e t (x ∷ xs) h k = ground (arith, any-of-below e t xs, p.le_trans x e t)

  insert-IsAntichain :
      (a : Antichain T) (e : T) → IsAntichain a.elements → IsAntichain (insert a e).0.elements
  unfolding insert
  insert-IsAntichain a e h = elim (Bool-cases (any (λ x. p.less_equal x e) a.elements)) [
    | inl below ↦ rw below h
    | inr free ↦ rw free (
        IsAntichain-append e _ (incomparable-retain e a.elements free)
          (IsAntichain-retain _ a.elements h))
  ]

  insert_upset :
      (a : Antichain T) (e t : T)
      → less_equal (insert a e).0 t ≡ (less_equal a t || p.less_equal e t)
  unfolding insert less_equal
  insert_upset a e t = elim (Bool-cases (any (λ x. p.less_equal x e) a.elements)) [
    | inl below ↦ rw below (ground (arith, any-of-below e t a.elements below))
    | inr free ↦ rw free (
        ground (
          arith,
          any-append (λ x. p.less_equal x t) (retain (λ x. not (p.less_equal e x)) a.elements)
              (e ∷ []),
          any-retain e t a.elements,
        ))
  ]

  insert_flag : (a : Antichain T) (e : T) → (insert a e).1 ≡ not (less_equal a e)
  unfolding insert less_equal
  insert_flag a e = elim (Bool-cases (any (λ x. p.less_equal x e) a.elements)) [
    | inl below ↦ rw below
    | inr free ↦ rw free
  ]

  -- `insert` keeps the elements of an antichain incomparable; afterwards exactly the times above an
  -- old element or above the new one lie above an element; and it answers whether the new one was
  -- added, which it is if no old element lies below it.
  pub insert_correct :
      (a : Antichain T) (e : T)
      → IsAntichain a.elements
      → IsAntichain (insert a e).0.elements
        × ((t : T) → less_equal (insert a e).0 t ≡ (less_equal a t || p.less_equal e t))
        × ((insert a e).1 ≡ not (less_equal a e))
  insert_correct a e h = (insert-IsAntichain a e h, insert_upset a e, insert_flag a e)

  insert_below : (a : Antichain T) (e : T) → less_equal a e ≡ true → insert a e ≡ (a, false)
  unfolding insert less_equal
  insert_below a e h = rw h

  pub insert_ref-eq-insert : (a : Antichain T) (e : T) → insert_ref a e ≡ insert a e
  unfolding insert insert_ref
  insert_ref-eq-insert a e = refl

  extend_from-IsAntichain :
      (a : Antichain T) (added : Bool) (es : List T)
      → IsAntichain a.elements
      → IsAntichain (extend_from a added es).0.elements
  unfolding extend_from
  extend_from-IsAntichain a added [] h = h
  extend_from-IsAntichain a added (e ∷ es) h =
      extend_from-IsAntichain (insert a e).0 ((insert a e).1 || added) es (insert-IsAntichain a e h)

  extend_from_upset :
      (a : Antichain T) (added : Bool) (es : List T) (t : T)
      → less_equal (extend_from a added es).0 t ≡ (less_equal a t || any (λ e. p.less_equal e t) es)
  unfolding extend_from
  extend_from_upset a added [] t = ground arith
  extend_from_upset a added (e ∷ es) t =
      ground
        (arith, insert_upset a e t, extend_from_upset (insert a e).0 ((insert a e).1 || added) es t)

  extend_from_flag :
      (a : Antichain T) (added : Bool) (es : List T)
      → (extend_from a added es).1 ≡ (added || any (λ e. not (less_equal a e)) es)
  unfolding extend_from
  extend_from_flag a added [] = ground arith
  extend_from_flag a added (e ∷ es) = elim (Bool-cases (less_equal a e)) [
    | inl below ↦ rw (insert_below a e below, extend_from, below) (extend_from_flag a added es)
    | inr free ↦
        ground
          (arith, insert_flag a e, extend_from_flag (insert a e).0 ((insert a e).1 || added) es)
  ]

  -- `extend` keeps the elements of an antichain incomparable; afterwards exactly the times above an
  -- old element or above one of the inserted lie above an element; and it answers whether some
  -- inserted element had no old element below it.
  pub extend_correct :
      (a : Antichain T) (es : List T)
      → IsAntichain a.elements
      → IsAntichain (extend a es).0.elements
        × ((t : T)
            → less_equal (extend a es).0 t ≡ (less_equal a t || any (λ e. p.less_equal e t) es))
        × ((extend a es).1 ≡ any (λ e. not (less_equal a e)) es)
  unfolding extend
  extend_correct a es h = (
    extend_from-IsAntichain a false es h,
    extend_from_upset a false es,
    extend_from_flag a false es,
  )

  -- An antichain built from any sequence is one, and a time lies above it if and only if it lies
  -- above a member of the sequence.
  pub from_iter_correct :
      (es : List T)
      → IsAntichain (from_iter es).elements
        × ((t : T) → less_equal (from_iter es) t ≡ any (λ e. p.less_equal e t) es)
  unfolding from_iter new less_equal
  from_iter_correct es = let (keep, up, _) = extend_correct new es tt in (keep, up)

  from_vec_loop-eq :
      (a : Antichain T) (added : Bool) (es : List T)
      → from_vec_loop a es ≡ (extend_from a added es).0
  unfolding from_vec_loop extend_from
  from_vec_loop-eq a added [] = refl
  from_vec_loop-eq a added (e ∷ es) = from_vec_loop-eq (insert a e).0 ((insert a e).1 || added) es

  -- Both ways to build an antichain from a sequence agree.
  pub from_vec-eq-from_iter : (es : List T) → from_vec es ≡ from_iter es
  unfolding from_vec from_iter extend
  from_vec-eq-from_iter es = from_vec_loop-eq new false es
