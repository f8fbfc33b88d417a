-- ===== src/Antichain/Equality.antt =====
-- The impls of `PartialEq` and `PartialOrder` for antichains, read as statements on up-sets: an
-- antichain stands for the times above one of its elements.
use timely_dataflow.Prelude.{
  ◌≡◌, ◌↔◌, refl, sym, ◌∙◌, subst, true, ◌||◌, List, [], ◌∷◌, arith, inl, inr, Bool-cases, Bool-ext,
  any, all, All, length, Memᴰ, any-of-mem, mem-of-any, all-of-mem, mem-of-all, mem-of-All,
  IsDistinct, Subset, length-Subset, Subset-full,
}
use timely_dataflow.Order.{Eq, PartialOrder}
use timely_dataflow.Antichain.{Antichain, less_equal, dominates, equal, zip_all}
use timely_dataflow.Antichain.Laws.{IsAntichain, AreIncomparable}

module _ {ℓ} {T : Type ℓ} ⦃p : PartialOrder T⦄ where
  -- `less_equal` on antichains holds if and only if the up-set of the second lies in that of the
  -- first.
  pub dominates_iff :
      (a b : Antichain T)
      → (dominates a b ≡ true) ↔ ((t : T) → less_equal b t ≡ true → less_equal a t ≡ true)
  unfolding dominates less_equal
  dominates_iff a b = (
    λ h t k.
        let (y, m, le) = mem-of-any (λ x. p.less_equal x t) b.elements k in
        let (x, n, le') =
          mem-of-any (λ x. p.less_equal x y) a.elements (mem-of-all _ b.elements h m) in
        any-of-mem (λ x. p.less_equal x t) a.elements n (p.le_trans x y t le' le),
    λ h.
        all-of-mem _ b.elements
          λ y m. h y (any-of-mem (λ x. p.less_equal x y) b.elements m (p.le_refl y)),
  )

  fresh-of-incomparable : (x : T) (xs : List T) → All (AreIncomparable x) xs → Memᴰ x xs → ⊥
  fresh-of-incomparable x xs h m =
      let i = mem-of-All (AreIncomparable x) xs h m in ground (arith, p.le_refl x)

  pub IsDistinct-of-IsAntichain : (xs : List T) → IsAntichain xs → IsDistinct xs
  IsDistinct-of-IsAntichain [] h = tt
  IsDistinct-of-IsAntichain (x ∷ xs) h =
      (fresh-of-incomparable x xs h.0, IsDistinct-of-IsAntichain xs h.1)

  -- Comparable elements of an antichain are the same.
  pub eq-of-comparable :
      {x y : T} (xs : List T)
      → IsAntichain xs
      → Memᴰ x xs
      → Memᴰ y xs
      → p.less_equal x y ≡ true
      → x ≡ y
  eq-of-comparable [] h m n le = elim m [ ]
  eq-of-comparable (z ∷ xs) h (Memᴰ.head e) (Memᴰ.head d) le = e ∙ sym d
  eq-of-comparable {x = x} {y = y} (z ∷ xs) h (Memᴰ.head e) (Memᴰ.tail n) le =
      let i = mem-of-All (AreIncomparable z) xs h.0 n in
      let le' : p.less_equal z y ≡ true = rw (← e) le in ground arith
  eq-of-comparable {x = x} {y = y} (z ∷ xs) h (Memᴰ.tail m) (Memᴰ.head d) le =
      let i = mem-of-All (AreIncomparable z) xs h.0 m in
      let le' : p.less_equal x z ≡ true = rw (← d) le in ground arith
  eq-of-comparable (z ∷ xs) h (Memᴰ.tail m) (Memᴰ.tail n) le = eq-of-comparable xs h.1 m n le

  Subset-of-upsets :
      (xs ys : List T)
      → IsAntichain xs
      → ((t : T) → any (λ x. p.less_equal x t) xs ≡ any (λ x. p.less_equal x t) ys)
      → Subset xs ys
  Subset-of-upsets xs ys h u x m =
      let above = any-of-mem (λ z. p.less_equal z x) xs m (p.le_refl x) in
      let (y, n, le) = mem-of-any (λ z. p.less_equal z x) ys (sym (u x) ∙ above) in
      let below = any-of-mem (λ z. p.less_equal z y) ys n (p.le_refl y) in
      let (z, k, le') = mem-of-any (λ z. p.less_equal z y) xs (u y ∙ below) in
      let same = eq-of-comparable xs h k m (p.le_trans z y x le' le) in
      let le'' : p.less_equal x y ≡ true = rw same at le' in
      subst (λ w. Memᴰ w ys) (p.le_antisymm y x le le'') n

  upsets-of-Subset :
      (xs ys : List T) (t : T)
      → Subset xs ys
      → any (λ x. p.less_equal x t) xs ≡ true
      → any (λ x. p.less_equal x t) ys ≡ true
  upsets-of-Subset xs ys t s h =
      let (x, m, le) = mem-of-any (λ x. p.less_equal x t) xs h in
      any-of-mem (λ x. p.less_equal x t) ys (s x m) le

module _ {ℓ} {T : Type ℓ} ⦃e : Eq T⦄ where
  eq-of-zip_all : (xs ys : List T) → length xs ≡ length ys → zip_all e.equal xs ys ≡ true → xs ≡ ys
  unfolding zip_all
  eq-of-zip_all [] [] h k = refl
  eq-of-zip_all [] (y ∷ ys) h k = absurd (omega arith)
  eq-of-zip_all (x ∷ xs) [] h k = absurd (omega arith)
  eq-of-zip_all (x ∷ xs) (y ∷ ys) h k = ground (arith, e.eq_of_equal x y, eq-of-zip_all xs ys)

  Subset-of-all :
      (xs ys : List T) → all (λ t1. any (λ t2. e.equal t1 t2) ys) xs ≡ true → Subset xs ys
  Subset-of-all xs ys h x m =
      let (y, n, same) = mem-of-any (e.equal x) ys (mem-of-all _ xs h m) in
      subst (λ w. Memᴰ w ys) (sym (e.eq_of_equal x y same)) n

  all-of-Subset :
      (xs ys : List T) → Subset xs ys → all (λ t1. any (λ t2. e.equal t1 t2) ys) xs ≡ true
  all-of-Subset xs ys s = all-of-mem _ xs λ x m. any-of-mem (e.equal x) ys (s x m) (e.equal_refl x)

module _ {ℓ} {T : Type ℓ} ⦃e : Eq T⦄ ⦃p : PartialOrder T⦄ where
  parts-of-equal :
      (a b : Antichain T)
      → equal a b ≡ true
      → (length a.elements ≡ length b.elements)
        × ((zip_all e.equal a.elements b.elements
              || all (λ t1. any (λ t2. e.equal t1 t2) b.elements) a.elements)
            ≡ true)
  unfolding equal
  parts-of-equal a b h = (ground arith, ground arith)

  Subset-of-equal : (a b : Antichain T) → equal a b ≡ true → Subset a.elements b.elements
  Subset-of-equal a b h =
      let (same_length, found) = parts-of-equal a b h in
      elim (Bool-cases (zip_all e.equal a.elements b.elements)) [
        | inl zipped ↦
            subst (Subset a.elements) (eq-of-zip_all a.elements b.elements same_length zipped)
              (λ x m. m)
        | inr unzipped ↦ Subset-of-all a.elements b.elements (ground arith)
      ]

  equal-of-Subset :
      (a b : Antichain T)
      → Subset a.elements b.elements
      → length a.elements ≡ length b.elements
      → equal a b ≡ true
  unfolding equal
  equal-of-Subset a b s h = ground (arith, h, all-of-Subset a.elements b.elements s)

  -- Two lists of incomparable elements are `==` as antichains, whatever the order of their
  -- elements, if and only if the same times lie above them.
  pub equal_iff :
      (a b : Antichain T)
      → IsAntichain a.elements
      → IsAntichain b.elements
      → (equal a b ≡ true) ↔ ((t : T) → less_equal a t ≡ less_equal b t)
  unfolding less_equal
  equal_iff a b ha hb =
      let xs = a.elements in
      let ys = b.elements in
      (
        λ h t.
            let s = Subset-of-equal a b h in
            let (same_length, _) = parts-of-equal a b h in
            let s' = Subset-full xs ys (IsDistinct-of-IsAntichain xs ha) s (omega arith) in
            Bool-ext _ _ (upsets-of-Subset xs ys t s) (upsets-of-Subset ys xs t s'),
        λ u.
            let s = Subset-of-upsets xs ys ha u in
            let s' = Subset-of-upsets ys xs hb (λ t. sym (u t)) in
            equal-of-Subset a b s (
              omega (
                arith,
                length-Subset xs ys (IsDistinct-of-IsAntichain xs ha) s,
                length-Subset ys xs (IsDistinct-of-IsAntichain ys hb) s',
              )),
      )
