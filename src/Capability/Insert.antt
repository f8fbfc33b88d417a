-- ===== src/Capability/Insert.antt =====
-- `CapabilitySet::insert`: capabilities in the order of their impl of `PartialOrder`, in which the
-- set is an antichain.
use timely_dataflow.Prelude.{
  ◌≡◌, refl, sym, ap, ◌∙◌, subst, true, not, ◌||◌, List, [], ◌∷◌, ◌++◌, any, retain, arith,
  Bool-cases, inl, inr, add_i64,
}
use timely_dataflow.Order.{Eq, PartialOrder, Ord}
use timely_dataflow.Antichain.{Antichain}
use timely_dataflow.Antichain
use timely_dataflow.Antichain.Laws.{IsAntichain}
use timely_dataflow.Antichain.Laws
use timely_dataflow.Capability.{Capability, Store, less_equal, release, retain_not_above, insert}
use timely_dataflow.Capability.Balance.{
  Conserves, Conserves-refl, Conserves-trans, Conserves-cons, held-append, release_correct,
}

module _ {ℓ} {T : Type ℓ} ⦃e : Eq T⦄ ⦃p : PartialOrder T⦄ where
  capability_eq : (c d : Capability T) → c.time ≡ d.time → c.internal ≡ d.internal → c ≡ d
  capability_eq c d h k =
      ap (λ (t : T). record { time = t; internal = c.internal }) h
      ∙ ap (λ i. record { time = d.time; internal = i }) k

  pub less_equal_refl : (c : Capability T) → less_equal c c ≡ true
  unfolding less_equal
  less_equal_refl c = ground (arith, p.le_refl c.time)

  pub less_equal_trans :
      (c d f : Capability T) → less_equal c d ≡ true → less_equal d f ≡ true → less_equal c f ≡ true
  unfolding less_equal
  less_equal_trans c d f h k = ground (arith, p.le_trans c.time d.time f.time)

  pub less_equal_antisymm :
      (c d : Capability T) → less_equal c d ≡ true → less_equal d c ≡ true → c ≡ d
  unfolding less_equal
  less_equal_antisymm c d h k =
      capability_eq c d (p.le_antisymm c.time d.time (ground arith) (ground arith)) (ground arith)

  -- The impl of `PartialOrder`: capabilities of one batch, by their times.
  instance abbrev pub capability_partial : PartialOrder (Capability T)
  capability_partial = record {
    less_equal = less_equal;
    le_refl = less_equal_refl;
    le_trans = less_equal_trans;
    le_antisymm = less_equal_antisymm;
  }

module _ {ℓ} {T : Type ℓ} ⦃e : Eq T⦄ where
  -- The same, behind the list.
  Conserves-snoc :
      (s s' : Store T) (c : Capability T) (cs cs' : List (Capability T))
      → Conserves s cs s' cs'
      → Conserves s (c ∷ cs) s' (cs' ++ c ∷ [])
  unfolding add_i64
  Conserves-snoc s s' c cs cs' h i k = omega (arith, h i k, held-append i k cs' (c ∷ []))

module _ {ℓ} {T : Type ℓ} ⦃e : Eq T⦄ ⦃p : PartialOrder T⦄ ⦃o : Ord T⦄ where
  -- What is dropped from a set by an insertion is released, one by one.
  retain_not_above_correct :
      (s : Store T) (capability : Capability T) (elements : List (Capability T))
      → let (s', kept) = retain_not_above s capability elements in Conserves s elements s' kept
  unfolding retain_not_above
  retain_not_above_correct s capability [] = Conserves-refl s []
  retain_not_above_correct s capability (c ∷ cs) = elim (Bool-cases (less_equal capability c)) [
    | inl above ↦ rw above (
        Conserves-trans s (release s c) (retain_not_above (release s c) capability cs).0 (c ∷ cs) cs
          (retain_not_above (release s c) capability cs).1 (release_correct s c cs)
          (retain_not_above_correct (release s c) capability cs))
    | inr other ↦ rw other (
        Conserves-cons s (retain_not_above s capability cs).0 c cs
          (retain_not_above s capability cs).1 (retain_not_above_correct s capability cs))
  ]

  -- What `retain` leaves does not depend on the store.
  retain_not_above-retain :
      (s : Store T) (capability : Capability T) (elements : List (Capability T))
      → (retain_not_above s capability elements).1
        ≡ retain (λ c. not (less_equal capability c)) elements
  unfolding retain_not_above
  retain_not_above-retain s capability [] = refl
  retain_not_above-retain s capability (c ∷ cs) = elim (Bool-cases (less_equal capability c)) [
    | inl above ↦ rw above (retain_not_above-retain (release s c) capability cs)
    | inr other ↦ rw other (ap (◌∷◌ c) (retain_not_above-retain s capability cs))
  ]

  -- The set after an insertion is that of the insertion into an antichain.
  insert-elements :
      (s : Store T) (elements : List (Capability T)) (capability : Capability T)
      → (insert s elements capability).1
        ≡ (Antichain.insert (record { elements = elements }) capability).0.elements
  unfolding insert Antichain.insert
  insert-elements s elements capability =
      elim (Bool-cases (any (λ c. less_equal c capability) elements)) [
        | inl redundant ↦ rw redundant refl
        | inr needed ↦
            rw needed
              (ap (λ kept. kept ++ capability ∷ []) (retain_not_above-retain s capability elements))
      ]

  insert-Conserves :
      (s : Store T) (elements : List (Capability T)) (capability : Capability T)
      → let (s', elements') = insert s elements capability in
        Conserves s (capability ∷ elements) s' elements'
  unfolding insert
  insert-Conserves s elements capability =
      let (s', kept) = retain_not_above s capability elements in
      elim (Bool-cases (any (λ c. less_equal c capability) elements)) [
        | inl redundant ↦ rw redundant (release_correct s capability elements)
        | inr needed ↦ rw needed (
            Conserves-snoc s s' capability elements kept
              (retain_not_above_correct s capability elements))
      ]

  -- `CapabilitySet::insert` into a set of incomparable capabilities keeps them incomparable;
  -- afterwards exactly the capabilities at or beyond an old one or the inserted one are at or beyond
  -- one of the set; and the counts have changed by what the set holds now less what it held before
  -- and the inserted one.
  pub insert_capability_correct :
      (s : Store T) (elements : List (Capability T)) (capability : Capability T)
      → IsAntichain elements
      → let (s', elements') = insert s elements capability in
        IsAntichain elements'
        × ((c : Capability T)
            → any (λ d. less_equal d c) elements'
              ≡ (any (λ d. less_equal d c) elements || less_equal capability c))
        × Conserves s (capability ∷ elements) s' elements'
  unfolding Antichain.less_equal
  insert_capability_correct s elements capability h =
      let (apart, up, flag) = Laws.insert_correct (record { elements = elements }) capability h in
      let same = sym (insert-elements s elements capability) in
      (
        subst IsAntichain same apart,
        λ c. ap (λ ds. any (λ (d : Capability T). less_equal d c) ds) (sym same) ∙ up c,
        insert-Conserves s elements capability,
      )
