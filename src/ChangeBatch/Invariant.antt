-- ===== src/ChangeBatch/Invariant.antt =====
-- The invariants of a change batch, and what each method does to them and to the counts.
use timely_dataflow.Prelude.{
  ℕ, ◌/◌, ◌≤◌, ◌<◌, ◌≡◌, ◌≢◌, refl, subst, ◌∙◌, ◌⊎◌, inl, inr, List, [], ◌∷◌, ◌++◌, false,
  Bool-cases, arith, length, retain, take, take-length, take-append, All-append, ltb, leb, ◌&&◌,
  length-append, add_i64, word,
}
use timely_dataflow.Order.{Eq, Ord}
use timely_dataflow.ChangeBatch.{
  ChangeBatch, Update, by_key, consolidate_all, nonzero, new, compact, maintain_bounds, update,
  extend,
}
use timely_dataflow.Sort.{sort_by}
use timely_dataflow.ChangeBatch.Count.{count, count-append, count-rebuild}
use timely_dataflow.ChangeBatch.Compact.{
  IsAscending, IsNonzero, InRange, rebuild-InRange, rebuild-IsAscending, rebuild-On, On,
  retain-IsNonzero,
}

module _ {ℓ} {T : Type ℓ} ⦃e : Eq T⦄ ⦃o : Ord T⦄ where
  -- `clean` is the length of a prefix that is compact.
  pub record IsWellFormed (b : ChangeBatch T) : Type 0 where
    pub within : b.clean ≤ length b.updates
    pub ascending : IsAscending (take b.clean b.updates)

  -- Where the guard of `compact` fails, there is nothing dirty or at most one update.
  guard_fails :
      (b : ChangeBatch T)
      → (ltb b.clean (length b.updates) && ltb 1 (length b.updates)) ≡ false
      → (length b.updates ≤ b.clean) ⊎ (length b.updates ≤ 1)
  guard_fails b h = ground arith

  -- The two ways of `compact`.
  compact_cases :
      (b : ChangeBatch T)
      → ((compact b).updates ≡ retain nonzero (consolidate_all (sort_by by_key b.updates)))
        ⊎ (((compact b).updates ≡ b.updates)
            × ((length b.updates ≤ b.clean) ⊎ (length b.updates ≤ 1)))
  unfolding compact
  compact_cases b = elim (Bool-cases (ltb b.clean (length b.updates) && ltb 1 (length b.updates))) [
    | inl dirty ↦ inl (rw dirty)
    | inr fails ↦ inr (rw fails, guard_fails b fails)
  ]

  pub compact-clean : (b : ChangeBatch T) → (compact b).clean ≡ length (compact b).updates
  unfolding compact
  compact-clean b = refl

  -- `compact` leaves the count of every key as it was.
  pub count-compact : (k : T) (b : ChangeBatch T) → count k (compact b).updates ≡ count k b.updates
  count-compact k b = elim (compact_cases b) [
    | inl done ↦ rw done (count-rebuild k b.updates)
    | inr (same, _) ↦ rw same
  ]

  IsAscending-short : (us : List (Update T)) → length us ≤ 1 → IsAscending us
  IsAscending-short [] h = tt
  IsAscending-short (u ∷ []) h = (tt, tt)
  IsAscending-short (u ∷ v ∷ us) h = absurd (omega arith)

  pub compact-IsAscending : (b : ChangeBatch T) → IsWellFormed b → IsAscending (compact b).updates
  compact-IsAscending b w = elim (compact_cases b) [
    | inl done ↦ rw done (rebuild-IsAscending b.updates)
    | inr (same, inl full) ↦
        let whole : b.clean ≡ length b.updates = omega (arith, w.within) in
        rw same (subst IsAscending (rw whole (take-length b.updates)) w.ascending)
    | inr (same, inr short) ↦ rw same (IsAscending-short b.updates short)
  ]

  pub compact-IsNonzero : (b : ChangeBatch T) → IsNonzero b.updates → IsNonzero (compact b).updates
  compact-IsNonzero b h = elim (compact_cases b) [
    | inl done ↦ rw done (retain-IsNonzero (consolidate_all (sort_by by_key b.updates)))
    | inr (same, _) ↦ rw same h
  ]

  pub compact-On {κ} :
      (P : T → Type κ) (b : ChangeBatch T) → On P b.updates → On P (compact b).updates
  compact-On P b h = elim (compact_cases b) [
    | inl done ↦ rw done (rebuild-On P b.updates h)
    | inr (same, _) ↦ rw same h
  ]

  pub compact-IsWellFormed : (b : ChangeBatch T) → IsWellFormed b → IsWellFormed (compact b)
  compact-IsWellFormed b w = record {
    within = omega (arith, compact-clean b);
    ascending = rw (compact-clean b, take-length (compact b).updates) (compact-IsAscending b w);
  }

  maintain_cases : (b : ChangeBatch T) → (maintain_bounds b ≡ compact b) ⊎ (maintain_bounds b ≡ b)
  unfolding maintain_bounds
  maintain_cases b =
      elim (Bool-cases (ltb 32 (length b.updates) && leb b.clean (length b.updates / 2))) [
        | inl grown ↦ inl (rw grown)
        | inr small ↦ inr (rw small)
      ]

  maintain_bounds-rule {κ} :
      (P : ChangeBatch T → Type κ) (b : ChangeBatch T) → P b → P (compact b) → P (maintain_bounds b)
  maintain_bounds-rule P b p q = elim (maintain_cases b) [
    | inl grown ↦ rw grown q
    | inr small ↦ rw small p
  ]

  append-IsWellFormed :
      (b : ChangeBatch T) (items : List (Update T))
      → IsWellFormed b
      → IsWellFormed (record b { updates = b.updates ++ items })
  append-IsWellFormed b items w = record {
    within = omega (arith, w.within, length-append b.updates items);
    ascending = rw (take-append b.clean b.updates items w.within) w.ascending;
  }

  -- `update` is `extend` by one.
  update-eq-extend :
      (b : ChangeBatch T) (item : T) (value : ℕ)
      → update b item value ≡ extend b ((item, value) ∷ [])
  unfolding update extend
  update-eq-extend b item value = refl

  pub extend-IsWellFormed :
      (b : ChangeBatch T) (items : List (Update T)) → IsWellFormed b → IsWellFormed (extend b items)
  unfolding extend
  extend-IsWellFormed b items w =
      let w' = append-IsWellFormed b items w in
      maintain_bounds-rule IsWellFormed _ w' (compact-IsWellFormed _ w')

  pub count-extend :
      (k : T) (b : ChangeBatch T) (items : List (Update T))
      → count k (extend b items).updates ≡ add_i64 (count k b.updates) (count k items)
  unfolding extend
  count-extend k b items =
      maintain_bounds-rule (λ c. count k c.updates ≡ add_i64 (count k b.updates) (count k items)) _
        (count-append k b.updates items) (count-compact k _ ∙ count-append k b.updates items)

  pub extend-IsNonzero :
      (b : ChangeBatch T) (items : List (Update T))
      → IsNonzero b.updates
      → IsNonzero items
      → IsNonzero (extend b items).updates
  unfolding extend
  extend-IsNonzero b items h k =
      let h' = All-append (λ u. u.1 ≢ 0) b.updates items h k in
      maintain_bounds-rule (λ c. IsNonzero c.updates) _ h' (compact-IsNonzero _ h')

  pub new-IsWellFormed : IsWellFormed new
  unfolding new
  new-IsWellFormed = record { within = omega arith; ascending = tt }

  pub compact-InRange : (b : ChangeBatch T) → InRange b.updates → InRange (compact b).updates
  compact-InRange b h = elim (compact_cases b) [
    | inl done ↦ rw done (rebuild-InRange b.updates h)
    | inr (same, _) ↦ rw same h
  ]

  -- A batch that only nonzero updates went into.
  pub record IsProper (b : ChangeBatch T) : Type 0 where
    pub formed : IsWellFormed b
    pub nonzeros : IsNonzero b.updates
    pub ranged : InRange b.updates

  pub compact-IsProper : (b : ChangeBatch T) → IsProper b → IsProper (compact b)
  compact-IsProper b p = record {
    formed = compact-IsWellFormed b p.formed;
    nonzeros = compact-IsNonzero b p.nonzeros;
    ranged = compact-InRange b p.ranged;
  }

  pub extend-IsProper :
      (b : ChangeBatch T) (items : List (Update T))
      → IsProper b
      → IsNonzero items
      → InRange items
      → IsProper (extend b items)
  extend-IsProper b items p n r = record {
    formed = extend-IsWellFormed b items p.formed;
    nonzeros = extend-IsNonzero b items p.nonzeros n;
    ranged =
        unfold extend in
        (let r' = All-append (λ u. u.1 < word) b.updates items p.ranged r in
          maintain_bounds-rule (λ c. InRange c.updates) _ r' (compact-InRange _ r'));
  }

  pub extend-InRange :
      (b : ChangeBatch T) (items : List (Update T))
      → InRange b.updates
      → InRange items
      → InRange (extend b items).updates
  unfolding extend
  extend-InRange b items h r =
      let r' = All-append (λ u. u.1 < word) b.updates items h r in
      maintain_bounds-rule (λ c. InRange c.updates) _ r' (compact-InRange _ r')

  pub update-IsWellFormed :
      (b : ChangeBatch T) (t : T) (d : ℕ) → IsWellFormed b → IsWellFormed (update b t d)
  update-IsWellFormed b t d w = rw (update-eq-extend b t d) (extend-IsWellFormed b ((t, d) ∷ []) w)

  pub count-update :
      (k : T) (b : ChangeBatch T) (t : T) (d : ℕ)
      → count k (update b t d).updates ≡ add_i64 (count k b.updates) (count k ((t, d) ∷ []))
  count-update k b t d = rw (update-eq-extend b t d) (count-extend k b ((t, d) ∷ []))

  pub update-InRange :
      (b : ChangeBatch T) (t : T) (d : ℕ)
      → InRange b.updates
      → d < word
      → InRange (update b t d).updates
  update-InRange b t d h r = rw (update-eq-extend b t d) (extend-InRange b ((t, d) ∷ []) h (r, tt))
