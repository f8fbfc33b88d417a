-- ===== src/Notificator/View.antt =====
-- Requests read as updates of counts by time, whatever the batches of their capabilities are.
use timely_dataflow.Prelude.{
  ◌≡◌, refl, ap, ◌∙◌, Bool-cases, ◌==◌, inl, inr, List, [], ◌∷◌, map, retain, arith, if◌then◌else◌,
  add_i64, ℕ,
}
use timely_dataflow.Order.{Eq, Ord}
use timely_dataflow.Sort.{sort_by, insert_by}
use timely_dataflow.Capability.{Capability}
use timely_dataflow.ChangeBatch.{Update, by_key, consolidate, consolidate_all, nonzero}
use timely_dataflow.ChangeBatch.Count.{count, count-retain, count-insert_by, count-rebuild}
use timely_dataflow.Notificator.{Request, by_time, counts, merge, merge_all}

module _ {ℓ} {T : Type ℓ} where
  abbrev pub view : Request T → Update T
  view x = (x.0.time, x.1)

  map-retain : (us : List (Request T)) → map view (retain counts us) ≡ retain nonzero (map view us)
  map-retain [] = refl
  map-retain ((c, n) ∷ us) = elim (Bool-cases (n == 0)) [
    | inl none_left ↦ rw none_left (map-retain us)
    | inr some_left ↦ rw some_left (ap (◌∷◌ (c.time, n)) (map-retain us))
  ]

module _ {ℓ} {T : Type ℓ} ⦃o : Ord T⦄ where
  map-insert_by :
      (x : Request T) (us : List (Request T))
      → map view (insert_by by_time x us) ≡ insert_by by_key (view x) (map view us)
  unfolding insert_by
  map-insert_by x [] = refl
  map-insert_by x (y ∷ us) = ground (arith, map-insert_by x us)

  map-sort_by :
      (us : List (Request T)) → map view (sort_by by_time us) ≡ sort_by by_key (map view us)
  unfolding sort_by
  map-sort_by [] = refl
  map-sort_by (x ∷ us) =
      map-insert_by x (sort_by by_time us) ∙ ap (insert_by by_key (view x)) (map-sort_by us)

module _ {ℓ} {T : Type ℓ} ⦃e : Eq T⦄ where
  map-merge :
      (c : Capability T) (n : ℕ) (us : List (Request T))
      → map view (merge c n us) ≡ consolidate c.time n (map view us)
  unfolding merge consolidate
  map-merge c n [] = refl
  map-merge c n ((d, m) ∷ us) =
      ap (◌∷◌ (c.time, (if e.equal c.time d.time then 0 else n)))
        (map-merge d (if e.equal c.time d.time then add_i64 m n else m) us)

  map-merge_all : (us : List (Request T)) → map view (merge_all us) ≡ consolidate_all (map view us)
  unfolding merge_all consolidate_all
  map-merge_all [] = refl
  map-merge_all ((c, n) ∷ us) = map-merge c n us

  -- The requests for a time.
  unfoldable pub requests : T → List (Request T) → ℕ
  requests k us = count k (map view us)

  pub requests-retain :
      (k : T) (us : List (Request T)) → requests k (retain counts us) ≡ requests k us
  unfolding requests
  requests-retain k us = ap (count k) (map-retain us) ∙ count-retain k (map view us)

module _ {ℓ} {T : Type ℓ} ⦃e : Eq T⦄ ⦃o : Ord T⦄ where
  pub requests-insert_by :
      (k : T) (x : Request T) (us : List (Request T))
      → requests k (insert_by by_time x us) ≡ requests k (x ∷ us)
  unfolding requests
  requests-insert_by k x us =
      ap (count k) (map-insert_by x us) ∙ count-insert_by k by_key (view x) (map view us)

  -- Sorting and merging changes the count of no time.
  pub requests-rebuild :
      (k : T) (us : List (Request T))
      → requests k (retain counts (merge_all (sort_by by_time us))) ≡ requests k us
  unfolding requests
  requests-rebuild k us =
      ap (count k) (
        map-retain (merge_all (sort_by by_time us))
        ∙ ap (retain nonzero)
            (map-merge_all (sort_by by_time us) ∙ ap consolidate_all (map-sort_by us)))
      ∙ count-rebuild k (map view us)
