-- ===== src/Notificator/Delivery.antt =====
-- What `make_available` does to the requests, time by time.
use timely_dataflow.Prelude.{
  ℕ, ◌≡◌, ◌≢◌, refl, ap, ◌∙◌, inl, inr, true, false, Bool-cases, ◌==◌, List, [], ◌∷◌, retain, All,
  arith, add_i64,
}
use Prim.Native.Nat.Ordering.{gt}
use timely_dataflow.Order.{Eq, PartialOrder, Ord}
use timely_dataflow.Sort.{sort_by, insert_by, IsSorted, insert_by-IsSorted, All-insert_by}
use timely_dataflow.ChangeBatch.Count.{count, share}
use timely_dataflow.Notificator.{
  Request, by_time, counts, merge_all, FrontierNotificator, is_past, release, make_available,
}
use timely_dataflow.Notificator.View.{
  requests, requests-retain, requests-insert_by, requests-rebuild,
}

module _ {ℓ} {T : Type ℓ} ⦃e : Eq T⦄ where
  -- What is requested for a time and not yet delivered.
  unfoldable pub outstanding : T → FrontierNotificator T → ℕ
  outstanding t n = add_i64 (requests t n.pending) (requests t n.available)

past_sum :
    (z l h x p a : ℕ)
    → z ≡ 0
    → add_i64 l h ≡ add_i64 p (add_i64 x a)
    → add_i64 (add_i64 z l) h ≡ add_i64 (add_i64 x p) a
unfolding add_i64
past_sum z l h x p a e g = omega arith

wait_sum :
    (l h x p a : ℕ) → add_i64 l h ≡ add_i64 p a → add_i64 (add_i64 x l) h ≡ add_i64 (add_i64 x p) a
unfolding add_i64
wait_sum l h x p a g = omega arith

share_none {ℓ} : {T : Type ℓ} ⦃e : Eq T⦄ (k t : T) → share k (t, 0) ≡ 0
share_none ⦃e⦄ k t = elim (Bool-cases (e.equal t k)) [
  | inl same ↦ rw same refl
  | inr other ↦ rw other refl
]

module _ {ℓ} {T : Type ℓ} ⦃e : Eq T⦄ ⦃p : PartialOrder T⦄ ⦃o : Ord T⦄ where
  -- What the loop moves to the heap it takes from the requests.
  count-release :
      (k : T) (frontiers : List (List T)) (us available : List (Request T))
      → let (left, heap) = release frontiers us available in
        add_i64 (requests k left) (requests k heap) ≡ add_i64 (requests k us) (requests k available)
  unfolding release requests count
  count-release k frontiers [] available = refl
  count-release k frontiers ((c, d) ∷ us) available = elim (Bool-cases (is_past frontiers c.time)) [
    | inl past ↦
        let heap = insert_by by_time (c, d) available in
        rw past (
          past_sum (share k (c.time, 0)) _ _ (share k (c.time, d)) (requests k us)
            (requests k available) (share_none k c.time)
            (count-release k frontiers us heap
              ∙ ap (add_i64 (requests k us)) (requests-insert_by k (c, d) available)))
    | inr waits ↦ rw waits (
        wait_sum _ _ (share k (c.time, d)) (requests k us) (requests k available)
          (count-release k frontiers us available))
  ]

  flip_time : (x y : Request T) → by_time x y ≡ gt → by_time y x ≢ gt
  flip_time x y h = ground (arith, o.lt_of_gt x.0.time y.0.time)

  -- Only times past all frontiers reach the heap, which stays in order.
  release-past :
      (frontiers : List (List T)) (us available : List (Request T))
      → All (λ (u : Request T). is_past frontiers u.0.time ≡ true) available
      → All
          (λ (u : Request T). is_past frontiers u.0.time ≡ true)
          (release frontiers us available).1
  unfolding release
  release-past frontiers [] available h = h
  release-past frontiers ((c, d) ∷ us) available h = elim (Bool-cases (is_past frontiers c.time)) [
    | inl past ↦ rw past (
        release-past frontiers us (insert_by by_time (c, d) available)
          (All-insert_by by_time (λ u. is_past frontiers u.0.time ≡ true) (c, d) available past h))
    | inr waits ↦ rw waits (release-past frontiers us available h)
  ]

  release-IsSorted :
      (frontiers : List (List T)) (us available : List (Request T))
      → IsSorted by_time available
      → IsSorted by_time (release frontiers us available).1
  unfolding release
  release-IsSorted frontiers [] available h = h
  release-IsSorted frontiers ((c, d) ∷ us) available h =
      elim (Bool-cases (is_past frontiers c.time)) [
        | inl past ↦ rw past (
            release-IsSorted frontiers us (insert_by by_time (c, d) available)
              (insert_by-IsSorted by_time flip_time (c, d) available h))
        | inr waits ↦ rw waits (release-IsSorted frontiers us available h)
      ]

  -- What is left and not zero has to wait.
  release-left :
      (frontiers : List (List T)) (us available : List (Request T))
      → All
          (λ (u : Request T). is_past frontiers u.0.time ≡ false)
          (retain counts (release frontiers us available).0)
  unfolding release
  release-left frontiers [] available = tt
  release-left frontiers ((c, d) ∷ us) available = elim (Bool-cases (is_past frontiers c.time)) [
    | inl past ↦ rw past (release-left frontiers us (insert_by by_time (c, d) available))
    | inr waits ↦ elim (Bool-cases (d == 0)) [
      | inl none_left ↦ rw (waits, none_left) (release-left frontiers us available)
      | inr some_left ↦ rw (waits, some_left) (waits, release-left frontiers us available)
    ]
  ]

  -- `make_available` loses no request and makes none up; the heap stays in order and past the frontiers
  -- where it was so before, and what is left pending has to wait for some frontier.
  pub make_available_correct :
      (n : FrontierNotificator T) (frontiers : List (List T))
      → IsSorted by_time n.available
      → All (λ (u : Request T). is_past frontiers u.0.time ≡ true) n.available
      → let n' = make_available n frontiers in
        ((t : T) → outstanding t n' ≡ outstanding t n)
        × IsSorted by_time n'.available
        × All (λ (u : Request T). is_past frontiers u.0.time ≡ true) n'.available
        × All (λ (u : Request T). is_past frontiers u.0.time ≡ false) n'.pending
  unfolding make_available outstanding
  make_available_correct n frontiers sorted past =
      let us = retain counts (merge_all (sort_by by_time n.pending)) in
      let (left, heap) = release frontiers us n.available in
      (
        λ t.
            ap (λ c. add_i64 c (requests t heap)) (requests-retain t left)
            ∙ count-release t frontiers us n.available
            ∙ ap (λ c. add_i64 c (requests t n.available)) (requests-rebuild t n.pending),
        release-IsSorted frontiers us n.available sorted,
        release-past frontiers us n.available past,
        release-left frontiers us n.available,
      )
