-- ===== src/Notificator.antt =====
-- timely/src/dataflow/operators/generic/notificator.rs. The counts that cloning and dropping a
-- capability move are those of Capability, and are left out here. The heap is the list of its entries in
-- the order of their times, which is what `pop` goes by; among entries of one time, whose order a heap
-- leaves open, a new one comes first.
pub mod View
pub mod Delivery
pub mod Next
use timely_dataflow.Prelude.{
  ℕ, Bool, true, false, not, ◌&&◌, ◌==◌, if◌then◌else◌, List, [], ◌∷◌, ◌++◌, Option, none, some,
  map, all, any, retain, add_i64, Ordering,
}
use timely_dataflow.Order.{Eq, PartialOrder, Ord}
use timely_dataflow.Sort.{sort_by, insert_by}
use timely_dataflow.Capability.{Capability, equal}

-- A capability with its count of requests, a `u64`.
abbrev pub Request {ℓ} : Type ℓ → Type ℓ
Request T = Capability T × ℕ

pub record FrontierNotificator {ℓ} (T : Type ℓ) : Type ℓ where
  pub pending : List (Request T)
  pub available : List (Request T)

module _ {ℓ} {T : Type ℓ} where
  unfoldable pub from : List (Capability T) → FrontierNotificator T
  from caps = record { pending = map (λ c. (c, 1)) caps; available = [] }

  unfoldable pub notify_at : FrontierNotificator T → Capability T → FrontierNotificator T
  notify_at n cap = record n { pending = n.pending ++ (cap, 1) ∷ [] }

  -- The order of the sort, which is that of the heap from its top on.
  abbrev pub by_time : ⦃o : Ord T⦄ → Request T → Request T → Ordering
  by_time ⦃o⦄ x y = o.cmp x.0.time y.0.time

  abbrev pub counts : Request T → Bool
  counts x = not (x.1 == 0)

  -- The loop over neighbours, from the current element `(c, n)` and the elements behind it.
  unfoldable pub merge : ⦃e : Eq T⦄ → Capability T → ℕ → List (Request T) → List (Request T)
  merge ⦃e⦄ c n [] = (c, n) ∷ []
  merge ⦃e⦄ c n ((d, m) ∷ rest) =
      let same = e.equal c.time d.time in
      (c, (if same then 0 else n)) ∷ merge d (if same then add_i64 m n else m) rest

  unfoldable pub merge_all : ⦃e : Eq T⦄ → List (Request T) → List (Request T)
  unfolding merge
  merge_all [] = []
  merge_all ((c, n) ∷ rest) = merge c n rest

module _ {ℓ} {T : Type ℓ} ⦃p : PartialOrder T⦄ where
  -- No frontier holds a time at or below this one.
  unfoldable pub is_past : List (List T) → T → Bool
  is_past frontiers time = all (λ frontier. not (any (λ f. p.less_equal f time) frontier)) frontiers

module _ {ℓ} {T : Type ℓ} ⦃e : Eq T⦄ ⦃p : PartialOrder T⦄ ⦃o : Ord T⦄ where
  unfoldable pub notify_at_frontiered :
      FrontierNotificator T → Capability T → List (List T) → FrontierNotificator T
  notify_at_frontiered n cap frontiers =
      if is_past frontiers cap.time
      then record n { available = insert_by by_time (cap, 1) n.available }
      else record n { pending = n.pending ++ (cap, 1) ∷ [] }

  -- The loop that pushes to the heap: what is left pending, and the heap.
  unfoldable pub release :
      List (List T) → List (Request T) → List (Request T) → List (Request T) × List (Request T)
  release frontiers [] available = ([], available)
  release frontiers ((cap, count) ∷ rest) available =
      let past = is_past frontiers cap.time in
      let (left, heap) =
        release frontiers rest
          (if past then insert_by by_time (cap, count) available else available) in
      ((if past then (cap, 0) ∷ left else (cap, count) ∷ left), heap)

  -- On no pending request nothing happens, as on the empty list below.
  unfoldable pub make_available : FrontierNotificator T → List (List T) → FrontierNotificator T
  make_available n frontiers =
      let pending = retain counts (merge_all (sort_by by_time n.pending)) in
      let (left, heap) = release frontiers pending n.available in
      record { pending = retain counts left; available = heap }

  -- Takes off what equals the front: its time, its batch and its count.
  unfoldable pub take_equal : Request T → ℕ → List (Request T) → ℕ × List (Request T)
  take_equal front count [] = (count, [])
  take_equal front count ((cap, value) ∷ rest) =
      let further = take_equal front (add_i64 count value) rest in
      if equal cap front.0 && value == front.1 then further else (count, (cap, value) ∷ rest)

  unfoldable pub pop_front : FrontierNotificator T → FrontierNotificator T × Option (Request T)
  pop_front n = elim n.available [
    | [] ↦ (n, none)
    | front ∷ rest ↦
        let (count, left) = take_equal front front.1 rest in
        (record n { available = left }, some (front.0, count))
  ]

  unfoldable pub next_count :
      FrontierNotificator T → List (List T) → FrontierNotificator T × Option (Request T)
  next_count n frontiers = elim n.available [
    | [] ↦ pop_front (make_available n frontiers)
    | front ∷ rest ↦ pop_front n
  ]

  unfoldable pub next :
      FrontierNotificator T → List (List T) → FrontierNotificator T × Option (Capability T)
  next n frontiers =
      let (n', delivered) = next_count n frontiers in
      (n', elim delivered [ none ↦ none | some d ↦ some d.0 ])
