-- ===== src/ChangeBatch.antt =====
-- timely/src/progress/change_batch.rs. A batch is its vector of updates and the length of the
-- prefix that is known to be compact; a method that mutates `self` returns the new batch first.
pub mod Count
pub mod Compact
pub mod Invariant
pub mod Keys
pub mod Methods
pub mod Additive
use timely_dataflow.Prelude.{
  ℕ, ◌/◌, Bool, false, not, ◌&&◌, List, [], ◌∷◌, ◌++◌, Ordering, ltb, leb, ◌==◌, if◌then◌else◌,
  length, is_nil, retain, add_i64,
}
use timely_dataflow.Order.{Eq, Ord}
use timely_dataflow.Sort.{sort_by}

-- `(T, i64)`, the difference as its bit pattern.
abbrev pub Update {ℓ} : Type ℓ → Type ℓ
Update T = T × ℕ

pub record ChangeBatch {ℓ} (T : Type ℓ) : Type ℓ where
  pub updates : List (Update T)
  pub clean : ℕ

module _ {ℓ} {T : Type ℓ} where
  unfoldable pub new : ChangeBatch T
  new = record { updates = []; clean = 0 }

  unfoldable pub is_dirty : ChangeBatch T → Bool
  is_dirty b = ltb b.clean (length b.updates)

  unfoldable pub clear : ChangeBatch T → ChangeBatch T
  clear b = record { updates = []; clean = 0 }

  -- The key order by which `compact` sorts.
  abbrev pub by_key : ⦃o : Ord T⦄ → Update T → Update T → Ordering
  by_key ⦃o⦄ x y = o.cmp x.0 y.0

  -- The loop over neighbours, from the current element `(t, d)` and the elements behind it.
  unfoldable pub consolidate : ⦃e : Eq T⦄ → T → ℕ → List (Update T) → List (Update T)
  consolidate ⦃e⦄ t d [] = (t, d) ∷ []
  consolidate ⦃e⦄ t d ((s, x) ∷ rest) =
      let same = e.equal t s in
      (t, (if same then 0 else d)) ∷ consolidate s (if same then add_i64 x d else x) rest

  unfoldable pub consolidate_all : ⦃e : Eq T⦄ → List (Update T) → List (Update T)
  unfolding consolidate
  consolidate_all [] = []
  consolidate_all ((t, d) ∷ rest) = consolidate t d rest

  abbrev pub nonzero : Update T → Bool
  nonzero x = not (x.1 == 0)

module _ {ℓ} {T : Type ℓ} ⦃e : Eq T⦄ ⦃o : Ord T⦄ where
  unfoldable pub compact : ChangeBatch T → ChangeBatch T
  compact b =
      let updates =
        if ltb b.clean (length b.updates) && ltb 1 (length b.updates)
        then retain nonzero (consolidate_all (sort_by by_key b.updates))
        else b.updates in
      record { updates = updates; clean = length updates }

  unfoldable pub maintain_bounds : ChangeBatch T → ChangeBatch T
  maintain_bounds b =
      if ltb 32 (length b.updates) && leb b.clean (length b.updates / 2) then compact b else b

  unfoldable pub update : ChangeBatch T → T → ℕ → ChangeBatch T
  update b item value = maintain_bounds (record b { updates = b.updates ++ (item, value) ∷ [] })

  unfoldable pub extend : ChangeBatch T → List (Update T) → ChangeBatch T
  extend b items = maintain_bounds (record b { updates = b.updates ++ items })

  unfoldable pub new_from : T → ℕ → ChangeBatch T
  new_from key val = update new key val

  unfoldable pub into_inner : ChangeBatch T → List (Update T)
  into_inner b = (compact b).updates

  unfoldable pub iter : ChangeBatch T → ChangeBatch T × List (Update T)
  iter b = let b' = compact b in (b', b'.updates)

  unfoldable pub drain : ChangeBatch T → ChangeBatch T × List (Update T)
  drain b = (record { updates = []; clean = 0 }, (compact b).updates)

  unfoldable pub is_empty : ChangeBatch T → ChangeBatch T × Bool
  is_empty b =
      if ltb (length b.updates / 2) b.clean
      then (b, false)
      else (compact b, is_nil (compact b).updates)

  unfoldable pub len : ChangeBatch T → ChangeBatch T × ℕ
  len b = let b' = compact b in (b', length b'.updates)

  -- `self` and `other` after `self.drain_into(other)`.
  unfoldable pub drain_into : ChangeBatch T → ChangeBatch T → ChangeBatch T × ChangeBatch T
  drain_into b other =
      if is_nil other.updates
      then (other, b)
      else (record { updates = []; clean = 0 }, extend other b.updates)
