-- ===== src/MutableAntichain.antt =====
-- `MutableAntichain` of timely/src/progress/frontier.rs: counts of times, the frontier of those
-- with a positive count, and the changes of the frontier that are not yet handed out.
pub mod Rebuild
pub mod Apply
pub mod Loop
pub mod Linear
pub mod Correct
use timely_dataflow.Prelude.{
  ℕ, Bool, true, false, not, ◌&&◌, ◌||◌, List, [], ◌∷◌, ◌++◌, if◌then◌else◌, any, map, positive,
  negative, minus, add_i64, is_nil,
}
use timely_dataflow.Order.{Eq, PartialOrder, Ord, less_than}
use timely_dataflow.ChangeBatch.{ChangeBatch, Update}
use timely_dataflow.ChangeBatch

pub record MutableAntichain {ℓ} (T : Type ℓ) : Type ℓ where
  pub updates : ChangeBatch T
  pub frontier : List T
  pub changes : ChangeBatch T

module _ {ℓ} {T : Type ℓ} where
  unfoldable pub new : MutableAntichain T
  new = record { updates = ChangeBatch.new; frontier = []; changes = ChangeBatch.new }

  unfoldable pub clear : MutableAntichain T → MutableAntichain T
  clear m = record {
    updates = ChangeBatch.clear m.updates;
    frontier = [];
    changes = ChangeBatch.clear m.changes;
  }

  unfoldable pub is_empty : MutableAntichain T → Bool
  is_empty m = is_nil m.frontier

  unfoldable pub less_equal : ⦃p : PartialOrder T⦄ → MutableAntichain T → T → Bool
  less_equal ⦃p⦄ m time = any (λ x. p.less_equal x time) m.frontier

  unfoldable pub less_than_elem : ⦃e : Eq T⦄ ⦃p : PartialOrder T⦄ → MutableAntichain T → T → Bool
  less_than_elem m time = any (λ x. less_than x time) m.frontier

  -- The sum of the differences of a time, from the left.
  unfoldable pub sum_for : ⦃e : Eq T⦄ → T → ℕ → List (Update T) → ℕ
  sum_for ⦃e⦄ time acc [] = acc
  sum_for ⦃e⦄ time acc ((t, d) ∷ us) =
      sum_for time (if e.equal t time then add_i64 acc d else acc) us

  unfoldable pub count_for : ⦃e : Eq T⦄ → MutableAntichain T → T → ℕ
  count_for m time = sum_for time 0 m.updates.updates

module _ {ℓ} {T : Type ℓ} ⦃e : Eq T⦄ ⦃o : Ord T⦄ where
  unfoldable pub new_bottom : T → MutableAntichain T
  new_bottom bottom = record {
    updates = ChangeBatch.new_from bottom 1;
    frontier = bottom ∷ [];
    changes = ChangeBatch.new;
  }

  -- `for time in times { self.changes.update(time, delta) }`.
  unfoldable pub note_all : ChangeBatch T → ℕ → List T → ChangeBatch T
  note_all changes delta [] = changes
  note_all changes delta (time ∷ rest) = note_all (ChangeBatch.update changes time delta) delta rest

module _ {ℓ} {T : Type ℓ} ⦃p : PartialOrder T⦄ where
  -- The loop that builds the frontier from the compacted updates.
  unfoldable pub build_frontier : List T → List (Update T) → List T
  build_frontier frontier [] = frontier
  build_frontier frontier ((t, d) ∷ us) =
      build_frontier
        (if positive d && not (any (λ f. p.less_equal f t) frontier)
          then frontier ++ t ∷ []
          else frontier)
        us

module _ {ℓ} {T : Type ℓ} ⦃e : Eq T⦄ ⦃p : PartialOrder T⦄ where
  -- Whether an update of a time may change the frontier.
  unfoldable pub may_change : List T → T → ℕ → Bool
  may_change frontier time delta =
      let beyond_frontier = any (λ f. less_than f time) frontier in
      let before_frontier = not (any (λ f. p.less_equal f time) frontier) in
      not (beyond_frontier || negative delta && before_frontier)

module _ {ℓ} {T : Type ℓ} ⦃e : Eq T⦄ ⦃p : PartialOrder T⦄ ⦃o : Ord T⦄ where
  unfoldable pub rebuild : MutableAntichain T → MutableAntichain T
  rebuild m =
      let (updates, items) = ChangeBatch.iter m.updates in
      let frontier = build_frontier [] items in
      record {
        updates = updates;
        frontier = frontier;
        changes = note_all (note_all m.changes (minus 1) m.frontier) 1 frontier;
      }

  -- The loop of `update_iter`: the batch of updates, and whether a rebuild is required.
  unfoldable pub update_loop :
      List T → ChangeBatch T → Bool → List (Update T) → ChangeBatch T × Bool
  update_loop frontier batch required [] = (batch, required)
  update_loop frontier batch required ((time, delta) ∷ rest) =
      update_loop frontier (ChangeBatch.update batch time delta)
        (required || may_change frontier time delta) rest

  -- `self.changes.drain()`.
  unfoldable pub hand_out : MutableAntichain T → MutableAntichain T × List (Update T)
  hand_out m =
      let (changes, drained) = ChangeBatch.drain m.changes in
      (record m { changes = changes }, drained)

  -- `update_iter`: the new antichain, and the changes that its `Drain` hands out.
  unfoldable pub update_iter :
      MutableAntichain T → List (Update T) → MutableAntichain T × List (Update T)
  update_iter m items =
      let (updates, required) = update_loop m.frontier m.updates false items in
      let m' = record m { updates = updates } in hand_out (if required then rebuild m' else m')

  -- `updates()`: rebuilds, and shows the compacted updates.
  unfoldable pub updates : MutableAntichain T → MutableAntichain T × List (Update T)
  updates m =
      let m' = rebuild m in
      let (batch, items) = ChangeBatch.iter m'.updates in (record m' { updates = batch }, items)

  -- `From<Antichain<T>>` and `FromIterator<(T, i64)>`.
  unfoldable pub from_antichain : List T → MutableAntichain T
  from_antichain elements = (update_iter new (map (λ t. (t, 1)) elements)).0

  unfoldable pub from_iter : List (Update T) → MutableAntichain T
  from_iter items = (update_iter new items).0
