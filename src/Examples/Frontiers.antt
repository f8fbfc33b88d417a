-- ===== src/Examples/Frontiers.antt =====
-- Antichains and mutable antichains of timely/src/progress/frontier.rs at concrete times: pairs in
-- the product order, and numbers.
use timely_dataflow.Prelude.{
  ℕ, ◌≡◌, ◌↔◌, ◌||◌, refl, true, not, any, List, [], ◌∷◌, add_i64, minus, arith,
}
use timely_dataflow.Order.Numbers.{nat_eq, nat_partial, nat_ord, nat-IsCompatible}
use timely_dataflow.Order.Product.{Product, product_eq, product_partial}
use timely_dataflow.ChangeBatch.{Update, new_from, update, maintain_bounds}
use timely_dataflow.ChangeBatch
use timely_dataflow.ChangeBatch.Count.{count}
use timely_dataflow.ChangeBatch.Compact.{IsAscending, InRange}
use timely_dataflow.Antichain.{Antichain, insert, extend, less_equal, dominates, equal}
use timely_dataflow.Antichain.Laws.{IsAntichain, insert_correct, extend_correct}
use timely_dataflow.Antichain.Equality.{equal_iff, dominates_iff}
use timely_dataflow.MutableAntichain.{MutableAntichain, new_bottom, update_iter, rebuild}
use timely_dataflow.MutableAntichain.Rebuild.{IsFrontier, rebuild_correct}
use timely_dataflow.MutableAntichain.Apply.{Fits}
use timely_dataflow.MutableAntichain.Loop.{IsValid, each}
use timely_dataflow.MutableAntichain.Correct.{update_iter_correct, new_bottom-IsValid}

abbrev at : ℕ → ℕ → Product ℕ ℕ
at a b = record { outer = a; inner = b }

-- Two incomparable times.
abbrev corner : Antichain (Product ℕ ℕ)
corner = record { elements = at 1 3 ∷ at 3 1 ∷ [] }

corner-IsAntichain : IsAntichain corner.elements
corner-IsAntichain = (((refl, refl), tt), (tt, tt))

-- (1, 1) lies below both, and takes their place.
insert-corner : insert corner (at 1 1) ≡ (record { elements = at 1 1 ∷ [] }, true)
unfolding insert
insert-corner = refl

insert_correct_example :
    IsAntichain (insert corner (at 1 1)).0.elements
    × ((t : Product ℕ ℕ)
        → less_equal (insert corner (at 1 1)).0 t
          ≡ (less_equal corner t || product_partial.less_equal (at 1 1) t))
    × ((insert corner (at 1 1)).1 ≡ not (less_equal corner (at 1 1)))
insert_correct_example = insert_correct corner (at 1 1) corner-IsAntichain

abbrev more : List (Product ℕ ℕ)
more = at 2 2 ∷ at 4 4 ∷ []

extend_correct_example :
    IsAntichain (extend corner more).0.elements
    × ((t : Product ℕ ℕ)
        → less_equal (extend corner more).0 t
          ≡ (less_equal corner t || any (λ e. product_partial.less_equal e t) more))
    × ((extend corner more).1 ≡ any (λ e. not (less_equal corner e)) more)
extend_correct_example = extend_correct corner more corner-IsAntichain

-- The same two times in the other order.
abbrev turned : Antichain (Product ℕ ℕ)
turned = record { elements = at 3 1 ∷ at 1 3 ∷ [] }

turned-IsAntichain : IsAntichain turned.elements
turned-IsAntichain = (((refl, refl), tt), (tt, tt))

equal_iff_example :
    (equal corner turned ≡ true) ↔ ((t : Product ℕ ℕ) → less_equal corner t ≡ less_equal turned t)
equal_iff_example = equal_iff corner turned corner-IsAntichain turned-IsAntichain

dominates_iff_example :
    (dominates corner turned ≡ true)
    ↔ ((t : Product ℕ ℕ) → less_equal turned t ≡ true → less_equal corner t ≡ true)
dominates_iff_example = dominates_iff corner turned

abbrev bottom : MutableAntichain ℕ
bottom = new_bottom 1

-- The only time leaves, and two arrive.
abbrev moves : List (Update ℕ)
moves = (1, minus 1) ∷ (4, 1) ∷ (2, 7) ∷ []

moves_range : InRange moves
moves_range = (omega arith, (omega arith, (omega arith, tt)))

moves-Fits : Fits bottom.updates.updates moves
unfolding new_bottom count add_i64 new_from update maintain_bounds ChangeBatch.new
moves-Fits = (refl, (refl, (refl, tt)))

update_iter_correct_example :
    let (m', changes) = update_iter bottom moves in
    IsValid m'
    × ((k : ℕ)
        → count k m'.updates.updates ≡ add_i64 (count k bottom.updates.updates) (count k moves))
    × ((k : ℕ)
        → add_i64 (count k (each 1 bottom.frontier)) (count k changes)
          ≡ count k (each 1 m'.frontier))
    × IsAscending changes
update_iter_correct_example =
    update_iter_correct nat-IsCompatible bottom moves (new_bottom-IsValid 1) moves_range moves-Fits

rebuild_correct_example :
    IsFrontier (λ k. count k bottom.updates.updates) (rebuild bottom).frontier
    × ((k : ℕ) → count k (rebuild bottom).updates.updates ≡ count k bottom.updates.updates)
rebuild_correct_example =
    rebuild_correct nat-IsCompatible bottom (new_bottom-IsValid {T = ℕ} 1).formed
      (new_bottom-IsValid {T = ℕ} 1).ranged
