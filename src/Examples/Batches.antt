-- ===== src/Examples/Batches.antt =====
-- Change batches of timely/src/progress/change_batch.rs at concrete updates.
use timely_dataflow.Prelude.{
  ℕ, ◌/◌, ◌≤◌, ◌<◌, ◌≡◌, ◌⊎◌, ◌↔◌, refl, List, [], ◌∷◌, true, false, length, add_i64, minus, arith,
}
use timely_dataflow.Order.Numbers.{nat_eq, nat_ord}
use timely_dataflow.ChangeBatch.{
  ChangeBatch, Update, new_from, compact, consolidate_all, extend, is_empty, drain_into,
}
use timely_dataflow.Sort.{sort_by}
use timely_dataflow.ChangeBatch.Count.{count}
use timely_dataflow.ChangeBatch.Compact.{IsAscending}
use timely_dataflow.ChangeBatch.Invariant.{IsWellFormed, IsProper}
use timely_dataflow.ChangeBatch.Methods.{
  compact_correct, is_empty_correct, is_empty-zero_update, extend_bounded, drain_into_correct,
}

-- One clean update, and three that are not: the third cancels the second.
abbrev four : ChangeBatch ℕ
four = record { updates = (5, 2) ∷ (3, 1) ∷ (3, minus 1) ∷ (9, minus 4) ∷ []; clean = 1 }

four-IsWellFormed : IsWellFormed four
four-IsWellFormed = record { within = omega arith; ascending = (tt, tt) }

four-IsProper : IsProper four
four-IsProper = record {
  formed = four-IsWellFormed;
  nonzeros = (
    (λ h. ground arith),
    ((λ h. ground arith), ((λ h. ground arith), ((λ h. ground arith), tt))),
  );
  ranged = (omega arith, (omega arith, (omega arith, (omega arith, tt))));
}

compact-four : compact four ≡ record { updates = (5, 2) ∷ (9, minus 4) ∷ []; clean = 2 }
unfolding compact consolidate_all sort_by add_i64
compact-four = refl

compact_correct_example :
    ((k : ℕ) → count k (compact four).updates ≡ count k four.updates)
    × IsAscending (compact four).updates
    × ((compact four).clean ≡ length (compact four).updates)
    × IsProper (compact four)
compact_correct_example = compact_correct four four-IsProper

is_empty_correct_example : ((is_empty four).1 ≡ true) ↔ ((k : ℕ) → count k four.updates ≡ 0)
is_empty_correct_example = is_empty_correct four four-IsProper

is_empty-zero_update_example :
    ((is_empty (new_from {T = ℕ} 7 0)).1 ≡ false)
    × ((k : ℕ) → count k (new_from {T = ℕ} 7 0).updates ≡ 0)
is_empty-zero_update_example = is_empty-zero_update 7

abbrev two : List (Update ℕ)
two = (9, 4) ∷ (5, 1) ∷ []

extend_bounded_example :
    ((length (extend four two).updates ≤ 32)
      ⊎ (length (extend four two).updates / 2 < (extend four two).clean))
    × ((k : ℕ) → count k (extend four two).updates ≡ add_i64 (count k four.updates) (count k two))
    × IsWellFormed (extend four two)
extend_bounded_example = extend_bounded four two four-IsWellFormed

abbrev dirty : ChangeBatch ℕ
dirty = record { updates = (3, 1) ∷ (2, 1) ∷ []; clean = 0 }

dirty-IsWellFormed : IsWellFormed dirty
dirty-IsWellFormed = record { within = omega arith; ascending = tt }

drain_into_correct_example :
    ((k : ℕ)
      → count k (drain_into four dirty).1.updates
        ≡ add_i64 (count k dirty.updates) (count k four.updates))
    × ((drain_into four dirty).0.updates ≡ [])
    × IsWellFormed (drain_into four dirty).0
    × IsWellFormed (drain_into four dirty).1
drain_into_correct_example = drain_into_correct four dirty four-IsWellFormed dirty-IsWellFormed
