-- ===== src/Examples/Permits.antt =====
-- Capabilities at concrete times: two of the batch 0, at 1 and at 4.
use timely_dataflow.Prelude.{
  ℕ, refl, any, ◌||◌, ◌≡◌, ◌⊎◌, true, false, [], ◌∷◌, map, all, none, some, leb,
}
use timely_dataflow.Order.Numbers.{nat_eq, nat_partial, nat_ord}
use timely_dataflow.ChangeBatch
use timely_dataflow.Capability.{
  Capability, Store, less_equal, try_delayed, try_downgrade, insert, set_try_downgrade,
}
use timely_dataflow.Antichain.Laws.{IsAntichain}
use timely_dataflow.Capability.Balance.{Conserves, try_delayed_correct, try_downgrade_correct}
use timely_dataflow.Capability.Insert.{capability_partial, insert_capability_correct}
use timely_dataflow.Capability.Sets.{allows, set_try_downgrade_correct}

abbrev store : Store ℕ
store i = ChangeBatch.new

abbrev early : Capability ℕ
early = record { time = 1; internal = 0 }

abbrev late : Capability ℕ
late = record { time = 4; internal = 0 }

try_delayed_correct_example :
    ((leb 1 3 ≡ false) × (try_delayed store early 3 ≡ none))
    ⊎ ((leb 1 3 ≡ true)
        × (s' : Store ℕ) × (c' : Capability ℕ) × (try_delayed store early 3 ≡ some (s', c'))
        × (c'.time ≡ 3)
        × Conserves store (early ∷ []) s' (c' ∷ early ∷ []))
try_delayed_correct_example = try_delayed_correct store early 3 (early ∷ [])

try_downgrade_correct_example :
    ((leb 1 3 ≡ false) × (try_downgrade store early 3 ≡ (store, early, false)))
    ⊎ ((leb 1 3 ≡ true)
        × (s' : Store ℕ) × (c' : Capability ℕ) × (try_downgrade store early 3 ≡ (s', c', true))
        × (c'.time ≡ 3)
        × (c'.internal ≡ 0)
        × Conserves store (early ∷ late ∷ []) s' (c' ∷ late ∷ []))
try_downgrade_correct_example = try_downgrade_correct store early 3 (late ∷ [])

abbrev other : Capability ℕ
other = record { time = 2; internal = 1 }

apart : IsAntichain (late ∷ other ∷ [])
unfolding less_equal
apart = (((refl, refl), tt), (tt, tt))

insert_capability_correct_example :
    let (s', elements') = insert store (late ∷ other ∷ []) early in
    IsAntichain elements'
    × ((c : Capability ℕ)
        → any (λ d. less_equal d c) elements'
          ≡ (any (λ d. less_equal d c) (late ∷ other ∷ []) || less_equal early c))
    × Conserves store (early ∷ late ∷ other ∷ []) s' elements'
insert_capability_correct_example = insert_capability_correct store (late ∷ other ∷ []) early apart

set_try_downgrade_correct_example :
    let (s', elements', ok) = set_try_downgrade store (early ∷ late ∷ []) (2 ∷ 3 ∷ []) in
    (ok ≡ all (λ t. allows (early ∷ late ∷ []) t) (2 ∷ 3 ∷ []))
    × ((ok ≡ false) ⊎ (map (λ c. c.time) elements' ≡ 2 ∷ 3 ∷ []))
    × Conserves store (early ∷ late ∷ []) s' elements'
set_try_downgrade_correct_example = set_try_downgrade_correct store (early ∷ late ∷ []) (2 ∷ 3 ∷ [])
