-- ===== src/Examples/Notifications.antt =====
-- Witnesses for the notificator: requests at 5, 3 and 5 for two outputs, and a frontier at 4.
use timely_dataflow.Prelude.{ℕ, ◌≡◌, [], ◌∷◌, All, true, false}
use timely_dataflow.Order.Numbers.{nat_eq, nat_partial, nat_ord}
use timely_dataflow.Capability.{Capability}
use timely_dataflow.Sort.{IsSorted}
use timely_dataflow.Notificator.{
  Request, by_time, FrontierNotificator, from, is_past, make_available, next_count,
}
use timely_dataflow.Notificator.Delivery.{outstanding, make_available_correct}
use timely_dataflow.Notificator.Next.{Delivers, next_count_correct}

abbrev for_output : ℕ → ℕ → Capability ℕ
for_output internal time = record { time = time; internal = internal }

abbrev requests : FrontierNotificator ℕ
requests = from (for_output 0 5 ∷ for_output 0 3 ∷ for_output 1 5 ∷ [])

make_available_correct_example :
    ((t : ℕ) → outstanding t (make_available requests ((4 ∷ []) ∷ [])) ≡ outstanding t requests)
    × IsSorted by_time (make_available requests ((4 ∷ []) ∷ [])).available
    × All
        (λ (u : Request ℕ). is_past ((4 ∷ []) ∷ []) u.0.time ≡ true)
        (make_available requests ((4 ∷ []) ∷ [])).available
    × All
        (λ (u : Request ℕ). is_past ((4 ∷ []) ∷ []) u.0.time ≡ false)
        (make_available requests ((4 ∷ []) ∷ [])).pending
unfolding from
make_available_correct_example = make_available_correct requests ((4 ∷ []) ∷ []) tt tt

next_count_correct_example : Delivers ((4 ∷ []) ∷ []) requests (next_count requests ((4 ∷ []) ∷ []))
unfolding from
next_count_correct_example = next_count_correct requests ((4 ∷ []) ∷ []) tt tt
