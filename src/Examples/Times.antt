-- ===== src/Examples/Times.antt =====
-- Orders, timestamps and path summaries of timely/src/order.rs and timely/src/progress/timestamp.rs
-- at concrete values.
use timely_dataflow.Prelude.{ℕ, ◌^◌, ◌≡◌, ◌&&◌, refl, ltb, leb, none, some, true, ◌⊎◌, arith}
use timely_dataflow.Order.Numbers.{nat_eq, nat_partial}
use timely_dataflow.Order.Product.{product_eq, product_partial}
use timely_dataflow.Order.Tuple.{less_equal, tuple_partial}
use timely_dataflow.Timestamp.{
  IsLawful, IsMonotone, IsRefinement, add_summary, add_summary-IsLawful,
}
use timely_dataflow.Timestamp.Product.{
  product_summary, product_summary-IsLawful, refines_product, refines_product-IsRefinement,
}
use timely_dataflow.Timestamp.Tuple.{
  tuple_summary, tuple_summary-IsLawful, tuple_summary-not_IsMonotone,
}
use timely_dataflow.Timestamp.Signed.{
  ℤ, pos, IsI64, min, composed, in_turn, checked_add_i64, followed_by_drops,
}

add_summary-IsLawful_example : IsLawful (λ t. ltb t 256) (add_summary 256)
add_summary-IsLawful_example = add_summary-IsLawful 256

product_summary-IsLawful_example :
    IsLawful
      (λ t. ltb t.outer 256 && ltb t.inner 16)
      (product_summary (add_summary 256) (add_summary 16))
product_summary-IsLawful_example =
    product_summary-IsLawful (add_summary 256) (add_summary 16) (λ t. ltb t 256) (λ t. ltb t 16)
      (add_summary-IsLawful 256) (add_summary-IsLawful 16)

tuple_summary-IsLawful_example :
    IsLawful (λ t. ltb t.0 256 && ltb t.1 16) (tuple_summary (add_summary 256) (add_summary 16))
tuple_summary-IsLawful_example =
    tuple_summary-IsLawful (add_summary 256) (add_summary 16) (λ t. ltb t 256) (λ t. ltb t 16)
      (add_summary-IsLawful 256) (add_summary-IsLawful 16)

tuple_summary-not_IsMonotone_example :
    let summary = tuple_summary (add_summary 256) (add_summary 256) in
    (summary.results_in (0, 1) (0, 255) ≡ none)
    × (less_equal {A = ℕ} {B = ℕ} (0, 255) (1, 0) ≡ true)
    × (summary.results_in (0, 1) (1, 0) ≡ some (1, 1))
    × (¬ IsMonotone ⦃ps = tuple_partial⦄ ⦃pt = tuple_partial⦄ summary)
tuple_summary-not_IsMonotone_example = tuple_summary-not_IsMonotone 256 (omega arith)

zero_least : (n : ℕ) → leb 0 n ≡ true
zero_least n = ground arith

refines_product-IsRefinement_example :
    IsRefinement ⦃pi = product_partial⦄
      (product_summary (add_summary 256) (add_summary 16))
      (add_summary 256)
      (refines_product 0)
refines_product-IsRefinement_example =
    refines_product-IsRefinement (add_summary 256) (add_summary 16) 0 zero_least

-- Two steps of half the range.
abbrev half : ℤ
half = pos (2 ^ 62)

followed_by_drops_example :
    ((t : ℤ) × (u : ℤ) × IsI64 t
      × IsI64 u
      × (composed half half t ≡ none)
      × (in_turn half half t ≡ some u))
    ⊎ ((half ≡ min) × (half ≡ min) × ((t : ℤ) → IsI64 t → in_turn half half t ≡ none))
unfolding checked_add_i64
followed_by_drops_example =
    followed_by_drops half half (omega arith, omega arith) (omega arith, omega arith) refl
