-- ===== src/Timestamp/Tuple.antt =====
-- The impl of `PathSummary` of timely/src/order.rs for pairs, whose order is lexicographic.
use timely_dataflow.Prelude.{ℕ, ◌-◌, ◌≤◌, ◌&&◌, refl, Bool, Option, none, some, ◌≡◌, true, arith}
use timely_dataflow.Order.{Eq, PartialOrder, less_than}
use timely_dataflow.Order.Numbers.{nat_eq, nat_partial}
use timely_dataflow.Order.Tuple.{less_equal, tuple_partial}
use timely_dataflow.Timestamp.{
  ◌>>=◌, PathSummary, IsLawful, IsMonotone, Refines, IsRefinement, le_option, checked_add,
  add_summary,
}

module _ {ℓ κ μ ν} {A : Type ℓ} {B : Type κ} {SA : Type μ} {SB : Type ν} (a : PathSummary SA A)
    (b : PathSummary SB B) where
  unfoldable pub results_in : SA × SB → A × B → Option (A × B)
  results_in s t = a.results_in s.0 t.0 >>= λ x. b.results_in s.1 t.1 >>= λ y. some (x, y)

  unfoldable pub followed_by : SA × SB → SA × SB → Option (SA × SB)
  followed_by s r = a.followed_by s.0 r.0 >>= λ x. b.followed_by s.1 r.1 >>= λ y. some (x, y)

  abbrev pub tuple_summary : PathSummary (SA × SB) (A × B)
  tuple_summary = record {
    results_in = results_in;
    followed_by = followed_by;
    default = (a.default, b.default);
  }

  -- If both components keep the laws of path summaries, so does the pair.
  pub tuple_summary-IsLawful :
      (va : A → Bool) (vb : B → Bool)
      → IsLawful va a
      → IsLawful vb b
      → IsLawful (λ t. va t.0 && vb t.1) tuple_summary
  unfolding results_in followed_by
  tuple_summary-IsLawful va vb la lb = record {
    default_lem = λ t h. ground (arith, la.default_lem t.0, lb.default_lem t.1);
    followed_by_lem =
        λ s r t. ground (arith, la.followed_by_lem s.0 r.0 t.0, lb.followed_by_lem s.1 r.1 t.1);
  }

-- `impl Refines<TOuter> for (TOuter, TInner)`, with the least inner timestamp.
abbrev pub refines_tuple {ℓ κ μ ν} :
    {A : Type ℓ} {B : Type κ} {SA : Type μ} {SB : Type ν} → B → Refines (A × B) A (SA × SB) SA
refines_tuple minimum = record {
  to_inner = λ t. (t, minimum);
  to_outer = λ t. t.0;
  summarize = λ s. s.0;
}

le_option-outer {ℓ κ} :
    {A : Type ℓ} {B : Type κ} ⦃p : PartialOrder A⦄ (x : Option A) (y : Option B)
    → le_option x ((x >>= λ o. y >>= λ i. some (o, i)) >>= λ (u : A × B). some u.0) ≡ true
le_option-outer none y = refl
le_option-outer (some o) none = refl
le_option-outer ⦃p⦄ (some o) (some i) = p.le_refl o

-- The pairs refine their outer component in the lexicographic order, from any least inner timestamp.
refines_tuple-IsRefinement {ℓ κ μ ν} :
    {A : Type ℓ} {B : Type κ} {SA : Type μ} {SB : Type ν} ⦃e : Eq A⦄ ⦃pa : PartialOrder A⦄
    ⦃pb : PartialOrder B⦄ (a : PathSummary SA A) (b : PathSummary SB B) (minimum : B)
    → ((x : B) → pb.less_equal minimum x ≡ true)
    → IsRefinement ⦃po = pa⦄ ⦃pi = tuple_partial⦄ (tuple_summary a b) a (refines_tuple minimum)
unfolding results_in less_than
refines_tuple-IsRefinement ⦃e⦄ ⦃pa⦄ a b minimum least = record {
  enter = λ t u. ground (arith, least u.1, e.eq_of_equal t u.0, e.equal_refl t, pa.le_refl t);
  summarize_lem = λ s t. le_option-outer (a.results_in s.0 t) (b.results_in s.1 minimum);
}

-- The summaries of pairs of unsigned integers below `m`, at least 2, are not monotone in the
-- lexicographic order, where no result stands above all results: following (0, 1), the time (0, m - 1)
-- has no result, and (1, 0), which is later, leads to (1, 1).
pub tuple_summary-not_IsMonotone :
    (m : ℕ)
    → 2 ≤ m
    → let summary = tuple_summary (add_summary m) (add_summary m) in
      (summary.results_in (0, 1) (0, m - 1) ≡ none)
      × (less_equal {A = ℕ} {B = ℕ} (0, m - 1) (1, 0) ≡ true)
      × (summary.results_in (0, 1) (1, 0) ≡ some (1, 1))
      × (¬ IsMonotone ⦃ps = tuple_partial⦄ ⦃pt = tuple_partial⦄ summary)
unfolding results_in checked_add less_than
tuple_summary-not_IsMonotone m h = (
  ground arith,
  refl,
  ground arith,
  λ k. let drop = k.mono_time (0, 1) (0, m - 1) (1, 0) refl in ground (arith, drop),
)
