-- ===== src/Timestamp/Product.antt =====
-- The impls of timely/src/order.rs that make products and pairs of timestamps timestamps: a path
-- summary for each component.
use timely_dataflow.Prelude.{◌≡◌, ◌&&◌, Bool, Option, none, some, true, refl, arith}
use timely_dataflow.Order.{PartialOrder}
use timely_dataflow.Order.Product.{Product, product_partial}
use timely_dataflow.Timestamp.{
  ◌>>=◌, PathSummary, IsLawful, IsMonotone, Refines, IsRefinement, le_option,
}

module _ {ℓ κ} {A : Type ℓ} {B : Type κ} where
  -- Both results or none.
  abbrev pub pair_up : Option A → Option B → Option (Product A B)
  pair_up o i = o >>= λ x. i >>= λ y. some (record { outer = x; inner = y })

module _ {ℓ κ μ ν} {A : Type ℓ} {B : Type κ} {SA : Type μ} {SB : Type ν} (a : PathSummary SA A)
    (b : PathSummary SB B) where
  unfoldable pub results_in : Product SA SB → Product A B → Option (Product A B)
  results_in s t = pair_up (a.results_in s.outer t.outer) (b.results_in s.inner t.inner)

  unfoldable pub followed_by : Product SA SB → Product SA SB → Option (Product SA SB)
  followed_by s r = pair_up (a.followed_by s.outer r.outer) (b.followed_by s.inner r.inner)

  abbrev pub product_summary : PathSummary (Product SA SB) (Product A B)
  product_summary = record {
    results_in = results_in;
    followed_by = followed_by;
    default = record { outer = a.default; inner = b.default };
  }

  -- If both components keep the laws of path summaries, so does the product.
  pub product_summary-IsLawful :
      (va : A → Bool) (vb : B → Bool)
      → IsLawful va a
      → IsLawful vb b
      → IsLawful (λ t. va t.outer && vb t.inner) product_summary
  unfolding results_in followed_by
  product_summary-IsLawful va vb la lb = record {
    default_lem = λ t h. ground (arith, la.default_lem t.outer, lb.default_lem t.inner);
    followed_by_lem = λ s r t. ground (
      arith,
      la.followed_by_lem s.outer r.outer t.outer,
      lb.followed_by_lem s.inner r.inner t.inner,
    );
  }

module _ {ℓ κ μ ν} {A : Type ℓ} {B : Type κ} {SA : Type μ} {SB : Type ν} ⦃pa : PartialOrder A⦄
    ⦃pb : PartialOrder B⦄ ⦃qa : PartialOrder SA⦄ ⦃qb : PartialOrder SB⦄ (a : PathSummary SA A)
    (b : PathSummary SB B) where
  -- If both components are monotone, so is the product, in the order of products.
  pub product_summary-IsMonotone : IsMonotone a → IsMonotone b → IsMonotone (product_summary a b)
  unfolding results_in
  product_summary-IsMonotone ma mb = record {
    mono_summary = λ s r t h.
        ground
          (arith, ma.mono_summary s.outer r.outer t.outer, mb.mono_summary s.inner r.inner t.inner);
    mono_time = λ s t u h.
        ground (arith, ma.mono_time s.outer t.outer u.outer, mb.mono_time s.inner t.inner u.inner);
  }

-- `impl Refines<TOuter> for Product<TOuter, TInner>`, with the least inner timestamp.
abbrev pub refines_product {ℓ κ μ ν} :
    {A : Type ℓ} {B : Type κ} {SA : Type μ} {SB : Type ν}
    → B
    → Refines (Product A B) A (Product SA SB) SA
refines_product minimum = record {
  to_inner = λ t. record { outer = t; inner = minimum };
  to_outer = λ t. t.outer;
  summarize = λ s. s.outer;
}

le_option-outer {ℓ κ} :
    {A : Type ℓ} {B : Type κ} ⦃p : PartialOrder A⦄ (x : Option A) (y : Option B)
    → le_option x (pair_up x y >>= λ (u : Product A B). some u.outer) ≡ true
le_option-outer none y = refl
le_option-outer (some o) none = refl
le_option-outer ⦃p⦄ (some o) (some i) = p.le_refl o

pub refines_product-IsRefinement {ℓ κ μ ν} :
    {A : Type ℓ} {B : Type κ} {SA : Type μ} {SB : Type ν} ⦃pa : PartialOrder A⦄
    ⦃pb : PartialOrder B⦄ (a : PathSummary SA A) (b : PathSummary SB B) (minimum : B)
    → ((x : B) → pb.less_equal minimum x ≡ true)
    → IsRefinement ⦃po = pa⦄ ⦃pi = product_partial⦄
        (product_summary a b)
        a
        (refines_product minimum)
unfolding results_in
refines_product-IsRefinement ⦃pa⦄ a b minimum least = record {
  enter = λ t u. ground (arith, least u.inner);
  summarize_lem = λ s t. le_option-outer (a.results_in s.outer t) (b.results_in s.inner minimum);
}
