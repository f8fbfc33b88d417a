-- ===== src/Order/Product.antt =====
-- `Product` of timely/src/order.rs: pairs ordered component by component.
use timely_dataflow.Prelude.{◌≡◌, ◌⊎◌, inl, inr, ◌&&◌, Bool, true, arith, Ordering}
use Prim.Native.Nat.Ordering.{lt, eq, gt}
use timely_dataflow.Order.{Eq, PartialOrder, Ord, TotalOrder, IsCompatible}

pub record Product {ℓ κ} (A : Type ℓ) (B : Type κ) : Type (ℓ ⊔ κ) where
  pub outer : A
  pub inner : B

-- `#[derive(Ord)]` compares field by field.
abbrev pub then : Ordering → Ordering → Ordering
then eq second = second
then first _ = first

module _ {ℓ κ} {A : Type ℓ} {B : Type κ} where
  pub Product-ext : (x y : Product A B) → x.outer ≡ y.outer → x.inner ≡ y.inner → x ≡ y
  Product-ext x y p q = λ i. record { outer = p i; inner = q i }

module _ {ℓ κ} {A : Type ℓ} {B : Type κ} ⦃a : Eq A⦄ ⦃b : Eq B⦄ where
  abbrev pub product_equal : Product A B → Product A B → Bool
  product_equal x y = a.equal x.outer y.outer && b.equal x.inner y.inner

  pub product_equal_refl : (x : Product A B) → product_equal x x ≡ true
  product_equal_refl x = ground (arith, a.equal_refl x.outer, b.equal_refl x.inner)

  pub eq-of-product_equal : (x y : Product A B) → product_equal x y ≡ true → x ≡ y
  eq-of-product_equal x y h =
      Product-ext x y (a.eq_of_equal x.outer y.outer (ground arith))
        (b.eq_of_equal x.inner y.inner (ground arith))

  instance abbrev pub product_eq : Eq (Product A B)
  product_eq = record {
    equal = product_equal;
    equal_refl = product_equal_refl;
    eq_of_equal = eq-of-product_equal;
  }

module _ {ℓ κ} {A : Type ℓ} {B : Type κ} ⦃a : PartialOrder A⦄ ⦃b : PartialOrder B⦄ where
  abbrev pub less_equal : Product A B → Product A B → Bool
  less_equal x y = a.less_equal x.outer y.outer && b.less_equal x.inner y.inner

  pub le_refl : (x : Product A B) → less_equal x x ≡ true
  le_refl x = ground (arith, a.le_refl x.outer, b.le_refl x.inner)

  pub le_trans :
      (x y z : Product A B) → less_equal x y ≡ true → less_equal y z ≡ true → less_equal x z ≡ true
  le_trans x y z h k =
      ground (arith, a.le_trans x.outer y.outer z.outer, b.le_trans x.inner y.inner z.inner)

  pub le_antisymm : (x y : Product A B) → less_equal x y ≡ true → less_equal y x ≡ true → x ≡ y
  le_antisymm x y h k =
      Product-ext x y (a.le_antisymm x.outer y.outer (ground arith) (ground arith))
        (b.le_antisymm x.inner y.inner (ground arith) (ground arith))

  instance abbrev pub product_partial : PartialOrder (Product A B)
  product_partial = record {
    less_equal = less_equal;
    le_refl = le_refl;
    le_trans = le_trans;
    le_antisymm = le_antisymm;
  }

  -- The impl of `TotalOrder` for products: the outer type is `Empty`, it has one element, and the
  -- inner order is total. Then so is the order of the product.
  pub product-TotalOrder :
      ((x y : A) → x ≡ y)
      → TotalOrder b
      → (x y : Product A B) → (less_equal x y ≡ true) ⊎ (less_equal y x ≡ true)
  product-TotalOrder one t x y =
      let same = one x.outer y.outer in
      let refl_x = a.le_refl x.outer in
      elim (t.le_total x.inner y.inner) [ inl h ↦ inl (ground arith) | inr h ↦ inr (ground arith) ]

module _ {ℓ κ} {A : Type ℓ} {B : Type κ} ⦃a : Ord A⦄ ⦃b : Ord B⦄ where
  abbrev pub product_cmp : Product A B → Product A B → Ordering
  product_cmp x y = then (a.cmp x.outer y.outer) (b.cmp x.inner y.inner)

  pub cmp_refl : (x : Product A B) → product_cmp x x ≡ eq
  cmp_refl x = ground (arith, a.cmp_refl x.outer, b.cmp_refl x.inner)

  pub eq_of_cmp : (x y : Product A B) → product_cmp x y ≡ eq → x ≡ y
  eq_of_cmp x y h =
      Product-ext x y (a.eq_of_cmp x.outer y.outer (ground arith))
        (b.eq_of_cmp x.inner y.inner (ground arith))

  pub lt_of_gt : (x y : Product A B) → product_cmp x y ≡ gt → product_cmp y x ≡ lt
  lt_of_gt x y h = ground (
    arith,
    a.eq_of_cmp x.outer y.outer,
    a.cmp_refl x.outer,
    a.lt_of_gt x.outer y.outer,
    b.lt_of_gt x.inner y.inner,
  )

  pub gt_of_lt : (x y : Product A B) → product_cmp x y ≡ lt → product_cmp y x ≡ gt
  gt_of_lt x y h = ground (
    arith,
    a.eq_of_cmp x.outer y.outer,
    a.cmp_refl x.outer,
    a.gt_of_lt x.outer y.outer,
    b.gt_of_lt x.inner y.inner,
  )

  pub lt_trans :
      (x y z : Product A B) → product_cmp x y ≡ lt → product_cmp y z ≡ lt → product_cmp x z ≡ lt
  lt_trans x y z h k = ground (
    arith,
    a.eq_of_cmp x.outer y.outer,
    a.eq_of_cmp y.outer z.outer,
    a.lt_trans x.outer y.outer z.outer,
    b.lt_trans x.inner y.inner z.inner,
  )

  instance abbrev pub product_ord : Ord (Product A B)
  product_ord = record {
    cmp = product_cmp;
    cmp_refl = cmp_refl;
    eq_of_cmp = eq_of_cmp;
    lt_of_gt = lt_of_gt;
    gt_of_lt = gt_of_lt;
    lt_trans = lt_trans;
  }

module _ {ℓ κ} {A : Type ℓ} {B : Type κ} ⦃pa : PartialOrder A⦄ ⦃pb : PartialOrder B⦄ ⦃oa : Ord A⦄
    ⦃ob : Ord B⦄ where
  -- The derived `Ord` of a product does not contradict its `PartialOrder`, if those of the
  -- components do not.
  product-IsCompatible :
      IsCompatible pa oa
      → IsCompatible pb ob
      → IsCompatible (product_partial {A = A} {B = B}) (product_ord {A = A} {B = B})
  product-IsCompatible ca cb = record {
    not_gt = λ x y h. ground (arith, ca.not_gt x.outer y.outer, cb.not_gt x.inner y.inner);
  }
