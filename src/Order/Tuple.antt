-- ===== src/Order/Tuple.antt =====
-- The impls of timely/src/order.rs for pairs `(TOuter, TInner)`: the lexicographic order.
use timely_dataflow.Prelude.{◌≡◌, ◌⊎◌, ◌&&◌, ◌||◌, Bool, true, arith}
use timely_dataflow.Order.{Eq, PartialOrder, TotalOrder, less_than}

module _ {ℓ κ} {A : Type ℓ} {B : Type κ} ⦃e : Eq A⦄ ⦃a : PartialOrder A⦄ ⦃b : PartialOrder B⦄ where
  abbrev pub less_equal : A × B → A × B → Bool
  less_equal x y = less_than x.0 y.0 || e.equal x.0 y.0 && b.less_equal x.1 y.1

  -- The lexicographic relation is a partial order.
  pub le_refl : (x : A × B) → less_equal x x ≡ true
  unfolding less_than
  le_refl x = ground (arith, e.equal_refl x.0, b.le_refl x.1)

  pub le_trans :
      (x y z : A × B) → less_equal x y ≡ true → less_equal y z ≡ true → less_equal x z ≡ true
  unfolding less_than
  le_trans x y z h k = ground (
    arith,
    a.le_trans x.0 y.0 z.0,
    b.le_trans x.1 y.1 z.1,
    a.le_antisymm x.0 y.0,
    e.eq_of_equal x.0 y.0,
    e.eq_of_equal y.0 z.0,
    e.eq_of_equal x.0 z.0,
    e.equal_refl x.0,
    e.equal_refl y.0,
  )

  pub le_antisymm : (x y : A × B) → less_equal x y ≡ true → less_equal y x ≡ true → x ≡ y
  unfolding less_than
  le_antisymm x y h k = ground (
    arith,
    a.le_antisymm x.0 y.0,
    e.eq_of_equal x.0 y.0,
    e.eq_of_equal y.0 x.0,
    e.equal_refl x.0,
    b.le_antisymm x.1 y.1,
  )

  instance abbrev pub tuple_partial : PartialOrder (A × B)
  tuple_partial = record {
    less_equal = less_equal;
    le_refl = le_refl;
    le_trans = le_trans;
    le_antisymm = le_antisymm;
  }

  -- The pairs of two totally ordered types are totally ordered, as their impl of `TotalOrder` says.
  pub tuple-TotalOrder : TotalOrder a → TotalOrder b → TotalOrder tuple_partial
  unfolding less_than
  tuple-TotalOrder ta tb = record { le_total = λ x y. total x y }
    where
      total : (x y : A × B) → (less_equal x y ≡ true) ⊎ (less_equal y x ≡ true)
      total x y = grind (
        arith,
        ta.le_total x.0 y.0,
        tb.le_total x.1 y.1,
        e.eq_of_equal x.0 y.0,
        e.eq_of_equal y.0 x.0,
        e.equal_refl x.0,
      )
