-- ===== src/Order/Pullback.antt =====
-- Equality and order of a type by an injective view of it: what `derive` gives to structs and enums,
-- which compare as the tuple of their tag and fields does.
use timely_dataflow.Prelude.{◌≡◌}
use timely_dataflow.Order.{Eq, Ord}

module _ {ℓ κ} {A : Type ℓ} {B : Type κ} (view : A → B)
    (inj : (x y : A) → view x ≡ view y → x ≡ y) where
  abbrev pub eq_by : ⦃e : Eq B⦄ → Eq A
  eq_by ⦃e⦄ = record {
    equal = λ x y. e.equal (view x) (view y);
    equal_refl = λ x. e.equal_refl (view x);
    eq_of_equal = λ x y h. inj x y (e.eq_of_equal (view x) (view y) h);
  }

  abbrev pub ord_by : ⦃o : Ord B⦄ → Ord A
  ord_by ⦃o⦄ = record {
    cmp = λ x y. o.cmp (view x) (view y);
    cmp_refl = λ x. o.cmp_refl (view x);
    eq_of_cmp = λ x y h. inj x y (o.eq_of_cmp (view x) (view y) h);
    lt_of_gt = λ x y h. o.lt_of_gt (view x) (view y) h;
    gt_of_lt = λ x y h. o.gt_of_lt (view x) (view y) h;
    lt_trans = λ x y z h k. o.lt_trans (view x) (view y) (view z) h k;
  }
