-- ===== src/Order/Pair.antt =====
-- `Eq` and `Ord` of std for pairs: lexicographic, as the derived ones of the struct Product.
use timely_dataflow.Prelude.{◌≡◌, ap}
use timely_dataflow.Order.{Eq, Ord}
use timely_dataflow.Order.Product.{Product, product_eq, product_ord}
use timely_dataflow.Order.Pullback.{eq_by, ord_by}

module _ {ℓ κ} {A : Type ℓ} {B : Type κ} where
  abbrev pub as_product : A × B → Product A B
  as_product x = record { outer = x.0; inner = x.1 }

  pub as_product_inj : (x y : A × B) → as_product x ≡ as_product y → x ≡ y
  as_product_inj x y h = ap (λ (p : Product A B). (p.outer, p.inner)) h

module _ {ℓ κ} {A : Type ℓ} {B : Type κ} where
  instance abbrev pub pair_eq : ⦃a : Eq A⦄ ⦃b : Eq B⦄ → Eq (A × B)
  pair_eq = eq_by as_product as_product_inj

  instance abbrev pub pair_ord : ⦃a : Ord A⦄ ⦃b : Ord B⦄ → Ord (A × B)
  pair_ord = ord_by as_product as_product_inj
