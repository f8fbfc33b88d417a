-- ===== src/Order.antt =====
-- timely/src/order.rs: the traits `PartialOrder` and `TotalOrder`, and what the code takes from the
-- standard traits `PartialEq` and `Ord`.
pub mod Numbers
pub mod Product
pub mod Tuple
pub mod Pullback
pub mod Pair
use timely_dataflow.Prelude.{◌≡◌, ◌≢◌, ◌⊎◌, Bool, true, not, ◌&&◌, Ordering}
use Prim.Native.Nat.Ordering.{lt, eq, gt}

-- `PartialEq`, with `Eq`'s reading of `==` as equality.
pub record Eq {ℓ} (T : Type ℓ) : Type ℓ where
  pub equal : T → T → Bool
  pub equal_refl : (a : T) → equal a a ≡ true
  pub eq_of_equal : (a b : T) → equal a b ≡ true → a ≡ b

-- `PartialOrder::less_equal`, with the laws of a partial order.
pub record PartialOrder {ℓ} (T : Type ℓ) : Type ℓ where
  pub less_equal : T → T → Bool
  pub le_refl : (a : T) → less_equal a a ≡ true
  pub le_trans : (a b c : T) → less_equal a b ≡ true → less_equal b c ≡ true → less_equal a c ≡ true
  pub le_antisymm : (a b : T) → less_equal a b ≡ true → less_equal b a ≡ true → a ≡ b

-- `PartialOrder::less_than`, the trait's default body.
unfoldable pub less_than {ℓ} : {T : Type ℓ} ⦃e : Eq T⦄ ⦃p : PartialOrder T⦄ → T → T → Bool
less_than ⦃e⦄ ⦃p⦄ a b = p.less_equal a b && not (e.equal a b)

-- `std::cmp::Ord`, with the laws of a total order that the trait documents.
pub record Ord {ℓ} (T : Type ℓ) : Type ℓ where
  pub cmp : T → T → Ordering
  pub cmp_refl : (a : T) → cmp a a ≡ eq
  pub eq_of_cmp : (a b : T) → cmp a b ≡ eq → a ≡ b
  pub lt_of_gt : (a b : T) → cmp a b ≡ gt → cmp b a ≡ lt
  pub gt_of_lt : (a b : T) → cmp a b ≡ lt → cmp b a ≡ gt
  pub lt_trans : (a b c : T) → cmp a b ≡ lt → cmp b c ≡ lt → cmp a c ≡ lt

-- The marker trait `TotalOrder`: any two elements are comparable.
pub record TotalOrder {ℓ} {T : Type ℓ} (p : PartialOrder T) : Type ℓ where
  pub le_total : (a b : T) → (p.less_equal a b ≡ true) ⊎ (p.less_equal b a ≡ true)

-- "The implementation of the `Ord` trait only needs to not contradict the `PartialOrder`
-- implementation" (progress/frontier.rs, at `MutableAntichain`).
pub record IsCompatible {ℓ} {T : Type ℓ} (p : PartialOrder T) (o : Ord T) : Type ℓ where
  pub not_gt : (a b : T) → p.less_equal a b ≡ true → o.cmp a b ≢ gt
