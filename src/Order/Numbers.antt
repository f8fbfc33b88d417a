-- ===== src/Order/Numbers.antt =====
-- `implement_partial!` and `implement_total!` of timely/src/order.rs at the unsigned integers, and
-- the unit type.
use timely_dataflow.Prelude.{ℕ, ◌≡◌, true, leb, ◌==◌, arith, compare, Ordering}
use timely_dataflow.Order.{Eq, PartialOrder, Ord, TotalOrder, IsCompatible}

pub nat_equal : (a b : ℕ) → (a == b) ≡ true → a ≡ b
nat_equal a b h = ground arith

pub nat_equal_refl : (a : ℕ) → (a == a) ≡ true
nat_equal_refl a = ground arith

instance abbrev pub nat_eq : Eq ℕ
nat_eq = record { equal = ◌==◌; equal_refl = nat_equal_refl; eq_of_equal = nat_equal }

pub nat_le_refl : (a : ℕ) → leb a a ≡ true
nat_le_refl a = ground arith

pub nat_le_trans : (a b c : ℕ) → leb a b ≡ true → leb b c ≡ true → leb a c ≡ true
nat_le_trans a b c h k = ground arith

pub nat_le_antisymm : (a b : ℕ) → leb a b ≡ true → leb b a ≡ true → a ≡ b
nat_le_antisymm a b h k = ground arith

instance abbrev pub nat_partial : PartialOrder ℕ
nat_partial = record {
  less_equal = leb;
  le_refl = nat_le_refl;
  le_trans = nat_le_trans;
  le_antisymm = nat_le_antisymm;
}

pub nat_cmp_refl : (a : ℕ) → compare a a ≡ Ordering.eq
nat_cmp_refl a = ground arith

pub nat_eq_of_cmp : (a b : ℕ) → compare a b ≡ Ordering.eq → a ≡ b
nat_eq_of_cmp a b h = ground arith

pub nat_lt_of_gt : (a b : ℕ) → compare a b ≡ Ordering.gt → compare b a ≡ Ordering.lt
nat_lt_of_gt a b h = ground arith

pub nat_gt_of_lt : (a b : ℕ) → compare a b ≡ Ordering.lt → compare b a ≡ Ordering.gt
nat_gt_of_lt a b h = ground arith

pub nat_lt_trans :
    (a b c : ℕ) → compare a b ≡ Ordering.lt → compare b c ≡ Ordering.lt → compare a c ≡ Ordering.lt
nat_lt_trans a b c h k = ground arith

instance abbrev pub nat_ord : Ord ℕ
nat_ord = record {
  cmp = compare;
  cmp_refl = nat_cmp_refl;
  eq_of_cmp = nat_eq_of_cmp;
  lt_of_gt = nat_lt_of_gt;
  gt_of_lt = nat_gt_of_lt;
  lt_trans = nat_lt_trans;
}

pub nat_total : TotalOrder nat_partial
nat_total = record { le_total = λ a b. ground arith }

pub nat-IsCompatible : IsCompatible nat_partial nat_ord
nat-IsCompatible = record { not_gt = λ a b h. ground arith }
