-- ===== src/Timestamp.antt =====
-- timely/src/progress/timestamp.rs: timestamps, path summaries and refinements, and their impls for
-- the integers; with those of timely/src/order.rs for products and pairs below.
pub mod Product
pub mod Tuple
pub mod Signed
use timely_dataflow.Prelude.{
  ℕ, ◌+◌, ◌<◌, ◌≡◌, refl, Bool, true, false, Option, none, some, Option-cases, arith, ltb, leb, inl,
  inr, if◌then◌else◌,
}
use timely_dataflow.Order.{PartialOrder}
use timely_dataflow.Order.Numbers.{nat_partial}

-- `Option::and_then`.
infixl 5 ◌>>=◌
abbrev pub ◌>>=◌ {ℓ κ} : {A : Type ℓ} {B : Type κ} → Option A → (A → Option B) → Option B
none >>= f = none
some a >>= f = f a

-- Overflow stands above every timestamp.
abbrev pub le_option {ℓ} : {T : Type ℓ} ⦃p : PartialOrder T⦄ → Option T → Option T → Bool
le_option a none = true
le_option none (some b) = false
le_option ⦃p⦄ (some a) (some b) = p.less_equal a b

-- The trait `PathSummary<T>`: the operations.
pub record PathSummary {ℓ κ} (S : Type κ) (T : Type ℓ) : Type (ℓ ⊔ κ) where
  pub results_in : S → T → Option T
  pub followed_by : S → S → Option S
  pub default : S

-- What the documentation of the trait asks of them, at the timestamps `t` with `valid t`.
pub record IsLawful {ℓ κ} {S : Type κ} {T : Type ℓ} (valid : T → Bool) (s : PathSummary S T)
    : Type (ℓ ⊔ κ) where
  pub default_lem : (t : T) → valid t ≡ true → s.results_in s.default t ≡ some t
  pub followed_by_lem :
      (a b : S) (t : T)
      → (s.followed_by a b >>= λ c. s.results_in c t) ≡ (s.results_in a t >>= s.results_in b)

-- "This function must be monotonic increasing in both inputs."
pub record IsMonotone {ℓ κ} {S : Type κ} {T : Type ℓ} ⦃ps : PartialOrder S⦄ ⦃pt : PartialOrder T⦄
    (s : PathSummary S T) : Type (ℓ ⊔ κ) where
  pub mono_summary :
      (a b : S) (t : T)
      → ps.less_equal a b ≡ true
      → le_option (s.results_in a t) (s.results_in b t) ≡ true
  pub mono_time :
      (a : S) (t u : T)
      → pt.less_equal t u ≡ true
      → le_option (s.results_in a t) (s.results_in a u) ≡ true

-- `checked_add` on an unsigned integer with values below `m`.
unfoldable pub checked_add : ℕ → ℕ → ℕ → Option ℕ
checked_add m a b = if ltb (a + b) m then some (a + b) else none

-- `implement_timestamp_add!` at an unsigned integer type with values below `m`.
abbrev pub add_summary : ℕ → PathSummary ℕ ℕ
add_summary m = record {
  results_in = λ s t. checked_add m s t;
  followed_by = λ a b. checked_add m a b;
  default = 0;
}

pub checked_add-followed_by :
    (m a b t : ℕ)
    → (checked_add m a b >>= λ c. checked_add m c t)
      ≡ (checked_add m a t >>= λ u. checked_add m b u)
unfolding checked_add
checked_add-followed_by m a b t = ground arith

pub checked_add-default : (m t : ℕ) → t < m → checked_add m 0 t ≡ some t
unfolding checked_add
checked_add-default m t h = ground arith

-- The addition of unsigned integers below `m` keeps the laws of path summaries: the default changes
-- no timestamp, and following a composition is following its parts in turn, also where one of the
-- additions overflows.
pub add_summary-IsLawful : (m : ℕ) → IsLawful (λ t. ltb t m) (add_summary m)
unfolding checked_add
add_summary-IsLawful m = record {
  default_lem = λ t h. checked_add-default m t (ground arith);
  followed_by_lem = λ a b t. checked_add-followed_by m a b t;
}

-- Unsigned addition is monotone in both arguments, with overflow as the largest result.
pub add_summary-IsMonotone : (m : ℕ) → IsMonotone (add_summary m)
unfolding checked_add
add_summary-IsMonotone m = record {
  mono_summary = λ a b t h. ground arith;
  mono_time = λ a t u h. ground arith;
}

-- The trait `Refines<T>`: an inner timestamp refines an outer one.
pub record Refines {ℓ κ μ ν} (I : Type ℓ) (O : Type κ) (SI : Type μ) (SO : Type ν)
    : Type (ℓ ⊔ κ ⊔ μ ⊔ ν) where
  pub to_inner : O → I
  pub to_outer : I → O
  pub summarize : SI → SO

-- What a nested scope relies on: a time of the scope is at or beyond an entered one exactly where
-- its outer part is at or beyond the one that entered; and, as the trait asks, a summarized path takes
-- a timestamp at most as far as entering, following the path and leaving does.
pub record IsRefinement {ℓ κ μ ν} {I : Type ℓ} {O : Type κ} {SI : Type μ} {SO : Type ν}
    ⦃po : PartialOrder O⦄ ⦃pi : PartialOrder I⦄ (si : PathSummary SI I) (so : PathSummary SO O)
    (r : Refines I O SI SO) : Type (ℓ ⊔ κ ⊔ μ ⊔ ν) where
  pub enter : (t : O) (u : I) → pi.less_equal (r.to_inner t) u ≡ po.less_equal t (r.to_outer u)
  pub summarize_lem :
      (s : SI) (t : O)
      → le_option
          (so.results_in (r.summarize s) t)
          (si.results_in s (r.to_inner t) >>= λ u. some (r.to_outer u))
        ≡ true

-- Every timestamp refines itself.
abbrev pub refines_self {ℓ κ} : {T : Type ℓ} {S : Type κ} → Refines T T S S
refines_self = record { to_inner = λ t. t; to_outer = λ t. t; summarize = λ s. s }

-- `impl PathSummary<()> for ()`.
abbrev pub unit_summary {ℓ} : PathSummary (Unit {ℓ}) (Unit {ℓ})
unit_summary = record { results_in = λ s t. some tt; followed_by = λ a b. some tt; default = tt }
