-- ===== src/Timestamp/Signed.antt =====
-- `implement_timestamp_add!` at `i64`, where summaries may be negative.
use timely_dataflow.Prelude.{
  zero, ◌<◌, ◌≤◌, ◌⊎◌, inl, inr, refl, ap, arith, ◌==◌, Bool-cases, ℕ, suc, ◌+◌, ◌-◌, ◌^◌, ◌≡◌,
  Bool, Option, none, some, leb, ◌&&◌, if◌then◌else◌,
}
use timely_dataflow.Timestamp.{◌>>=◌}

-- `negsuc n` is -(n + 1).
pub data ℤ : Type 0 where
  pos : ℕ → ℤ
  negsuc : ℕ → ℤ

abbrev pub pos_part : ℤ → ℕ
pos_part (pos n) = n
pos_part (negsuc n) = 0

abbrev pub neg_part : ℤ → ℕ
neg_part (pos n) = 0
neg_part (negsuc n) = suc n

abbrev pub sub_ℕ : ℕ → ℕ → ℤ
sub_ℕ a b = if leb b a then pos (a - b) else negsuc (b - a - 1)

infixl 65 ◌+ℤ◌
abbrev pub ◌+ℤ◌ : ℤ → ℤ → ℤ
a +ℤ b = sub_ℕ (pos_part a + pos_part b) (neg_part a + neg_part b)

-- The values of an `i64`.
abbrev pub fits : ℤ → Bool
fits a = leb (suc (pos_part a)) (2 ^ 63) && leb (neg_part a) (2 ^ 63)

-- `i64::checked_add`.
unfoldable pub checked_add_i64 : ℤ → ℤ → Option ℤ
checked_add_i64 a b = if fits (a +ℤ b) then some (a +ℤ b) else none

-- The values of an `i64`, as bounds.
abbrev pub IsI64 : ℤ → Type 0
IsI64 a = (pos_part a < 2 ^ 63) × (neg_part a ≤ 2 ^ 63)

-- `i64::MIN`.
abbrev pub min : ℤ
min = negsuc (2 ^ 63 - 1)

abbrev pub composed : ℤ → ℤ → ℤ → Option ℤ
composed a b t = checked_add_i64 a b >>= λ c. checked_add_i64 c t

abbrev pub in_turn : ℤ → ℤ → ℤ → Option ℤ
in_turn a b t = checked_add_i64 a t >>= λ u. checked_add_i64 b u

composed-none : (a b t : ℤ) → checked_add_i64 a b ≡ none → composed a b t ≡ none
composed-none a b t h = rw h refl

least_in_turn : (t : ℤ) → IsI64 t → in_turn min min t ≡ none
unfolding checked_add_i64
least_in_turn (pos k) i = ground arith
least_in_turn (negsuc k) i = ground arith

-- For any two `i64` summaries that overflow together there is a timestamp to which their composition
-- has no result, though the two in turn take it to one; unless both are `i64::MIN`, where the two in
-- turn have a result for no timestamp.
pub followed_by_drops :
    (a b : ℤ)
    → IsI64 a
    → IsI64 b
    → checked_add_i64 a b ≡ none
    → ((t : ℤ) × (u : ℤ) × IsI64 t × IsI64 u × (composed a b t ≡ none) × (in_turn a b t ≡ some u))
      ⊎ ((a ≡ min) × (b ≡ min) × ((t : ℤ) → IsI64 t → in_turn a b t ≡ none))
unfolding checked_add_i64
followed_by_drops (pos zero) (pos m) ia ib h = absurd (ground arith)
followed_by_drops (pos (suc n)) (pos m) ia ib h = inl (
  negsuc n,
  pos m,
  ground arith,
  ib,
  composed-none (pos (suc n)) (pos m) (negsuc n) h,
  ground arith,
)
followed_by_drops (pos n) (negsuc m) ia ib h = absurd (ground arith)
followed_by_drops (negsuc n) (pos m) ia ib h = absurd (ground arith)
followed_by_drops (negsuc n) (negsuc m) ia ib h = elim (Bool-cases (n == 2 ^ 63 - 1)) [
  | inr inner ↦ inl (
    pos (suc n),
    negsuc m,
    ground arith,
    ib,
    composed-none (negsuc n) (negsuc m) (pos (suc n)) h,
    ground arith,
  )
  | inl least ↦ elim (Bool-cases (m == 2 ^ 63 - 1)) [
    | inr inner ↦ inl (
      pos (2 ^ 63 - 1),
      negsuc (suc m),
      omega arith,
      ground arith,
      composed-none (negsuc n) (negsuc m) (pos (2 ^ 63 - 1)) h,
      ground arith,
    )
    | inl both ↦
        let at_n : n ≡ 2 ^ 63 - 1 = ground arith in
        let at_m : m ≡ 2 ^ 63 - 1 = ground arith in
        inr (ap negsuc at_n, ap negsuc at_m, λ t i. rw (at_n, at_m) (least_in_turn t i))
  ]
]
