-- ===== src/Prelude/Word.antt =====
-- `i64` as its bit pattern below 2 ^ 64, with the wrap-around of a release build, and
-- `u64`/`usize`.
use Prim.Native.Nat.{ℕ, ◌+◌, ◌-◌, ◌%◌, ◌^◌, ◌<◌}
use mathlib.Core.Path.{◌≡◌}
use mathlib.Core.Bool.{Bool, ◌&&◌}
use native.Mathlib.Omega.{arith}
use timely_dataflow.Prelude.Tests.{ltb, leb}

abbrev pub word : ℕ
word = 2 ^ 64

-- The bit pattern of `-n`.
abbrev pub minus : ℕ → ℕ
minus n = (word - n) % word

-- `a + b` on `i64`.
unfoldable pub add_i64 : ℕ → ℕ → ℕ
add_i64 a b = (a + b) % word

-- `x > 0` and `x < 0` on `i64`.
abbrev pub positive : ℕ → Bool
positive x = ltb 0 x && ltb x (2 ^ 63)

abbrev pub negative : ℕ → Bool
negative x = leb (2 ^ 63) x

pub add_i64-lt : (a b : ℕ) → add_i64 a b < word
unfolding add_i64
add_i64-lt a b = omega arith

pub add_i64_comm : (a b : ℕ) → add_i64 a b ≡ add_i64 b a
unfolding add_i64
add_i64_comm a b = omega arith

pub add_i64_assoc : (a b c : ℕ) → add_i64 (add_i64 a b) c ≡ add_i64 a (add_i64 b c)
unfolding add_i64
add_i64_assoc a b c = omega arith

pub add_i64_left_comm : (a b c : ℕ) → add_i64 a (add_i64 b c) ≡ add_i64 b (add_i64 a c)
unfolding add_i64
add_i64_left_comm a b c = omega arith

pub add_i64-zero : (a : ℕ) → a < word → add_i64 a 0 ≡ a
unfolding add_i64
add_i64-zero a h = omega arith

pub zero-add_i64 : (a : ℕ) → a < word → add_i64 0 a ≡ a
unfolding add_i64
zero-add_i64 a h = omega arith

pub ruleset word_laws = (arith, add_i64_comm, add_i64_assoc, add_i64-lt)
