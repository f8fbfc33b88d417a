-- ===== src/Prelude/Indexed.antt =====
-- Vectors written at an index, and sums over a vector and its indices.
use Prim.Native.Nat.{ℕ, zero, suc, ◌+◌, ◌<◌}
use mathlib.Core.Path.{◌≡◌, refl, ap, sym, ◌∙◌, subst}
use mathlib.Core.Option.{none, some}
use mathlib.Core.Logic.{◌≢◌, ◌⊎◌, inl, inr}
use mathlib.Core.List.{List, [], ◌∷◌}
use native.Mathlib.Omega.{arith}
use timely_dataflow.Prelude.Lists.{length, get_elem?}
use timely_dataflow.Prelude.Word.{add_i64, add_i64-lt, add_i64_assoc, word}

swap_out :
    (u v r a b : ℕ) → add_i64 u a ≡ add_i64 v b → add_i64 (add_i64 u r) a ≡ add_i64 (add_i64 v r) b
unfolding add_i64
swap_out u v r a b h = omega arith

pub add_zero : (n : ℕ) → n + 0 ≡ n
add_zero n = omega arith

pub zero_add : (i : ℕ) → 0 + i ≡ i
zero_add i = omega arith

pub add_suc : (n i : ℕ) → n + suc i ≡ suc n + i
add_suc n i = omega arith

module _ {ℓ} {A : Type ℓ} where
  -- `v[i] = f(v[i])`; out of range nothing happens, which the code that uses it rules out.
  abbrev pub modify : ℕ → (A → A) → List A → List A
  modify i f [] = []
  modify zero f (x ∷ xs) = f x ∷ xs
  modify (suc i) f (x ∷ xs) = x ∷ modify i f xs

  pub length-modify : (i : ℕ) (f : A → A) (xs : List A) → length (modify i f xs) ≡ length xs
  length-modify i f [] = refl
  length-modify zero f (x ∷ xs) = refl
  length-modify (suc i) f (x ∷ xs) = ap suc (length-modify i f xs)

  pub get_elem?-modify_same :
      (i : ℕ) (f : A → A) (xs : List A) (x : A)
      → get_elem? xs i ≡ some x
      → get_elem? (modify i f xs) i ≡ some (f x)
  get_elem?-modify_same i f [] x h = cc
  get_elem?-modify_same zero f (y ∷ xs) x h =
      ap (λ o. elim o [ some z ↦ some (f z) | none ↦ none ]) h
  get_elem?-modify_same (suc i) f (y ∷ xs) x h = get_elem?-modify_same i f xs x h

  pub get_elem?-modify_other :
      (i j : ℕ) (f : A → A) (xs : List A) → i ≢ j → get_elem? (modify i f xs) j ≡ get_elem? xs j
  get_elem?-modify_other i j f [] h = refl
  get_elem?-modify_other zero zero f (y ∷ xs) h = absurd (h refl)
  get_elem?-modify_other zero (suc j) f (y ∷ xs) h = refl
  get_elem?-modify_other (suc i) zero f (y ∷ xs) h = refl
  get_elem?-modify_other (suc i) (suc j) f (y ∷ xs) h =
      get_elem?-modify_other i j f xs (λ e. h (ap suc e))

  -- The sum of `f i x` over the elements `x`, the first of which has the index `n`.
  abbrev pub sum_from : (ℕ → A → ℕ) → ℕ → List A → ℕ
  sum_from f n [] = 0
  sum_from f n (x ∷ xs) = add_i64 (f n x) (sum_from f (suc n) xs)

  pub sum_from-lt : (f : ℕ → A → ℕ) (n : ℕ) (xs : List A) → sum_from f n xs < word
  sum_from-lt f n [] = omega arith
  sum_from-lt f n (x ∷ xs) = add_i64-lt (f n x) (sum_from f (suc n) xs)

  -- What a write adds to one summand it adds to the sum.
  pub sum_from-modify :
      (g : ℕ → A → ℕ) (n i : ℕ) (f : A → A) (xs : List A) (x : A) (a b : ℕ)
      → get_elem? xs i ≡ some x
      → add_i64 (g (n + i) (f x)) a ≡ add_i64 (g (n + i) x) b
      → add_i64 (sum_from g n (modify i f xs)) a ≡ add_i64 (sum_from g n xs) b
  sum_from-modify g n i f [] x a b h e = cc
  sum_from-modify g n zero f (y ∷ xs) x a b h e =
      let same : y ≡ x = cc in
      swap_out (g n (f y)) (g n y) (sum_from g (suc n) xs) a b (rw (same, sym (add_zero n)) e)
  sum_from-modify g n (suc i) f (y ∷ xs) x a b h e =
      add_i64_assoc (g n y) (sum_from g (suc n) (modify i f xs)) a
      ∙ ap (add_i64 (g n y)) (sum_from-modify g (suc n) i f xs x a b h (rw (sym (add_suc n i)) e))
      ∙ sym (add_i64_assoc (g n y) (sum_from g (suc n) xs) b)

  pub sum_from_zero-modify :
      (g : ℕ → A → ℕ) (i : ℕ) (f : A → A) (xs : List A) (x : A) (a b : ℕ)
      → get_elem? xs i ≡ some x
      → add_i64 (g i (f x)) a ≡ add_i64 (g i x) b
      → add_i64 (sum_from g 0 (modify i f xs)) a ≡ add_i64 (sum_from g 0 xs) b
  sum_from_zero-modify g i f xs x a b h e =
      sum_from-modify g 0 i f xs x a b h
        (subst (λ n. add_i64 (g n (f x)) a ≡ add_i64 (g n x) b) (sym (zero_add i)) e)

  -- What stands at an index after a write stood there before, or is what was written.
  pub modify_before :
      (i j : ℕ) (f : A → A) (xs : List A) (y : A)
      → get_elem? (modify i f xs) j ≡ some y
      → (get_elem? xs j ≡ some y) ⊎ ((x : A) × (get_elem? xs j ≡ some x) × (f x ≡ y) × (i ≡ j))
  modify_before i j f [] y h = cc
  modify_before zero zero f (x ∷ xs) y h = inr (x, refl, cc, refl)
  modify_before zero (suc j) f (x ∷ xs) y h = inl h
  modify_before (suc i) zero f (x ∷ xs) y h = inl h
  modify_before (suc i) (suc j) f (x ∷ xs) y h = elim (modify_before i j f xs y h) [
    | inl kept ↦ inl kept
    | inr (z, at, value, same) ↦ inr (z, at, value, ap suc same)
  ]

  pub modify_after :
      (i j : ℕ) (f : A → A) (xs : List A) (x : A)
      → get_elem? xs j ≡ some x
      → (get_elem? (modify i f xs) j ≡ some x)
        ⊎ ((get_elem? (modify i f xs) j ≡ some (f x)) × (i ≡ j))
  modify_after i j f [] x h = cc
  modify_after zero zero f (y ∷ xs) x h = inr (get_elem?-modify_same 0 f (y ∷ xs) x h, refl)
  modify_after zero (suc j) f (y ∷ xs) x h = inl h
  modify_after (suc i) zero f (y ∷ xs) x h = inl h
  modify_after (suc i) (suc j) f (y ∷ xs) x h = elim (modify_after i j f xs x h) [
    | inl kept ↦ inl kept
    | inr (written, same) ↦ inr (written, ap suc same)
  ]

  pub get_elem?-lt : (xs : List A) (i : ℕ) → i < length xs → (x : A) × (get_elem? xs i ≡ some x)
  get_elem?-lt [] i h = absurd (omega arith)
  get_elem?-lt (x ∷ xs) zero h = (x, refl)
  get_elem?-lt (x ∷ xs) (suc i) h = get_elem?-lt xs i (omega arith)
