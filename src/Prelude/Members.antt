-- ===== src/Prelude/Members.antt =====
-- Membership, and lists without repetition.
use Prim.Native.Nat.{◌≤◌}
use mathlib.Core.Path.{◌≡◌, refl, sym, subst, ap}
use mathlib.Core.Logic.{◌⊎◌, inl, inr}
use mathlib.Core.Bool.{Bool, true}
use mathlib.Core.List.{List, [], ◌∷◌, ◌++◌}
use mathlib.Core.List.Memᴰ
use mathlib.Core.List.{Memᴰ}
use native.Mathlib.Omega.{arith}
use timely_dataflow.Prelude.Tests.{Bool-cases}
use timely_dataflow.Prelude.Lists.{length, length-append, any, all, retain, All}

module _ {ℓ} {A : Type ℓ} where
  pub any-of-mem : (p : A → Bool) {x : A} (xs : List A) → Memᴰ x xs → p x ≡ true → any p xs ≡ true
  any-of-mem p [] m h = elim m [ ]
  any-of-mem p (y ∷ xs) (Memᴰ.head e) h = let h' : p y ≡ true = rw (← e) h in ground arith
  any-of-mem p (y ∷ xs) (Memᴰ.tail m) h = ground (arith, any-of-mem p xs m h)

  pub mem-of-any :
      (p : A → Bool) (xs : List A) → any p xs ≡ true → (x : A) × Memᴰ x xs × (p x ≡ true)
  mem-of-any p [] h = cc
  mem-of-any p (x ∷ xs) h = elim (Bool-cases (p x)) [
    | inl here ↦ (x, Memᴰ.head refl, here)
    | inr there ↦ let (y, m, k) = mem-of-any p xs (ground arith) in (y, Memᴰ.tail m, k)
  ]

  pub all-of-mem :
      (p : A → Bool) (xs : List A) → ((x : A) → Memᴰ x xs → p x ≡ true) → all p xs ≡ true
  all-of-mem p [] h = refl
  all-of-mem p (x ∷ xs) h = rw (h x (Memᴰ.head refl)) (all-of-mem p xs (λ y m. h y (Memᴰ.tail m)))

  pub mem-of-all : (p : A → Bool) {x : A} (xs : List A) → all p xs ≡ true → Memᴰ x xs → p x ≡ true
  mem-of-all p [] h m = elim m [ ]
  mem-of-all p (y ∷ xs) h (Memᴰ.head e) = rw e (ground arith)
  mem-of-all p (y ∷ xs) h (Memᴰ.tail m) = mem-of-all p xs (ground arith) m

  pub mem-of-All {κ} : (P : A → Type κ) {x : A} (xs : List A) → All P xs → Memᴰ x xs → P x
  mem-of-All P [] h m = elim m [ ]
  mem-of-All P (y ∷ xs) h (Memᴰ.head e) = subst P (sym e) h.0
  mem-of-All P (y ∷ xs) h (Memᴰ.tail m) = mem-of-All P xs h.1 m

  pub All-of-mem {κ} : (P : A → Type κ) (xs : List A) → ((x : A) → Memᴰ x xs → P x) → All P xs
  All-of-mem P [] h = tt
  All-of-mem P (x ∷ xs) h = (h x (Memᴰ.head refl), All-of-mem P xs (λ y m. h y (Memᴰ.tail m)))

  pub mem-retain :
      (p : A → Bool) {x : A} (xs : List A) → Memᴰ x (retain p xs) → Memᴰ x xs × (p x ≡ true)
  mem-retain p [] m = absurd (Memᴰ.not-nil m)
  mem-retain p {x = x} (y ∷ xs) m = elim (Bool-cases (p y)) [
    | inl keep ↦
        let m' : Memᴰ x (y ∷ retain p xs) = rw keep at m in
        elim (Memᴰ.cases_cons m') [
          | inl e ↦ (Memᴰ.head e, rw e keep)
          | inr n ↦ let (n', h) = mem-retain p xs n in (Memᴰ.tail n', h)
        ]
    | inr drop ↦
        let m' : Memᴰ x (retain p xs) = rw drop at m in
        let (n, h) = mem-retain p xs m' in (Memᴰ.tail n, h)
  ]

  abbrev pub Subset : List A → List A → Type ℓ
  Subset xs ys = (x : A) → Memᴰ x xs → Memᴰ x ys

  abbrev pub IsDistinct : List A → Type ℓ
  IsDistinct [] = Unit
  IsDistinct (x ∷ xs) = (Memᴰ x xs → ⊥) × IsDistinct xs

  -- The list around one of its elements.
  mem-split :
      {x : A} (ys : List A) → Memᴰ x ys → (ls : List A) × (rs : List A) × (ys ≡ ls ++ x ∷ rs)
  mem-split [] m = elim m [ ]
  mem-split (y ∷ ys) (Memᴰ.head e) = ([], ys, ap (λ z. z ∷ ys) (sym e))
  mem-split (y ∷ ys) (Memᴰ.tail m) = let (ls, rs, e) = mem-split ys m in (y ∷ ls, rs, ap (◌∷◌ y) e)

  -- An element of the list is the middle one or stands beside it.
  mem-middle : {x y : A} (ls rs : List A) → Memᴰ y (ls ++ x ∷ rs) → (y ≡ x) ⊎ Memᴰ y (ls ++ rs)
  mem-middle ls rs m = elim (Memᴰ.append_cases ls m) [
    | inl before ↦ inr (Memᴰ.append_left rs before)
    | inr after ↦ elim (Memᴰ.cases_cons after) [
      | inl e ↦ inl e
      | inr later ↦ inr (Memᴰ.append_right ls later)
    ]
  ]

  -- What is left of a subset with its head taken off on both sides.
  Subset-middle :
      (x : A) (xs ls rs : List A)
      → (Memᴰ x xs → ⊥)
      → Subset (x ∷ xs) (ls ++ x ∷ rs)
      → Subset xs (ls ++ rs)
  Subset-middle x xs ls rs fresh s y m = elim (mem-middle ls rs (s y (Memᴰ.tail m))) [
    | inl e ↦ absurd (fresh (subst (λ z. Memᴰ z xs) e m))
    | inr n ↦ n
  ]

  -- Distinct elements of a list are no more than it has places.
  pub length-Subset : (xs ys : List A) → IsDistinct xs → Subset xs ys → length xs ≤ length ys
  length-Subset [] ys d s = omega arith
  length-Subset (x ∷ xs) ys d s =
      let (ls, rs, e) = mem-split ys (s x (Memᴰ.head refl)) in
      let s' = Subset-middle x xs ls rs d.0 (subst (Subset (x ∷ xs)) e s) in
      omega (
        arith,
        length-Subset xs (ls ++ rs) d.1 s',
        length-append ls rs,
        ap length e,
        length-append ls (x ∷ rs),
      )

  -- If they are as many, they are all of them.
  pub Subset-full :
      (xs ys : List A) → IsDistinct xs → Subset xs ys → length ys ≤ length xs → Subset ys xs
  Subset-full [] [] d s h y m = m
  Subset-full [] (z ∷ ys) d s h y m = absurd (omega arith)
  Subset-full (x ∷ xs) ys d s h y m =
      let (ls, rs, e) = mem-split ys (s x (Memᴰ.head refl)) in
      let s' = Subset-middle x xs ls rs d.0 (subst (Subset (x ∷ xs)) e s) in
      let short : length (ls ++ rs) ≤ length xs =
        omega (arith, length-append ls rs, ap length e, length-append ls (x ∷ rs)) in
      elim (mem-middle ls rs (subst (Memᴰ y) e m)) [
        | inl same ↦ Memᴰ.head same
        | inr other ↦ Memᴰ.tail (Subset-full xs (ls ++ rs) d.1 s' short y other)
      ]
