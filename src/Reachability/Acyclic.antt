-- ===== src/Reachability/Acyclic.antt =====
-- The rounds of the test for cycles, and the locations that remain after each.
use timely_dataflow.Prelude.{
  ℕ, zero, suc, ◌+◌, ◌≤◌, ◌<◌, ◌≡◌, refl, sym, ap, subst, ◌⊎◌, inl, inr, Bool, not, Bool-cases,
  Option-cases, ◌==◌, List, [], ◌∷◌, Option, none, some, length, retain, arith,
}
use timely_dataflow.Order.{Eq}
use timely_dataflow.Location.{Location, location_eq}
use timely_dataflow.Timestamp.{PathSummary, ◌>>=◌}
use timely_dataflow.Reachability.Builder.{
  Builder, Degrees, decrement, find, store, remove, settle, release, reduce, successors, observed,
  roots, reached,
}

length-retain_le {ℓ} : {A : Type ℓ} (p : A → Bool) (xs : List A) → length (retain p xs) ≤ length xs
length-retain_le p [] = omega arith
length-retain_le p (x ∷ xs) = ground (arith, length-retain_le p xs)

-- Writing to a key that is there adds no entry, and removing it takes one off.
length-store :
    (l : Location) (n : ℕ) (degrees : Degrees) (m : ℕ)
    → find l degrees ≡ some m
    → length (store l n degrees) ≡ length degrees
unfolding find store
length-store l n [] m h = cc
length-store l n ((k, v) ∷ rest) m h = elim (Bool-cases (location_eq.equal k l)) [
  | inl hit ↦ rw hit refl
  | inr miss ↦ rw miss (ap suc (length-store l n rest m (rw miss at h)))
]

length-remove :
    (l : Location) (degrees : Degrees) (m : ℕ)
    → find l degrees ≡ some m
    → length (remove l degrees) < length degrees
unfolding find remove
length-remove l [] m h = cc
length-remove l ((k, v) ∷ rest) m h = elim (Bool-cases (location_eq.equal k l)) [
  | inl hit ↦
      rw hit
        (omega (arith, length-retain_le (λ (x : Location × ℕ). not (location_eq.equal x.0 l)) rest))
  | inr miss ↦ rw miss (omega (arith, length-remove l rest m (rw miss at h)))
]

-- The locations that are waiting or left.
abbrev remaining : Degrees → List Location → ℕ
remaining degrees worklist = length degrees + length worklist

-- A panic, or at most so many locations remain.
abbrev Shrinks : ℕ → Option (Degrees × List Location) → Type 0
Shrinks n result =
    (result ≡ none)
    ⊎ ((out : Degrees × List Location) × (result ≡ some out) × (remaining out.0 out.1 ≤ n))

Shrinks-le :
    (m n : ℕ) (result : Option (Degrees × List Location))
    → m ≤ n
    → Shrinks m result
    → Shrinks n result
Shrinks-le m n result h (inl fails) = inl fails
Shrinks-le m n result h (inr (out, runs, le)) = inr (out, runs, omega arith)

settle-remaining :
    (l : Location) (n m : ℕ) (ls : List Location) (degrees : Degrees) (worklist : List Location)
    → find l degrees ≡ some m
    → ((d : Degrees) (w : List Location) → Shrinks (remaining d w) (release ls d w))
    → Shrinks (remaining degrees worklist) (settle l n degrees worklist (release ls))
unfolding settle
settle-remaining l zero m ls degrees worklist found rec =
    Shrinks-le (remaining (remove l degrees) (l ∷ worklist)) _ _
      (omega (arith, length-remove l degrees m found)) (rec (remove l degrees) (l ∷ worklist))
settle-remaining l (suc n) m ls degrees worklist found rec =
    Shrinks-le (remaining (store l (suc n) degrees) worklist) _ _
      (omega (arith, length-store l (suc n) degrees m found))
      (rec (store l (suc n) degrees) worklist)

release-remaining :
    (ls : List Location) (degrees : Degrees) (worklist : List Location)
    → Shrinks (remaining degrees worklist) (release ls degrees worklist)
unfolding release
release-remaining [] degrees worklist = inr ((degrees, worklist), refl, omega arith)
release-remaining (l ∷ ls) degrees worklist = elim (Option-cases (find l degrees)) [
  | inl missing ↦ inl (rw missing refl)
  | inr (n, found) ↦
      subst (Shrinks (remaining degrees worklist))
        (ap (λ o. o >>= λ n. settle l (decrement n) degrees worklist (release ls)) (sym found))
        (settle-remaining l (decrement n) n ls degrees worklist found (release-remaining ls))
]

-- The two parts of the observed locations.
remaining-parts : (degrees : Degrees) → remaining (reached degrees) (roots degrees) ≤ length degrees
unfolding reached roots
remaining-parts [] = omega arith
remaining-parts ((l, n) ∷ degrees) = elim (Bool-cases (n == 0)) [
  | inl root ↦ rw root (omega (arith, remaining-parts degrees))
  | inr inner ↦ rw inner (omega (arith, remaining-parts degrees))
]

module _ {ℓ κ} {T : Type ℓ} {TS : Type κ} ⦃e : Eq TS⦄ (s : PathSummary TS T) where
  -- With as many rounds as locations remain the loop ends, at an empty worklist or a panic.
  reduce-ends :
      (n : ℕ) (b : Builder TS) (degrees : Degrees) (worklist : List Location)
      → remaining degrees worklist ≤ n
      → (reduce s n b degrees worklist ≡ none)
        ⊎ ((left : Degrees) × (reduce s n b degrees worklist ≡ some (left, [])))
  unfolding reduce
  reduce-ends zero b degrees [] h = inr (degrees, refl)
  reduce-ends zero b degrees (l ∷ worklist) h = absurd (omega arith)
  reduce-ends (suc n) b degrees [] h = inr (degrees, refl)
  reduce-ends (suc n) b degrees (l ∷ worklist) h = elim (Option-cases (successors s b l)) [
    | inl missing ↦ inl (rw missing refl)
    | inr (next, found) ↦ elim (release-remaining next degrees worklist) [
      | inl fails ↦ inl (rw (found, fails) refl)
      | inr (out, runs, le) ↦ elim (reduce-ends n b out.0 out.1 (omega arith)) [
        | inl fails ↦ inl (rw (found, runs) fails)
        | inr (left, ends) ↦ inr (left, rw (found, runs) ends)
      ]
    ]
  ]

  -- The loop of `is_acyclic` comes to an end on every graph: with as many rounds as locations are
  -- observed it panics or leaves an empty worklist.
  pub is_acyclic-ends :
      (b : Builder TS)
      → let degrees = observed s b in
        let ending = reduce s (length degrees) b (reached degrees) (roots degrees) in
        (ending ≡ none) ⊎ ((left : Degrees) × (ending ≡ some (left, [])))
  is_acyclic-ends b =
      reduce-ends (length (observed s b)) b (reached (observed s b)) (roots (observed s b))
        (remaining-parts (observed s b))
