-- ===== src/Capability/Balance.antt =====
-- The counts of the change batches beside the capabilities that are held: creation, release,
-- `try_delayed` and `try_downgrade`.
use timely_dataflow.Prelude.{
  ℕ, ◌<◌, ◌≡◌, ◌⊎◌, refl, sym, ap, ◌∙◌, inl, inr, true, false, ◌&&◌, List, [], ◌∷◌, ◌++◌, none,
  some, if◌then◌else◌, ◌==◌, minus, arith, Bool-cases, add_i64, add_i64-lt, add_i64-zero, word,
}
use timely_dataflow.Order.{Eq, PartialOrder, Ord}
use timely_dataflow.ChangeBatch.Count.{count, count-lt}
use timely_dataflow.ChangeBatch.Invariant.{count-update}
use timely_dataflow.Capability.{Capability, Store, note, new, release, try_delayed, try_downgrade}

module _ {ℓ} {T : Type ℓ} ⦃e : Eq T⦄ where
  -- What a difference at a capability adds to the count of `k` in the batch `i`.
  abbrev pub amount : ℕ → T → Capability T → ℕ → ℕ
  amount i k c d = if i == c.internal && e.equal c.time k then d else 0

  -- How many of the capabilities are for the time `k` of the batch `i`.
  abbrev pub held : ℕ → T → List (Capability T) → ℕ
  held i k [] = 0
  held i k (c ∷ cs) = add_i64 (amount i k c 1) (held i k cs)

  -- From one store with one list of capabilities alive to another, every count has changed by as
  -- much as the number of capabilities.
  abbrev pub Conserves : Store T → List (Capability T) → Store T → List (Capability T) → Type ℓ
  Conserves s cs s' cs' =
      (i : ℕ) (k : T)
      → add_i64 (count k (s' i).updates) (held i k cs)
        ≡ add_i64 (count k (s i).updates) (held i k cs')

  held-lt : (i : ℕ) (k : T) (cs : List (Capability T)) → held i k cs < word
  held-lt i k [] = omega arith
  held-lt i k (c ∷ cs) = add_i64-lt (amount i k c 1) (held i k cs)

  pub held-append :
      (i : ℕ) (k : T) (cs ds : List (Capability T))
      → held i k (cs ++ ds) ≡ add_i64 (held i k cs) (held i k ds)
  held-append i k [] ds = unfold add_i64 in omega (arith, held-lt i k ds)
  held-append i k (c ∷ cs) ds =
      ap (add_i64 (amount i k c 1)) (held-append i k cs ds) ∙ unfold add_i64 in omega arith

  -- Two changes in turn.
  pub Conserves-trans :
      (s s' s'' : Store T) (cs cs' cs'' : List (Capability T))
      → Conserves s cs s' cs'
      → Conserves s' cs' s'' cs''
      → Conserves s cs s'' cs''
  unfolding add_i64
  Conserves-trans s s' s'' cs cs' cs'' h k i t = omega (
    arith,
    h i t,
    k i t,
    count-lt t (s i).updates,
    count-lt t (s' i).updates,
    count-lt t (s'' i).updates,
    held-lt i t cs,
    held-lt i t cs',
    held-lt i t cs'',
  )

  -- One capability more, on both sides.
  pub Conserves-cons :
      (s s' : Store T) (c : Capability T) (cs cs' : List (Capability T))
      → Conserves s cs s' cs'
      → Conserves s (c ∷ cs) s' (c ∷ cs')
  unfolding add_i64
  Conserves-cons s s' c cs cs' h i k = omega (arith, h i k)

module _ {ℓ} {T : Type ℓ} ⦃e : Eq T⦄ ⦃o : Ord T⦄ where
  pub count-note :
      (s : Store T) (c : Capability T) (d i : ℕ) (k : T)
      → d < word
      → count k (note s c.internal c.time d i).updates
        ≡ add_i64 (count k (s i).updates) (amount i k c d)
  unfolding note count
  count-note s c d i k h = elim (Bool-cases (i == c.internal)) [
    | inl here ↦
        rw here (
          count-update k (s i) c.time d ∙ ap (add_i64 (count k (s i).updates)) (share_alone c.time))
    | inr other ↦ rw other (sym (add_i64-zero (count k (s i).updates) (count-lt k (s i).updates)))
  ]
    where
      share_alone : (t : T) → count k ((t, d) ∷ []) ≡ (if e.equal t k then d else 0)
      share_alone t = elim (Bool-cases (e.equal t k)) [
        | inl same ↦ rw same (add_i64-zero d h)
        | inr different ↦ rw different (add_i64-zero 0 (omega arith))
      ]

  -- A capability and its release cancel.
  amount-cancel :
      (i : ℕ) (k : T) (c : Capability T) → add_i64 (amount i k c (minus 1)) (amount i k c 1) ≡ 0
  unfolding add_i64
  amount-cancel i k c = elim (Bool-cases (i == c.internal && e.equal c.time k)) [
    | inl same ↦ rw same refl
    | inr different ↦ rw different refl
  ]

  -- A new capability is one more, in its count and alive.
  pub new_correct :
      (s : Store T) (t : T) (j : ℕ) (cs : List (Capability T))
      → let (s', c) = new s t j in Conserves s cs s' (c ∷ cs)
  unfolding new
  new_correct s t j cs i k =
      let c : Capability T = record { time = t; internal = j } in
      rw (count-note s c 1 i k (omega arith))
        (regroup (count k (s i).updates) (amount i k c 1) (held i k cs))
    where
      regroup : (a b d : ℕ) → add_i64 (add_i64 a b) d ≡ add_i64 a (add_i64 b d)
      regroup a b d = unfold add_i64 in omega arith

  -- A dropped capability is one less.
  pub release_correct :
      (s : Store T) (c : Capability T) (cs : List (Capability T))
      → Conserves s (c ∷ cs) (release s c) cs
  unfolding release add_i64
  release_correct s c cs i k = rw (count-note s c (minus 1) i k (omega arith)) (
      regroup (count k (s i).updates) (held i k cs) (amount i k c (minus 1)) (amount i k c 1)
        (amount-cancel i k c))
    where
      regroup : (a d x y : ℕ) → add_i64 x y ≡ 0 → add_i64 (add_i64 a x) (add_i64 y d) ≡ add_i64 a d
      regroup a d x y h = omega arith

module _ {ℓ} {T : Type ℓ} ⦃e : Eq T⦄ ⦃p : PartialOrder T⦄ ⦃o : Ord T⦄ where
  pub Conserves-refl : (s : Store T) (cs : List (Capability T)) → Conserves s cs s cs
  Conserves-refl s cs i k = refl

  -- `try_delayed` succeeds if and only if the new time is at or beyond that of the capability; then
  -- there is one more, at the new time, and the old one still counts.
  pub try_delayed_correct :
      (s : Store T) (c : Capability T) (t : T) (cs : List (Capability T))
      → ((p.less_equal c.time t ≡ false) × (try_delayed s c t ≡ none))
        ⊎ ((p.less_equal c.time t ≡ true)
            × (s' : Store T) × (c' : Capability T) × (try_delayed s c t ≡ some (s', c'))
            × (c'.time ≡ t)
            × Conserves s cs s' (c' ∷ cs))
  unfolding try_delayed new
  try_delayed_correct s c t cs = elim (Bool-cases (p.less_equal c.time t)) [
    | inl le ↦ inr (
      le,
      note s c.internal t 1,
      record { time = t; internal = c.internal },
      rw le refl,
      refl,
      new_correct s t c.internal cs,
    )
    | inr not_le ↦ inl (not_le, rw not_le refl)
  ]

  try_downgrade-some :
      (s : Store T) (c : Capability T) (t : T) (s' : Store T) (c' : Capability T)
      → try_delayed s c t ≡ some (s', c')
      → try_downgrade s c t ≡ (release s' c, c', true)
  unfolding try_downgrade
  try_downgrade-some s c t s' c' h = rw (h, try_downgrade) refl

  try_downgrade-none :
      (s : Store T) (c : Capability T) (t : T)
      → try_delayed s c t ≡ none
      → try_downgrade s c t ≡ (s, c, false)
  unfolding try_downgrade
  try_downgrade-none s c t h = rw (h, try_downgrade) refl

  -- `try_downgrade` of a capability succeeds if and only if the new time is at or beyond the old. Then
  -- it is a capability at the new time for the same batch, and it counts in place of the old one; else
  -- neither the capability nor any batch changes.
  pub try_downgrade_correct :
      (s : Store T) (c : Capability T) (t : T) (cs : List (Capability T))
      → ((p.less_equal c.time t ≡ false) × (try_downgrade s c t ≡ (s, c, false)))
        ⊎ ((p.less_equal c.time t ≡ true)
            × (s' : Store T) × (c' : Capability T) × (try_downgrade s c t ≡ (s', c', true))
            × (c'.time ≡ t)
            × (c'.internal ≡ c.internal)
            × Conserves s (c ∷ cs) s' (c' ∷ cs))
  unfolding try_delayed new
  try_downgrade_correct s c t cs = elim (Bool-cases (p.less_equal c.time t)) [
    | inr not_le ↦ inl (not_le, try_downgrade-none s c t (rw not_le refl))
    | inl le ↦
        let (s', c') = new s t c.internal in
        inr (
          le,
          release s' c,
          c',
          try_downgrade-some s c t s' c' (rw le refl),
          refl,
          refl,
          Conserves-trans s s' (release s' c) (c ∷ cs) (c' ∷ c ∷ cs) (c' ∷ cs)
              (new_correct s t c.internal (c ∷ cs))
              (Conserves-cons s' (release s' c) c' (c ∷ cs) cs (release_correct s' c cs)),
        )
  ]
