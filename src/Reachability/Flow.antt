-- ===== src/Reachability/Flow.antt =====
-- What the loops of `propagate_all` put on the worklist, counted by time and location.
use timely_dataflow.Prelude.{
  ℕ, ◌<◌, ◌≡◌, refl, sym, ap, ◌∙◌, inl, inr, Bool-cases, if◌then◌else◌, arith, List, [], ◌∷◌, map,
  add_i64, add_i64-zero, add_i64_assoc, word, All,
}
use timely_dataflow.Order.{Eq, Ord}
use timely_dataflow.Order.Pair.{pair_eq, pair_ord}
use timely_dataflow.Location.{Location, location_eq, location_ord}
use timely_dataflow.Sort.{insert_by, All-insert_by}
use timely_dataflow.ChangeBatch.{Update}
use timely_dataflow.ChangeBatch.Count.{count, count-lt, count-insert_by, share}
use timely_dataflow.ChangeBatch.Additive.{exchange}
use timely_dataflow.MutableAntichain.Loop.{each}
use timely_dataflow.Reachability.{Entry}
use timely_dataflow.Reachability.Propagate.{push_all, accumulate, by_entry}

module _ {ℓ} {K : Type ℓ} ⦃e : Eq K⦄ where
  pub each_zero : (k : K) (ks : List K) → count k (each 0 ks) ≡ 0
  unfolding count
  each_zero k [] = refl
  each_zero k (j ∷ ks) = rw (each_zero k ks) (elim (Bool-cases (e.equal j k)) [
    | inl same ↦ rw same (add_i64-zero 0 (omega arith))
    | inr other ↦ rw other (add_i64-zero 0 (omega arith))
  ])

  pub each_plus :
      (k : K) (d x : ℕ) (ks : List K)
      → count k (each (add_i64 d x) ks) ≡ add_i64 (count k (each d ks)) (count k (each x ks))
  unfolding count
  each_plus k d x [] = sym (add_i64-zero 0 (omega arith))
  each_plus k d x (j ∷ ks) = rw (each_plus k d x ks) (elim (Bool-cases (e.equal j k)) [
    | inl same ↦ rw same (exchange d x (count k (each d ks)) (count k (each x ks)))
    | inr other ↦ rw other (regroup (count k (each d ks)) (count k (each x ks)))
  ])
    where
      regroup : (a b : ℕ) → add_i64 0 (add_i64 a b) ≡ add_i64 (add_i64 0 a) (add_i64 0 b)
      regroup a b = unfold add_i64 in omega arith

-- The updates of one location as updates of pairs.
abbrev pub here {ℓ} : {T : Type ℓ} → Location → List (Update T) → List (Entry T)
here l us = map (λ u. ((u.0, l), u.1)) us

-- The same with the location first, as `pushed_changes` has them.
abbrev pub there {ℓ} : {T : Type ℓ} → Location → List (Update T) → List (Update (Location × T))
there l us = map (λ u. ((l, u.0), u.1)) us

module _ {ℓ} {T : Type ℓ} ⦃e : Eq T⦄ ⦃o : Ord T⦄ where
  pub count-push_all :
      (k : T × Location) (d : ℕ) (ks : List (T × Location)) (us : List (Entry T))
      → count k (push_all d ks us) ≡ add_i64 (count k us) (count k (each d ks))
  unfolding push_all count
  count-push_all k d [] us = sym (add_i64-zero (count k us) (count-lt k us))
  count-push_all k d (j ∷ ks) us =
      count-push_all k d ks (insert_by by_entry (j, d) us)
      ∙ ap (λ c. add_i64 c (count k (each d ks))) (count-insert_by k by_entry (j, d) us)
      ∙ regroup (share k (j, d)) (count k us) (count k (each d ks))
    where
      regroup : (a b c : ℕ) → add_i64 (add_i64 a b) c ≡ add_i64 b (add_i64 a c)
      regroup a b c = unfold add_i64 in omega arith

  pub All-push_all {κ} :
      (P : Entry T → Type κ) (d : ℕ) (ks : List (T × Location)) (us : List (Entry T))
      → All P (each d ks)
      → All P us
      → All P (push_all d ks us)
  unfolding push_all
  All-push_all P d [] us h r = r
  All-push_all P d (k ∷ ks) us h r =
      All-push_all P d ks (insert_by by_entry (k, d) us) h.1
        (All-insert_by by_entry P (k, d) us h.0 r)

  -- What is accumulated counts as its parts do.
  pub count-accumulate :
      (k j : T × Location) (d : ℕ) (us : List (Entry T))
      → let (diff, rest) = accumulate j d us in
        add_i64 (share k (j, diff)) (count k rest) ≡ add_i64 (share k (j, d)) (count k us)
  unfolding accumulate count
  count-accumulate k j d [] = refl
  count-accumulate k j d ((i, x) ∷ us) = elim (Bool-cases (pair_eq.equal i j)) [
    | inl same ↦ rw same (
        count-accumulate k j (add_i64 d x) us
        ∙ rw (pair_eq.eq_of_equal i j same) (elim (Bool-cases (pair_eq.equal j k)) [
          | inl hit ↦ rw hit (add_i64_assoc d x (count k us))
          | inr miss ↦ rw miss (regroup (count k us) (count-lt k us))
        ]))
    | inr other ↦ rw other refl
  ]
    where
      regroup : (c : ℕ) → c < word → add_i64 0 c ≡ add_i64 0 (add_i64 0 c)
      regroup c h = unfold add_i64 in omega arith

  pub accumulate-All {κ} :
      (P : Entry T → Type κ) (j : T × Location) (d : ℕ) (us : List (Entry T))
      → All P us
      → All P (accumulate j d us).1
  unfolding accumulate
  accumulate-All P j d [] h = tt
  accumulate-All P j d ((i, x) ∷ us) h = elim (Bool-cases (pair_eq.equal i j)) [
    | inl same ↦ rw same (accumulate-All P j (add_i64 d x) us h.1)
    | inr other ↦ rw other h
  ]

module _ {ℓ} {T : Type ℓ} ⦃e : Eq T⦄ where
  -- The updates of one location count where they are.
  pub count-here :
      (t : T) (m l : Location) (us : List (Update T))
      → count (t, m) (here l us) ≡ (if location_eq.equal l m then count t us else 0)
  unfolding count add_i64
  count-here t m l [] = ground arith
  count-here t m l ((u, d) ∷ us) = rw (count-here t m l us) (cases u d)
    where
      cases :
          (u : T) (d : ℕ)
          → add_i64
              (share {T = T × Location} (t, m) ((u, l), d))
              (if location_eq.equal l m then count t us else 0)
            ≡ (if location_eq.equal l m then add_i64 (share {T = T} t (u, d)) (count t us) else 0)
      cases u d = elim (Bool-cases (location_eq.equal l m)) [
        | inl same ↦ elim (Bool-cases (e.equal u t)) [
          | inl hit ↦ rw (same, hit) refl
          | inr miss ↦ rw (same, miss) refl
        ]
        | inr other ↦ elim (Bool-cases (e.equal u t)) [
          | inl hit ↦ rw (other, hit) refl
          | inr miss ↦ rw (other, miss) refl
        ]
      ]

  -- What adds up at every time adds up at every place and time.
  pub lead-here :
      (k : T × Location) (l : Location) (us vs ws : List (Update T))
      → ((t : T) → add_i64 (count t us) (count t vs) ≡ count t ws)
      → add_i64 (count k (here l us)) (count k (here l vs)) ≡ count k (here l ws)
  lead-here k l us vs ws h =
      rw (count-here k.0 k.1 l us, count-here k.0 k.1 l vs, count-here k.0 k.1 l ws)
        (elim (Bool-cases (location_eq.equal l k.1)) [
          | inl same ↦ rw same (h k.0)
          | inr other ↦ rw other (add_i64-zero 0 (omega arith))
        ])

  count-there :
      (t : T) (m l : Location) (us : List (Update T))
      → count (m, t) (there l us) ≡ count (t, m) (here l us)
  unfolding count
  count-there t m l [] = refl
  count-there t m l ((u, d) ∷ us) = rw (count-there t m l us) (cases u d)
    where
      cases :
          (u : T) (d : ℕ)
          → add_i64 (share {T = Location × T} (m, t) ((l, u), d)) (count (t, m) (here l us))
            ≡ add_i64 (share {T = T × Location} (t, m) ((u, l), d)) (count (t, m) (here l us))
      cases u d = elim (Bool-cases (location_eq.equal l m)) [
        | inl same ↦ elim (Bool-cases (e.equal u t)) [
          | inl hit ↦ rw (same, hit) refl
          | inr miss ↦ rw (same, miss) refl
        ]
        | inr other ↦ elim (Bool-cases (e.equal u t)) [
          | inl hit ↦ rw (other, hit) refl
          | inr miss ↦ rw (other, miss) refl
        ]
      ]

  pub lead-there :
      (k : Location × T) (l : Location) (us vs ws : List (Update T))
      → ((t : T) → add_i64 (count t us) (count t vs) ≡ count t ws)
      → add_i64 (count k (there l us)) (count k (there l vs)) ≡ count k (there l ws)
  lead-there k l us vs ws h =
      rw (count-there k.1 k.0 l us, count-there k.1 k.0 l vs, count-there k.1 k.0 l ws)
        (lead-here (k.1, k.0) l us vs ws h)
