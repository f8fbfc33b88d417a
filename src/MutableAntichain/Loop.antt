-- ===== src/MutableAntichain/Loop.antt =====
-- The loop of `update_iter` and the noting of changes in timely/src/progress/frontier.rs, as sums
-- of counts.
use timely_dataflow.Prelude.{
  ℕ, ◌<◌, ◌≡◌, refl, sym, ◌∙◌, ap, subst, Bool, false, ◌||◌, List, [], ◌∷◌, ◌++◌, map, inl, inr,
  arith, Bool-cases, minus, add_i64, add_i64-lt, add_i64_assoc, add_i64-zero, zero-add_i64, word,
  append-nil, append_assoc,
}
use timely_dataflow.Order.{Eq, PartialOrder, Ord}
use timely_dataflow.ChangeBatch.{ChangeBatch, Update, drain}
use timely_dataflow.ChangeBatch
use timely_dataflow.ChangeBatch.Count.{count, count-lt, count-append, share}
use timely_dataflow.ChangeBatch.Compact.{InRange}
use timely_dataflow.ChangeBatch.Invariant.{
  IsWellFormed, update-IsWellFormed, count-update, update-InRange,
}
use timely_dataflow.MutableAntichain.{MutableAntichain, note_all, may_change, update_loop, sum_for}
use timely_dataflow.MutableAntichain.Rebuild.{IsFrontier}
use timely_dataflow.MutableAntichain.Apply.{Fits, may_change-IsFrontier}

pub sum_for-eq {ℓ} :
    {T : Type ℓ} ⦃e : Eq T⦄ (t : T) (acc : ℕ) (us : List (Update T))
    → acc < word
    → sum_for t acc us ≡ add_i64 acc (count t us)
unfolding sum_for count
sum_for-eq t acc [] h = sym (add_i64-zero acc h)
sum_for-eq ⦃e⦄ t acc ((s, d) ∷ us) h = elim (Bool-cases (e.equal s t)) [
  | inl same ↦
      rw (same, sum_for)
        (sum_for-eq t (add_i64 acc d) us (add_i64-lt acc d) ∙ add_i64_assoc acc d (count t us))
  | inr other ↦
      rw (other, sum_for)
        (sum_for-eq t acc us h ∙ ap (add_i64 acc) (sym (zero-add_i64 (count t us) (count-lt t us))))
]

-- The elements of a frontier as updates by one difference each.
abbrev pub each {ℓ} : {T : Type ℓ} → ℕ → List T → List (Update T)
each d frontier = map (λ t. (t, d)) frontier

module _ {ℓ} {T : Type ℓ} ⦃e : Eq T⦄ ⦃p : PartialOrder T⦄ ⦃o : Ord T⦄ where
  -- The frontier is that of the counts, and all its changes have been handed out.
  pub record IsValid (m : MutableAntichain T) : Type ℓ where
    pub formed : IsWellFormed m.updates
    pub ranged : InRange m.updates.updates
    pub exact : IsFrontier (λ k. count k m.updates.updates) m.frontier
    pub drained : m.changes ≡ ChangeBatch.new

  pub count-note_all :
      (k : T) (b : ChangeBatch T) (d : ℕ) (ts : List T)
      → count k (note_all b d ts).updates ≡ add_i64 (count k b.updates) (count k (each d ts))
  unfolding note_all count
  count-note_all k b d [] = sym (add_i64-zero (count k b.updates) (count-lt k b.updates))
  count-note_all k b d (t ∷ ts) =
      count-note_all k (ChangeBatch.update b t d) d ts
      ∙ rw (count-update k b t d, count) (regroup (share k (t, d)))
    where
      rest : ℕ
      rest = count k (each d ts)

      regroup :
          (x : ℕ)
          → add_i64 (add_i64 (count k b.updates) (add_i64 x 0)) rest
            ≡ add_i64 (count k b.updates) (add_i64 x rest)
      regroup x = unfold add_i64 in omega arith

  pub note_all-IsWellFormed :
      (b : ChangeBatch T) (d : ℕ) (ts : List T) → IsWellFormed b → IsWellFormed (note_all b d ts)
  unfolding note_all
  note_all-IsWellFormed b d [] w = w
  note_all-IsWellFormed b d (t ∷ ts) w =
      note_all-IsWellFormed (ChangeBatch.update b t d) d ts (update-IsWellFormed b t d w)

  pub none_changed :
      (m : MutableAntichain T)
      → m.changes ≡ ChangeBatch.new
      → (k : T) → count k m.changes.updates ≡ 0
  unfolding count ChangeBatch.new
  none_changed m h k = rw h

  -- One retraction and one addition of each element cancel.
  pub count-each_cancel :
      (k : T) (ts : List T) → add_i64 (count k (each (minus 1) ts)) (count k (each 1 ts)) ≡ 0
  unfolding count add_i64
  count-each_cancel k [] = refl
  count-each_cancel k (t ∷ ts) = ground (arith, count-each_cancel k ts)

  -- What the loop leaves: all items are in the batch, and if no rebuild is required the frontier is
  -- still right.
  pub update_loop_lem :
      (frontier : List T) (us : List (Update T)) (b : ChangeBatch T) (required : Bool)
      (items : List (Update T))
      → ((k : T) → count k b.updates ≡ count k us)
      → InRange items
      → Fits us items
      → (required ≡ false → IsFrontier (λ k. count k us) frontier)
      → ((k : T)
          → count k (update_loop frontier b required items).0.updates ≡ count k (us ++ items))
        × ((update_loop frontier b required items).1 ≡ false
            → IsFrontier (λ k. count k (us ++ items)) frontier)
  unfolding update_loop
  update_loop_lem frontier us b required [] same r f i =
      (λ k. rw (append-nil us) (same k), λ h. rw (append-nil us) (i h))
  update_loop_lem frontier us b required ((t, d) ∷ items) same r f i =
      subst
        (λ vs.
          ((k : T)
            → count k (update_loop frontier b required ((t, d) ∷ items)).0.updates ≡ count k vs)
          × ((update_loop frontier b required ((t, d) ∷ items)).1 ≡ false
              → IsFrontier (λ k. count k vs) frontier))
        (append_assoc us ((t, d) ∷ []) items)
        (update_loop_lem frontier (us ++ (t, d) ∷ []) (ChangeBatch.update b t d)
          (required || may_change frontier t d) items
          (λ k.
            count-update k b t d
            ∙ ap (λ c. add_i64 c (count k ((t, d) ∷ []))) (same k)
            ∙ sym (count-append k us ((t, d) ∷ [])))
          r.1 f.1
          (λ h. may_change-IsFrontier us frontier t d r.0 f.0 (ground arith) (i (ground arith))))

  pub update_loop-IsWellFormed :
      (frontier : List T) (b : ChangeBatch T) (required : Bool) (items : List (Update T))
      → IsWellFormed b
      → IsWellFormed (update_loop frontier b required items).0
  unfolding update_loop
  update_loop-IsWellFormed frontier b required [] w = w
  update_loop-IsWellFormed frontier b required ((t, d) ∷ items) w =
      update_loop-IsWellFormed frontier (ChangeBatch.update b t d) _ items
        (update-IsWellFormed b t d w)

  pub update_loop-InRange :
      (frontier : List T) (b : ChangeBatch T) (required : Bool) (items : List (Update T))
      → InRange b.updates
      → InRange items
      → InRange (update_loop frontier b required items).0.updates
  unfolding update_loop
  update_loop-InRange frontier b required [] h r = h
  update_loop-InRange frontier b required ((t, d) ∷ items) h r =
      update_loop-InRange frontier (ChangeBatch.update b t d) _ items (update-InRange b t d h r.0)
        r.1
