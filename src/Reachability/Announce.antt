-- ===== src/Reachability/Announce.antt =====
-- The loop of step 1 over the changes of one port's pointstamps: the total, the outputs and the
-- worklist after it.
use timely_dataflow.Prelude.{
  ℕ, ◌<◌, ◌≡◌, ◌≢◌, refl, sym, ap, ◌∙◌, inl, inr, Bool-cases, arith, List, [], ◌∷◌, ◌++◌,
  if◌then◌else◌, ◌==◌, Option, none, some, get_elem?, length, modify, length-modify,
  get_elem?-modify_same, get_elem?-modify_other, get_elem?-lt, add_i64, add_i64-zero, add_i64_assoc,
  add_i64-lt, word, All,
}
use timely_dataflow.Order.{Eq, PartialOrder, Ord}
use timely_dataflow.Order.Pair.{pair_eq, pair_ord}
use timely_dataflow.Location.{Location, location_eq, location_ord}
use timely_dataflow.Sort.{insert_by, All-insert_by}
use timely_dataflow.Antichain.{Antichain}
use timely_dataflow.ChangeBatch.{ChangeBatch, Update}
use timely_dataflow.ChangeBatch.Count.{count, count-lt, count-append, count-insert_by, share}
use timely_dataflow.ChangeBatch.Additive.{IsAdditive, sum_by}
use timely_dataflow.MutableAntichain.{note_all}
use timely_dataflow.MutableAntichain.Loop.{each, count-note_all}
use timely_dataflow.Timestamp.{PathSummary}
use timely_dataflow.Reachability.{Entry}
use timely_dataflow.Reachability.Propagate.{outcomes, project, announce, by_entry}
use timely_dataflow.Reachability.Flow.{here, each_zero, each_plus}

abbrev updates_of {ℓ} : {T : Type ℓ} → Option (ChangeBatch T) → List (Update T)
updates_of none = []
updates_of (some b) = b.updates

-- The updates that an output has been told of.
abbrev pub emitted {ℓ} : {T : Type ℓ} → List (ChangeBatch T) → ℕ → List (Update T)
emitted outputs o = updates_of (get_elem? outputs o)

each-append {ℓ} : {A : Type ℓ} (d : ℕ) (xs ys : List A) → each d (xs ++ ys) ≡ each d xs ++ each d ys
each-append d [] ys = refl
each-append d (x ∷ xs) ys = ap (◌∷◌ (x, d)) (each-append d xs ys)

-- What is noted at one output counts at that output.
count-noted {ℓ} :
    {T : Type ℓ} ⦃e : Eq T⦄ ⦃p : PartialOrder T⦄ ⦃o : Ord T⦄ (outputs : List (ChangeBatch T))
    (output : ℕ) (batch : ChangeBatch T) (diff : ℕ) (times : List T) (n : ℕ) (u : T)
    → get_elem? outputs output ≡ some batch
    → count u (emitted (modify output (λ _. note_all batch diff times) outputs) n)
      ≡ add_i64 (count u (emitted outputs n)) (if output == n then count u (each diff times) else 0)
count-noted outputs output batch diff times n u found = elim (Bool-cases (output == n)) [
  | inl hit ↦
      let here : n ≡ output = ground arith in
      rw
        (
          hit,
          here,
          get_elem?-modify_same output (λ _. note_all batch diff times) outputs batch found,
          found,
        )
        (count-note_all u batch diff times)
  | inr miss ↦
      let away : output ≢ n = ground arith in
      rw (miss, get_elem?-modify_other output n (λ _. note_all batch diff times) outputs away)
        (sym (add_i64-zero _ (count-lt u (emitted outputs n))))
]

module _ {ℓ κ} {T : Type ℓ} {TS : Type κ} ⦃e : Eq T⦄ ⦃p : PartialOrder T⦄ ⦃o : Ord T⦄
    (s : PathSummary TS T) where
  -- The times that a time of a port may become at the output `n`.
  abbrev pub onto : ℕ → List (ℕ × Antichain TS) → T → List T
  onto n [] time = []
  onto n ((output, summaries) ∷ rest) time =
      let others = onto n rest time in
      if output == n then outcomes s summaries.elements time ++ others else others

  -- How often the difference `d` of the time `t` comes to the time `u` at the output `n`.
  unfoldable pub projection : ℕ → T → List (ℕ × Antichain TS) → T → ℕ → ℕ
  projection n u summaries t d = count u (each d (onto n summaries t))

  pub projection-IsAdditive :
      (n : ℕ) (u : T) (summaries : List (ℕ × Antichain TS)) → IsAdditive (projection n u summaries)
  unfolding projection
  projection-IsAdditive n u summaries = record {
    at_zero = λ t. each_zero u (onto n summaries t);
    plus = λ t d x. each_plus u d x (onto n summaries t);
  }

  -- The summaries end at one of so many outputs.
  abbrev pub Ends : ℕ → List (ℕ × Antichain TS) → Type 0
  Ends n summaries = All (λ (x : ℕ × Antichain TS). x.0 < n) summaries

  projection-cons :
      (n : ℕ) (u : T) (output : ℕ) (summaries : Antichain TS) (rest : List (ℕ × Antichain TS))
      (time : T) (diff c : ℕ)
      → add_i64
          (add_i64 c
            (if output == n then count u (each diff (outcomes s summaries.elements time)) else 0))
          (projection n u rest time diff)
        ≡ add_i64 c (projection n u ((output, summaries) ∷ rest) time diff)
  unfolding projection
  projection-cons n u output summaries rest time diff c = elim (Bool-cases (output == n)) [
    | inl hit ↦
        let times = outcomes s summaries.elements time in
        let others = onto n rest time in
        rw (hit, each-append diff times others, count-append u (each diff times) (each diff others))
          (add_i64_assoc c (count u (each diff times)) (count u (each diff others)))
    | inr miss ↦ rw miss (drop_zero c (count u (each diff (onto n rest time))))
  ]
    where
      drop_zero : (a b : ℕ) → add_i64 (add_i64 a 0) b ≡ add_i64 a b
      drop_zero a b = unfold add_i64 in omega arith

  -- What `project` leaves of the outputs, told of one change of a port's pointstamps.
  abbrev pub Projects : List (ChangeBatch T) → (ℕ → T → ℕ) → List (ChangeBatch T) → Type ℓ
  Projects outputs told outs =
      (length outs ≡ length outputs)
      × ((n : ℕ) (u : T)
          → count u (emitted outs n) ≡ add_i64 (count u (emitted outputs n)) (told n u))

  pub project_lem :
      (outputs : List (ChangeBatch T)) (summaries : List (ℕ × Antichain TS)) (time : T) (diff : ℕ)
      → Ends (length outputs) summaries
      → (outs : List (ChangeBatch T)) × (project s outputs summaries time diff ≡ some outs)
        × Projects outputs (λ n u. projection n u summaries time diff) outs
  unfolding project projection count
  project_lem outputs [] time diff h = (
    outputs,
    refl,
    (
      refl,
      λ n u. sym (add_i64-zero (count u (emitted outputs n)) (count-lt u (emitted outputs n))),
    ),
  )
  project_lem outputs ((output, summaries) ∷ rest) time diff h =
      let (batch, found) = get_elem?-lt outputs output h.0 in
      let times = outcomes s summaries.elements time in
      let outputs' = modify output (λ _. note_all batch diff times) outputs in
      let same_length = length-modify output (λ _. note_all batch diff times) outputs in
      let (outs, runs, (long, counts)) = project_lem outputs' rest time diff (rw same_length h.1) in
      (
        outs,
        rw found runs,
        (
          long ∙ same_length,
          λ n u.
              counts n u
              ∙ ap (λ c. add_i64 c (projection n u rest time diff))
                  (count-noted outputs output batch diff times n u found)
              ∙ projection-cons n u output summaries rest time diff (count u (emitted outputs n)),
        ),
      )

  -- What the loop leaves of the total, the outputs and the worklist.
  pub record IsAnnounced (P : Location → Type 0) (l : Location)
      (summaries : List (ℕ × Antichain TS)) (changes : List (Update T)) (total : ℕ)
      (outputs : List (ChangeBatch T)) (us : List (Entry T))
      (out : ℕ × (List (ChangeBatch T) × List (Entry T))) : Type ℓ where
    pub summed : out.0 ≡ add_i64 total (sum_by (λ t d. d) changes)
    pub projects : Projects outputs (λ n u. sum_by (projection n u summaries) changes) out.1.0
    pub queued :
        (k : T × Location) → count k out.1.1 ≡ add_i64 (count k us) (count k (here l changes))
    pub placed : P l → All (λ (u : Entry T). P u.0.1) us → All (λ (u : Entry T). P u.0.1) out.1.1

  pub announce_lem :
      (P : Location → Type 0) (l : Location) (summaries : List (ℕ × Antichain TS))
      (changes : List (Update T)) (total : ℕ) (outputs : List (ChangeBatch T)) (us : List (Entry T))
      → total < word
      → Ends (length outputs) summaries
      → (out : ℕ × (List (ChangeBatch T) × List (Entry T))) × (announce s l summaries changes total
            outputs us
          ≡ some out)
        × IsAnnounced P l summaries changes total outputs us out
  unfolding announce sum_by count
  announce_lem P l summaries [] total outputs us w h = (
    (total, (outputs, us)),
    refl,
    record {
      summed = sym (add_i64-zero total w);
      projects = (refl, λ n u. sym (add_i64-zero _ (count-lt u (emitted outputs n))));
      queued = λ k. sym (add_i64-zero (count k us) (count-lt k us));
      placed = λ q r. r;
    },
  )
  announce_lem P l summaries ((time, diff) ∷ rest) total outputs us w h =
      let (outs, runs, (long, counts)) = project_lem outputs summaries time diff h in
      let us' = insert_by by_entry ((time, l), diff) us in
      let (out, ends, rec) =
        announce_lem P l summaries rest (add_i64 total diff) outs us' (add_i64-lt total diff)
          (rw long h) in
      (
        out,
        rw runs ends,
        record {
          summed = rec.summed ∙ add_i64_assoc total diff (sum_by (λ t d. d) rest);
          projects = (
            rec.projects.0 ∙ long,
            λ n u.
                rec.projects.1 n u
                ∙ ap (λ c. add_i64 c (sum_by (projection n u summaries) rest)) (counts n u)
                ∙ add_i64_assoc _ (projection n u summaries time diff)
                    (sum_by (projection n u summaries) rest),
          );
          queued = λ k.
              rec.queued k
              ∙ ap (λ c. add_i64 c (count k (here l rest)))
                  (count-insert_by k by_entry ((time, l), diff) us)
              ∙ regroup (share k ((time, l), diff)) (count k us) (count k (here l rest));
          placed =
              λ q r. rec.placed q (All-insert_by by_entry (λ u. P u.0.1) ((time, l), diff) us q r);
        },
      )
    where
      regroup : (a b c : ℕ) → add_i64 (add_i64 a b) c ≡ add_i64 b (add_i64 a c)
      regroup a b c = unfold add_i64 in omega arith
