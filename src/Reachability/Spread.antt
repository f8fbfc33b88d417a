-- ===== src/Reachability/Spread.antt =====
-- The loop of step 2 over the changes of one port's implications: the worklist and the pushed changes
-- after it.
use timely_dataflow.Prelude.{
  ℕ, ◌≡◌, refl, sym, ap, ◌∙◌, List, [], ◌∷◌, Option, none, some, add_i64, add_i64-zero,
  add_i64_assoc, All,
}
use timely_dataflow.Order.{Eq, PartialOrder, Ord}
use timely_dataflow.Order.Pair.{pair_eq, pair_ord}
use timely_dataflow.Location.{Location, Target, location_eq, location_ord}
use timely_dataflow.ChangeBatch.{ChangeBatch, Update}
use timely_dataflow.ChangeBatch
use timely_dataflow.ChangeBatch.Count.{count, count-lt, count-append}
use timely_dataflow.ChangeBatch.Invariant.{count-update}
use timely_dataflow.ChangeBatch.Additive.{IsAdditive, sum_by}
use timely_dataflow.MutableAntichain.Loop.{each}
use timely_dataflow.Timestamp.{PathSummary}
use timely_dataflow.Reachability.{Inner, Entry}
use timely_dataflow.Reachability.Propagate.{consequences, push_all, spread}
use timely_dataflow.Reachability.Flow.{there, count-push_all, All-push_all, each_zero, each_plus}

abbrev pub or_nil {ℓ} : {A : Type ℓ} → Option (List A) → List A
or_nil none = []
or_nil (some xs) = xs

module _ {ℓ κ} {T : Type ℓ} {TS : Type κ} ⦃e : Eq T⦄ ⦃p : PartialOrder T⦄ ⦃o : Ord T⦄
    (s : PathSummary TS T) (nodes : List (Inner TS)) (edges : List (List (List Target))) where
  -- How often the difference `d` of the time `t` at `l` comes to `k` in one hop.
  unfoldable pub flow : T × Location → Location → T → ℕ → ℕ
  flow k l t d = count k (each d (or_nil (consequences s nodes edges l t)))

  pub flow-IsAdditive : (k : T × Location) (l : Location) → IsAdditive (flow k l)
  unfolding flow
  flow-IsAdditive k l = record {
    at_zero = λ t. each_zero k (or_nil (consequences s nodes edges l t));
    plus = λ t d x. each_plus k d x (or_nil (consequences s nodes edges l t));
  }

  -- The location is a port of the graph: what it reaches is defined, and all of it is `P`.
  abbrev pub LeadsTo : (Location → Type 0) → Location → Type ℓ
  LeadsTo P l =
      (t : T)
      → (next : List (T × Location)) × (consequences s nodes edges l t ≡ some next)
        × All (λ k. P k.1) next

  -- What the loop leaves of a worklist `us` and the pushed changes `b`.
  pub record IsSpread (P : Location → Type 0) (l : Location) (changes : List (Update T))
      (us : List (Entry T)) (b : ChangeBatch (Location × T))
      (out : List (Entry T) × ChangeBatch (Location × T)) : Type ℓ where
    pub flows :
        (k : T × Location) → count k out.0 ≡ add_i64 (count k us) (sum_by (flow k l) changes)
    pub notes :
        (k : Location × T)
        → count k out.1.updates ≡ add_i64 (count k b.updates) (count k (there l changes))
    pub placed : All (λ (u : Entry T). P u.0.1) us → All (λ (u : Entry T). P u.0.1) out.0

  All-each :
      (P : Location → Type 0) (d : ℕ) (ks : List (T × Location))
      → All (λ k. P k.1) ks
      → All (λ (u : Entry T). P u.0.1) (each d ks)
  All-each P d [] h = tt
  All-each P d (k ∷ ks) h = (h.0, All-each P d ks h.1)

  pub spread_lem :
      (P : Location → Type 0) (l : Location) (changes : List (Update T)) (us : List (Entry T))
      (b : ChangeBatch (Location × T))
      → LeadsTo P l
      → (out : List (Entry T) × ChangeBatch (Location × T)) × (spread s nodes edges l changes us b
          ≡ some out)
        × IsSpread P l changes us b out
  unfolding spread sum_by count flow
  spread_lem P l [] us b h = (
    (us, b),
    refl,
    record {
      flows = λ k. sym (add_i64-zero (count k us) (count-lt k us));
      notes = λ k. sym (add_i64-zero (count k b.updates) (count-lt k b.updates));
      placed = λ r. r;
    },
  )
  spread_lem P l ((time, diff) ∷ rest) us b h =
      let (next, defined, all_in) = h time in
      let (out, runs, rec) =
        spread_lem P l rest (push_all diff next us) (ChangeBatch.update b (l, time) diff) h in
      (
        out,
        rw defined runs,
        record {
          flows = λ k.
              rec.flows k
              ∙ ap (λ c. add_i64 c (sum_by (flow k l) rest)) (count-push_all k diff next us)
              ∙ rw defined
                  (add_i64_assoc (count k us) (count k (each diff next)) (sum_by (flow k l) rest));
          notes = λ k.
              rec.notes k
              ∙ ap (λ c. add_i64 c (count k (there l rest))) (count-update k b (l, time) diff)
              ∙ add_i64_assoc (count k b.updates) (count k (((l, time), diff) ∷ []))
                  (count k (there l rest))
              ∙ ap (add_i64 (count k b.updates))
                  (sym (count-append k (((l, time), diff) ∷ []) (there l rest)));
          placed = λ r.
              rec.placed (All-push_all (λ u. P u.0.1) diff next us (All-each P diff next all_in) r);
        },
      )
