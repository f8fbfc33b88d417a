-- ===== src/Reachability/Propagate.antt =====
-- `propagate_all` of timely/src/progress/reachability.rs: the drained changes of each port reach its
-- pointstamps, and the changes of frontiers circulate through the graph.
use timely_dataflow.Prelude.{
  ℕ, zero, suc, ◌+◌, ◌%◌, ◌^◌, word, compare, Ordering, ◌==◌, if◌then◌else◌, List, [], ◌∷◌, ◌++◌,
  map, Option, none, some, get_elem?, modify, add_i64,
}
use timely_dataflow.Order.{Eq, PartialOrder, Ord}
use timely_dataflow.Order.Product.{then as chain}
use timely_dataflow.Order.Pair.{pair_eq, pair_ord}
use timely_dataflow.Location.{
  Location, Target, new_source, from_target, from_source, target_eq, target_ord, source_eq,
  source_ord, location_eq, location_ord,
}
use timely_dataflow.Location.Port.{target, source}
use timely_dataflow.Sort.{insert_by}
use timely_dataflow.Antichain.{Antichain}
use timely_dataflow.ChangeBatch.{ChangeBatch, Update}
use timely_dataflow.ChangeBatch
use timely_dataflow.MutableAntichain.{update_iter, note_all}
use timely_dataflow.Timestamp.{PathSummary, ◌>>=◌}
use timely_dataflow.Reachability.{Inner, PortInformation, PerOperator, Entry, Tracker, port_at}

module _ {ℓ κ} {T : Type ℓ} {TS : Type κ} where
  -- The write to a port: `per_operator[l.node].targets[port] = info`, or `.sources[port]`.
  unfoldable pub put_port :
      Location → PortInformation T TS → List (PerOperator T TS) → List (PerOperator T TS)
  put_port l info ops = elim l.port [
    | target i ↦ modify l.node (λ op. record op { targets = modify i (λ _. info) op.targets }) ops
    | source i ↦ modify l.node (λ op. record op { sources = modify i (λ _. info) op.sources }) ops
  ]

module _ {ℓ} {T : Type ℓ} where
  -- `peeking_take_while` from the front: the updates, the neighbours of one key together.
  unfoldable pub join :
      {K : Type 0}
      → ⦃e : Eq K⦄ → K
      → Update T
      → List (K × List (Update T))
      → List (K × List (Update T))
  join ⦃e⦄ k u [] = (k, u ∷ []) ∷ []
  join ⦃e⦄ k u ((j, us) ∷ rest) =
      if e.equal j k then (k, u ∷ us) ∷ rest else (k, u ∷ []) ∷ (j, us) ∷ rest

  unfoldable pub groups :
      {K : Type 0} → ⦃e : Eq K⦄ → List (Update (K × T)) → List (K × List (Update T))
  unfolding join
  groups [] = []
  groups (((k, time), diff) ∷ rest) = join k (time, diff) (groups rest)

-- The order of `i64`.
abbrev pub cmp_i64 : ℕ → ℕ → Ordering
cmp_i64 a b = compare ((a + 2 ^ 63) % word) ((b + 2 ^ 63) % word)

-- The order of `(T, Location, i64)`.
abbrev pub by_entry {ℓ} : {T : Type ℓ} ⦃o : Ord T⦄ → Entry T → Entry T → Ordering
by_entry ⦃o⦄ x y = chain (pair_ord.cmp x.0 y.0) (cmp_i64 x.1 y.1)

module _ {ℓ} {T : Type ℓ} ⦃o : Ord T⦄ where
  -- The entries at the head of the worklist that have the time and location too: their sum, and
  -- what is left.
  unfoldable pub accumulate : ⦃e : Eq T⦄ → T × Location → ℕ → List (Entry T) → ℕ × List (Entry T)
  accumulate key diff [] = (diff, [])
  accumulate key diff ((k, d) ∷ rest) =
      let further = accumulate key (add_i64 diff d) rest in
      if pair_eq.equal k key then further else (diff, (k, d) ∷ rest)

  -- `self.worklist.push` of one difference for each place and time.
  unfoldable pub push_all : ℕ → List (T × Location) → List (Entry T) → List (Entry T)
  push_all diff [] worklist = worklist
  push_all diff (k ∷ ks) worklist = push_all diff ks (insert_by by_entry (k, diff) worklist)

module _ {ℓ κ} {T : Type ℓ} {TS : Type κ} (s : PathSummary TS T) where
  -- What the summaries make of a time, without those that end at overflow.
  abbrev pub outcomes : List TS → T → List T
  outcomes [] time = []
  outcomes (summary ∷ rest) time = elim (s.results_in summary time) [
    | none ↦ outcomes rest time
    | some t ↦ t ∷ outcomes rest time
  ]

  -- Where the changes of the frontier of an input go: along the summaries to the outputs.
  abbrev pub crossing : ℕ → List (ℕ × Antichain TS) → T → List (T × Location)
  crossing node [] time = []
  crossing node ((output_port, summaries) ∷ rest) time =
      map (λ t. (t, new_source node output_port)) (outcomes summaries.elements time)
      ++ crossing node rest time

  -- Where those of an output go: along the edges, with the time as it is.
  abbrev pub along : List Target → T → List (T × Location)
  along tos time = map (λ to. (time, from_target to)) tos

  unfoldable pub consequences :
      List (Inner TS) → List (List (List Target)) → Location → T → Option (List (T × Location))
  consequences nodes edges l time = elim l.port [
    | target i ↦ get_elem? nodes l.node >>= λ ports.
        get_elem? ports i >>= λ connectivity. some (crossing l.node connectivity.tree time)
    | source i ↦
        get_elem? edges l.node >>= λ ports. get_elem? ports i >>= λ tos. some (along tos time)
  ]

module _ {ℓ κ} {T : Type ℓ} {TS : Type κ} ⦃e : Eq T⦄ ⦃p : PartialOrder T⦄ ⦃o : Ord T⦄
    (s : PathSummary TS T) where
  -- The changes of a port's pointstamps projected to the outputs of the scope, for one change.
  unfoldable pub project :
      List (ChangeBatch T) → List (ℕ × Antichain TS) → T → ℕ → Option (List (ChangeBatch T))
  project outputs [] time diff = some outputs
  project outputs ((output, summaries) ∷ rest) time diff =
      get_elem? outputs output >>= λ output_changes.
      project
        (modify output (λ _. note_all output_changes diff (outcomes s summaries.elements time))
          outputs)
        rest time diff

  -- The loop over the changes of one port's pointstamps: the new total, projections and worklist.
  unfoldable pub announce :
      Location
      → List (ℕ × Antichain TS)
      → List (Update T)
      → ℕ
      → List (ChangeBatch T)
      → List (Entry T)
      → Option (ℕ × (List (ChangeBatch T) × List (Entry T)))
  announce l summaries [] total outputs worklist = some (total, (outputs, worklist))
  announce l summaries ((time, diff) ∷ rest) total outputs worklist =
      project outputs summaries time diff >>= λ outputs'.
      announce l summaries rest (add_i64 total diff) outputs'
        (insert_by by_entry ((time, l), diff) worklist)

  -- The body of the loops of step 1: the updates of one port.
  unfoldable pub absorb : Tracker T TS → Location → List (Update T) → Option (Tracker T TS)
  absorb tracker l updates = port_at tracker.per_operator l >>= λ operator.
      let (pointstamps, changes) = update_iter operator.pointstamps updates in
      announce l operator.output_summaries.tree changes tracker.total_counts tracker.output_changes
        tracker.worklist
      >>= λ announced. some (record tracker {
        per_operator =
            put_port l (record operator { pointstamps = pointstamps }) tracker.per_operator;
        total_counts = announced.0;
        output_changes = announced.1.0;
        worklist = announced.1.1;
      })

  unfoldable pub absorb_all :
      {K : Type 0}
      → (K → Location)
      → Tracker T TS
      → List (K × List (Update T))
      → Option (Tracker T TS)
  absorb_all place tracker [] = some tracker
  absorb_all place tracker ((k, updates) ∷ rest) =
      absorb tracker (place k) updates >>= λ tracker'. absorb_all place tracker' rest

  -- The two loops of step 1.
  unfoldable pub absorb_targets : Tracker T TS → Option (Tracker T TS)
  absorb_targets tracker =
      let (batch, drained) = ChangeBatch.drain tracker.target_changes in
      absorb_all from_target (record tracker { target_changes = batch }) (groups drained)

  unfoldable pub absorb_sources : Tracker T TS → Option (Tracker T TS)
  absorb_sources tracker =
      let (batch, drained) = ChangeBatch.drain tracker.source_changes in
      absorb_all from_source (record tracker { source_changes = batch }) (groups drained)

  -- The loop over the changes of one port's implications: the new worklist and pushed changes.
  unfoldable pub spread :
      List (Inner TS)
      → List (List (List Target))
      → Location
      → List (Update T)
      → List (Entry T)
      → ChangeBatch (Location × T)
      → Option (List (Entry T) × ChangeBatch (Location × T))
  spread nodes edges l [] worklist pushed_changes = some (worklist, pushed_changes)
  spread nodes edges l ((time, diff) ∷ rest) worklist pushed_changes =
      consequences s nodes edges l time >>= λ next.
      spread nodes edges l rest (push_all diff next worklist)
        (ChangeBatch.update pushed_changes (l, time) diff)

  -- The body of the loop of step 2, with the entry that `pop` yielded and the others.
  unfoldable pub round : Tracker T TS → Entry T → List (Entry T) → Option (Tracker T TS)
  round tracker ((time, l), d) others =
      let (diff, worklist) = accumulate (time, l) d others in
      if diff == 0
      then some (record tracker { worklist = worklist })
      else (port_at tracker.per_operator l >>= λ operator.
          let (implications, changes) = update_iter operator.implications ((time, diff) ∷ []) in
          spread tracker.nodes tracker.edges l changes worklist tracker.pushed_changes >>= λ out.
          some (record tracker {
            per_operator =
                put_port l (record operator { implications = implications }) tracker.per_operator;
            worklist = out.0;
            pushed_changes = out.1;
          }))

  -- Step 2, for at most so many rounds: it has run to its end where the worklist is empty.
  unfoldable pub circulate : ℕ → Tracker T TS → Option (Tracker T TS)
  circulate zero tracker = some tracker
  circulate (suc n) tracker = elim tracker.worklist [
    | [] ↦ some tracker
    | entry ∷ others ↦ round tracker entry others >>= circulate n
  ]

  -- `propagate_all`, with at most `rounds` rounds of step 2.
  unfoldable pub propagate_all : ℕ → Tracker T TS → Option (Tracker T TS)
  propagate_all rounds tracker = absorb_targets tracker >>= absorb_sources >>= circulate rounds
