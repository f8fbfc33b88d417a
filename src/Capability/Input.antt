-- ===== src/Capability/Input.antt =====
-- `InputCapability` of timely/src/dataflow/operators/capability.rs: the right to act at the time of
-- a message that was received, of which capabilities for the outputs can be made.
use timely_dataflow.Prelude.{
  ℕ, ◌<◌, ◌≡◌, ◌⊎◌, inl, inr, refl, Bool, true, false, ◌&&◌, List, [], ◌∷◌, Option, none, some,
  if◌then◌else◌, any, get_elem?, ◌==◌, Memᴰ, mem-of-any, Bool-cases, Option-cases, add_i64, word,
  arith,
}
use timely_dataflow.Order.{Eq, PartialOrder, Ord}
use timely_dataflow.Timestamp.{◌>>=◌, PathSummary}
use timely_dataflow.Antichain.{Antichain}
use timely_dataflow.Connectivity.{PortConnectivity, get}
use timely_dataflow.ChangeBatch.Count.{count}
use timely_dataflow.Capability.{Capability, Store, new, note}
use timely_dataflow.Capability.Balance.{Conserves, new_correct, count-note, amount, held}

-- `internal` lists the batches of the outputs; the guard holds the time, the batch of consumed
-- messages and the number of records, which its drop notes there.
pub record InputCapability {ℓ} (T TS : Type ℓ) : Type ℓ where
  pub internal : List ℕ
  pub summaries : PortConnectivity TS
  pub time : T
  pub consumed : ℕ
  pub record_count : ℕ

-- Whether there is a result, at or before `new_time`.
abbrev pub within {ℓ} : {T : Type ℓ} ⦃p : PartialOrder T⦄ → T → Option T → Bool
within new_time none = false
within ⦃p⦄ new_time (some t) = p.less_equal t new_time

within-some {ℓ} :
    {T : Type ℓ} ⦃p : PartialOrder T⦄ (new_time : T) (result : Option T)
    → within new_time result ≡ true
    → (t : T) × (result ≡ some t) × (p.less_equal t new_time ≡ true)
within-some new_time none h = absurd (ground arith)
within-some new_time (some t) h = (t, refl, h)

module _ {ℓ} {T TS : Type ℓ} ⦃p : PartialOrder T⦄ (ps : PathSummary TS T) where
  -- Whether a summary takes `time` to one at or before `new_time`.
  abbrev pub reaches : T → T → TS → Bool
  reaches time new_time summary = within new_time (ps.results_in summary time)

  module _ ⦃e : Eq T⦄ ⦃o : Ord T⦄ where
    -- `delayed_for_output`; none is one of its panics.
    unfoldable pub delayed_for_output :
        Store T → InputCapability T TS → T → ℕ → Option (Store T × Capability T)
    delayed_for_output store c new_time output_port = get c.summaries output_port >>= λ path.
        (if any (reaches c.time new_time) path.elements
          then (get_elem? c.internal output_port >>= λ batch. some (new store new_time batch))
          else none)

    -- `retain_for_output`, which drops the guard at its end.
    unfoldable pub retain_for_output :
        Store T → InputCapability T TS → ℕ → Option (Store T × Capability T)
    retain_for_output store c output_port =
        (get c.summaries output_port >>= λ path.
        (if any (reaches c.time c.time) path.elements
          then (get_elem? c.internal output_port >>= λ batch. some (new store c.time batch))
          else none))
        >>= λ (store', capability). some (note store' c.consumed c.time c.record_count, capability)

  -- `valid_for_output`; none is the panic of an index out of range.
  unfoldable pub valid_for_output : (TS → TS → Bool) → InputCapability T TS → ℕ → ℕ → Option Bool
  valid_for_output equal c query_buffer port = get_elem? c.internal port >>= λ batch. some (
      batch == query_buffer && (elim (get c.summaries port) [
        | none ↦ false
        | some path ↦ elim path.elements [
          | [] ↦ false
          | summary ∷ [] ↦ equal summary ps.default
          | summary ∷ more ∷ rest ↦ false
        ]
      ]))

module _ {ℓ} {T TS : Type ℓ} ⦃p : PartialOrder T⦄ ⦃e : Eq T⦄ ⦃o : Ord T⦄
    (ps : PathSummary TS T) where
  -- Why a capability for an output and a time cannot be made: there is no path to the output, no
  -- summary of the path takes the time of the message to the new time or before it, or the output has
  -- no batch.
  abbrev pub Refused : InputCapability T TS → T → ℕ → Type ℓ
  Refused c new_time port =
      (get c.summaries port ≡ none)
      ⊎ (((path : Antichain TS) × (get c.summaries port ≡ some path)
            × (any (reaches ps c.time new_time) path.elements ≡ false))
          ⊎ (get_elem? c.internal port ≡ none))

  -- That a capability was made for the new time and the batch of the output, which a summary of the
  -- path to that output allows.
  abbrev pub IsAllowed : InputCapability T TS → T → ℕ → Capability T → Type ℓ
  IsAllowed c new_time port made =
      (made.time ≡ new_time)
      × (get_elem? c.internal port ≡ some made.internal)
      × (path : Antichain TS) × (summary : TS) × (t : T) × (get c.summaries port ≡ some path)
      × Memᴰ summary path.elements
      × (ps.results_in summary c.time ≡ some t)
      × (p.less_equal t new_time ≡ true)

  -- `delayed_for_output` either panics: for a port with no path to it, for a time that no path's
  -- summary takes the input's time to or before, or for want of a batch; or it makes a capability
  -- at the new time, for the batch of that port, which is counted there, and a path's summary takes the
  -- input's time to the new time or before it.
  pub delayed_for_output_correct :
      (s : Store T) (c : InputCapability T TS) (new_time : T) (port : ℕ) (cs : List (Capability T))
      → ((delayed_for_output ps s c new_time port ≡ none) × Refused c new_time port)
        ⊎ ((s' : Store T) × (made : Capability T) × (delayed_for_output ps s c new_time port
              ≡ some (s', made))
            × IsAllowed c new_time port made
            × Conserves s cs s' (made ∷ cs))
  unfolding delayed_for_output new
  delayed_for_output_correct s c new_time port cs = elim (Option-cases (get c.summaries port)) [
    | inl disconnected ↦ inl (rw (disconnected, delayed_for_output) refl, inl disconnected)
    | inr (path, connected) ↦ elim (Bool-cases (any (reaches ps c.time new_time) path.elements)) [
      | inr unreached ↦ inl (
        rw (connected, unreached, delayed_for_output) refl,
        inr (inl (path, connected, unreached)),
      )
      | inl reached ↦ elim (Option-cases (get_elem? c.internal port)) [
        | inl missing ↦
            inl (rw (connected, reached, missing, delayed_for_output) refl, inr (inr missing))
        | inr (batch, present) ↦
            let (summary, member, holds) =
              mem-of-any (reaches ps c.time new_time) path.elements reached in
            let (t, result, le) = within-some new_time (ps.results_in summary c.time) holds in
            inr (
              (new s new_time batch).0,
              (new s new_time batch).1,
              rw (connected, reached, present, delayed_for_output) refl,
              (refl, present, path, summary, t, connected, member, result, le),
              new_correct s new_time batch cs,
            )
      ]
    ]
  ]

  -- The two bodies make the same capability.
  retain_for_output-delayed :
      (s : Store T) (c : InputCapability T TS) (port : ℕ)
      → retain_for_output ps s c port ≡ (
          delayed_for_output ps s c c.time port >>= λ (s', made).
          some (note s' c.consumed c.time c.record_count, made))
  unfolding retain_for_output delayed_for_output
  retain_for_output-delayed s c port = refl

  -- For a record count that is a word, `retain_for_output` either panics: for a port with no path to
  -- it, where no path's summary takes the input's time to that time or before it, or for want of a
  -- batch. Or it makes a capability at the input's time for the batch of that port, which is counted
  -- there, and notes the records of the message as consumed at that time, so that both changes of the
  -- counts go together.
  pub retain_for_output_correct :
      (s : Store T) (c : InputCapability T TS) (port : ℕ) (cs : List (Capability T))
      → c.record_count < word
      → ((retain_for_output ps s c port ≡ none) × Refused c c.time port)
        ⊎ ((s' : Store T) × (made : Capability T) × (retain_for_output ps s c port
              ≡ some (s', made))
            × IsAllowed c c.time port made
            × ((i : ℕ) (k : T)
                → add_i64 (count k (s' i).updates) (held i k cs)
                  ≡ add_i64 (add_i64 (count k (s i).updates) (held i k (made ∷ cs))) (
                      amount i k (record { time = c.time; internal = c.consumed }) c.record_count)))
  unfolding add_i64
  retain_for_output_correct s c port cs h = elim (delayed_for_output_correct s c c.time port cs) [
    | inl (fails, why) ↦ inl (rw (retain_for_output-delayed s c port, fails) refl, why)
    | inr (s', made, makes, allowed, more) ↦ inr (
      note s' c.consumed c.time c.record_count,
      made,
      rw (retain_for_output-delayed s c port, makes) refl,
      allowed,
      λ i k. omega (
        arith,
        more i k,
        count-note s' (record { time = c.time; internal = c.consumed }) c.record_count i k h,
      ),
    )
  ]
