-- ===== src/MergeQueue/Stream.antt =====
-- Sequences of calls on a merge queue, and the stream of bytes that goes through it.
use timely_dataflow.Prelude.{
  ℕ, ◌≡◌, refl, sym, ap, ◌∙◌, Bool, false, List, [], ◌∷◌, ◌++◌, Option, some, All, append-nil,
  append_assoc,
}
use timely_dataflow.Timestamp.{◌>>=◌}
use timely_dataflow.Bytes.{Bytes}
use timely_dataflow.Bytes.Regions.{Fits}
use timely_dataflow.MergeQueue.{MergeQueue, extend_queue, extend, drain_into}
use timely_dataflow.MergeQueue.Sequence.{contents, contents-append, extend_queue_lem}

-- The calls that move bytes: the sender's `extend`, and the receiver's `drain_into`.
pub data Call : Type 0 where
  extended : List Bytes → Call
  drained : Call

-- A sequence of calls, in the order in which they hold the lock, with the vector of the receiver.
unfoldable pub run : MergeQueue → List Bytes → List Call → Option (MergeQueue × List Bytes)
run q vec [] = some (q, vec)
run q vec (extended items ∷ calls) = extend q items >>= λ (q', buzz). run q' vec calls
run q vec (drained ∷ calls) = drain_into q vec >>= λ (q', vec'). run q' vec' calls

-- The bytes that the sender adds, in the order of its calls.
abbrev pub sent : (ℕ → ℕ) → List Call → List ℕ
sent memory [] = []
sent memory (extended items ∷ calls) = contents memory items ++ sent memory calls
sent memory (drained ∷ calls) = sent memory calls

-- The slices that the sender adds end within the address space.
abbrev pub CallFits : Call → Type 0
CallFits (extended items) = All Fits items
CallFits drained = Unit

extend-some :
    (memory : ℕ → ℕ) (q : MergeQueue) (items : List Bytes)
    → q.panicked ≡ false
    → All Fits q.queue
    → All Fits items
    → (queue : List Bytes) × (buzz : Bool) × (extend q items
        ≡ some (record q { queue = queue }, buzz))
      × (contents memory queue ≡ contents memory q.queue ++ contents memory items)
      × All Fits queue
unfolding extend
extend-some memory q items h fq fi =
    let (same, fits, wakes) = extend_queue_lem memory q.queue items fq fi in
    ((extend_queue q.queue items).0, (extend_queue q.queue items).1, rw h refl, same, fits)

drain_into-some :
    (q : MergeQueue) (vec : List Bytes)
    → q.panicked ≡ false
    → drain_into q vec ≡ some (record q { queue = [] }, vec ++ q.queue)
unfolding drain_into
drain_into-some q vec h = rw h refl

-- Any sequence of calls of `extend` and `drain_into` on a queue that no panic has marked, whose slices
-- and all that are added end within the address space, returns. What the receiver has got, and behind it
-- what waits in the queue, is what there was at first with all that was sent behind it, byte by byte; and
-- one more `drain_into` hands out all of it and leaves the queue empty.
pub stream_correct :
    (memory : ℕ → ℕ) (q : MergeQueue) (vec : List Bytes) (calls : List Call)
    → q.panicked ≡ false
    → All Fits q.queue
    → All CallFits calls
    → (q' : MergeQueue) × (vec' : List Bytes) × (vec'' : List Bytes) × (run q vec calls
        ≡ some (q', vec'))
      × (contents memory vec' ++ contents memory q'.queue
          ≡ (contents memory vec ++ contents memory q.queue) ++ sent memory calls)
      × (drain_into q' vec' ≡ some (record q' { queue = [] }, vec''))
      × (contents memory vec''
          ≡ (contents memory vec ++ contents memory q.queue) ++ sent memory calls)
unfolding run
stream_correct memory q vec [] h fq fc =
    let all = append-nil (contents memory vec ++ contents memory q.queue) in
    (
      q,
      vec,
      vec ++ q.queue,
      refl,
      sym all,
      drain_into-some q vec h,
      contents-append memory vec q.queue ∙ sym all,
    )
stream_correct memory q vec (extended items ∷ calls) h fq fc =
    let (queue, buzz, runs, reads, fits) = extend-some memory q items h fq fc.0 in
    let (q', vec', vec'', ends, same, drains, total) =
      stream_correct memory (record q { queue = queue }) vec calls h fits fc.1 in
    let shift : (contents memory vec ++ contents memory queue) ++ sent memory calls
        ≡ (contents memory vec ++ contents memory q.queue)
          ++ (contents memory items ++ sent memory calls) =
      rw reads (simp append_assoc) in
    (q', vec', vec'', rw runs ends, same ∙ shift, drains, total ∙ shift)
stream_correct memory q vec (drained ∷ calls) h fq fc =
    let (q', vec', vec'', ends, same, drains, total) =
      stream_correct memory (record q { queue = [] }) (vec ++ q.queue) calls h tt fc.1 in
    let shift : (contents memory (vec ++ q.queue) ++ []) ++ sent memory calls
        ≡ (contents memory vec ++ contents memory q.queue) ++ sent memory calls =
      ap (λ xs. xs ++ sent memory calls)
        (append-nil (contents memory (vec ++ q.queue)) ∙ contents-append memory vec q.queue) in
    (q', vec', vec'', rw (drain_into-some q vec h) ends, same ∙ shift, drains, total ∙ shift)
