-- ===== src/MergeQueue.antt =====
-- `MergeQueue` of communication/src/allocator/serializing_allocators/bytes_exchange.rs: a queue of
-- byte slices between two threads, that merges adjacent slices. Each operation holds the queue's
-- lock from its start to its end, so it is one step.
pub mod Sequence
pub mod Stream
use timely_dataflow.Prelude.{
  ℕ, suc, ◌-◌, ◌==◌, ◌&&◌, if◌then◌else◌, Bool, true, false, List, [], ◌∷◌, ◌++◌, Option, none,
  some, is_nil,
}
use timely_dataflow.Bytes.{Bytes, try_merge}

-- `handles` counts the clones of the `Arc`; `panicked` is the flag that a handle sets when it is
-- dropped by a panic. The buzzer is the Bool that `extend` answers: whether it wakes the receiver.
pub record MergeQueue : Type 0 where
  pub queue : List Bytes
  pub handles : ℕ
  pub panicked : Bool

unfoldable pub new : MergeQueue
new = record { queue = []; handles = 1; panicked = false }

-- `VecDeque::pop_back`.
unfoldable pub pop_back : List Bytes → Option (List Bytes × Bytes)
pop_back [] = none
pop_back (x ∷ xs) = elim (pop_back xs) [
  | none ↦ some ([], x)
  | some (front, back) ↦ some (x ∷ front, back)
]

-- The loop over `more_bytes`, and the push of the tail behind it.
unfoldable pub merge_tail : List Bytes → Bytes → List Bytes → List Bytes
merge_tail queue tail [] = queue ++ tail ∷ []
merge_tail queue tail (more_bytes ∷ rest) =
    let (tail', failed) = try_merge tail more_bytes in
    elim failed [
      | none ↦ merge_tail queue tail' rest
      | some more ↦ merge_tail (queue ++ tail' ∷ []) more rest
    ]

-- The queue after its lock is taken, and whether it was empty.
unfoldable pub extend_queue : List Bytes → List Bytes → List Bytes × Bool
extend_queue queue [] = (queue, false)
extend_queue queue (bytes ∷ rest) = elim (pop_back queue) [
  | none ↦ (merge_tail [] bytes rest, true)
  | some (front, tail) ↦ (merge_tail front tail (bytes ∷ rest), false)
]

-- `extend`: the queue and whether `buzz` is called; none is the panic of a queue that is marked. A
-- poisoned mutex, at which `expect` panics too, is not told apart from one.
unfoldable pub extend : MergeQueue → List Bytes → Option (MergeQueue × Bool)
extend q items = elim q.panicked [
  | true ↦ none
  | false ↦
      let (queue, should_ping) = extend_queue q.queue items in
      some (record q { queue = queue }, should_ping)
]

-- `drain_into`, with what `vec` held before.
unfoldable pub drain_into : MergeQueue → List Bytes → Option (MergeQueue × List Bytes)
drain_into q vec = elim q.panicked [
  | true ↦ none
  | false ↦ some (record q { queue = [] }, vec ++ q.queue)
]

unfoldable pub is_complete : MergeQueue → Option Bool
is_complete q = elim q.panicked [ true ↦ none | false ↦ some (q.handles == 1 && is_nil q.queue) ]

-- `clone`.
unfoldable pub clone : MergeQueue → MergeQueue
clone q = record q { handles = suc q.handles }

-- `drop` of a handle, while its thread panics or not, which wakes the receiver unless it panics
-- itself; none is that panic. The handle lets go of the queue, which the others keep.
unfoldable pub drop : Bool → MergeQueue → Option MergeQueue
drop panicking q =
    if panicking
    then some (record q { handles = q.handles - 1; panicked = true })
    else elim q.panicked [ true ↦ none | false ↦ some (record q { handles = q.handles - 1 }) ]
