-- ===== src/MergeQueue/Sequence.antt =====
-- Merge queues as byte sequences: what `extend` does to the bytes in the queue.
use timely_dataflow.Prelude.{
  ℕ, word, ◌<◌, ◌≡◌, ◌⊎◌, subst, refl, sym, ap, ◌∙◌, inl, inr, Bool, true, false, not, ◌&&◌, List,
  [], ◌∷◌, ◌++◌, none, some, All, All-append, All-of-append, is_nil, append-nil, append_assoc,
  arith,
}
use timely_dataflow.Bytes.{Bytes, try_merge}
use timely_dataflow.Bytes.Regions.{Fits, deref, try_merge_correct}
use timely_dataflow.MergeQueue.{MergeQueue, pop_back, merge_tail, extend_queue, extend}

-- The bytes of a sequence of slices.
abbrev pub contents : (ℕ → ℕ) → List Bytes → List ℕ
contents memory [] = []
contents memory (b ∷ bs) = deref memory b ++ contents memory bs

pub contents-append :
    (memory : ℕ → ℕ) (bs cs : List Bytes)
    → contents memory (bs ++ cs) ≡ contents memory bs ++ contents memory cs
contents-append memory [] cs = refl
contents-append memory (b ∷ bs) cs =
    ap (◌++◌ (deref memory b)) (contents-append memory bs cs)
    ∙ sym (append_assoc (deref memory b) (contents memory bs) (contents memory cs))

merge_tail-merged :
    (queue : List Bytes) (tail more : Bytes) (rest : List Bytes)
    → (try_merge tail more).1 ≡ none
    → merge_tail queue tail (more ∷ rest) ≡ merge_tail queue (try_merge tail more).0 rest
unfolding merge_tail
merge_tail-merged queue tail more rest e = rw (e, merge_tail) refl

merge_tail-pushed :
    (queue : List Bytes) (tail more : Bytes) (rest : List Bytes)
    → (try_merge tail more).1 ≡ some more
    → (try_merge tail more).0 ≡ tail
    → merge_tail queue tail (more ∷ rest) ≡ merge_tail (queue ++ tail ∷ []) more rest
unfolding merge_tail
merge_tail-pushed queue tail more rest e k = rw (e, k, merge_tail) refl

-- The loop keeps the bytes, and the order.
merge_tail_lem :
    (memory : ℕ → ℕ) (queue : List Bytes) (tail : Bytes) (rest : List Bytes)
    → All Fits queue
    → Fits tail
    → All Fits rest
    → (contents memory (merge_tail queue tail rest)
        ≡ contents memory queue ++ (deref memory tail ++ contents memory rest))
      × All Fits (merge_tail queue tail rest)
unfolding merge_tail
merge_tail_lem memory queue tail [] fq ft fr =
    (contents-append memory queue (tail ∷ []), All-append Fits queue (tail ∷ []) fq (ft, tt))
merge_tail_lem memory queue tail (more ∷ rest) fq ft fr =
    elim (try_merge_correct memory tail more ft fr.0) [
      | inl (merges, reads, ends, keeps) ↦
          let (same, fits) =
            merge_tail_lem memory queue (try_merge tail more).0 rest fq
              (subst (λ n. n < word) (sym ends) fr.0) fr.1 in
          rw (merge_tail-merged queue tail more rest merges) (
            same
                ∙ ap (◌++◌ (contents memory queue)) (
                    ap (λ xs. xs ++ contents memory rest) reads
                    ∙ append_assoc (deref memory tail) (deref memory more) (contents memory rest)),
            fits,
          )
      | inr (fails, kept) ↦
          let (same, fits) =
            merge_tail_lem memory (queue ++ tail ∷ []) more rest
              (All-append Fits queue (tail ∷ []) fq (ft, tt)) fr.0 fr.1 in
          rw (merge_tail-pushed queue tail more rest fails kept) (
            same
                ∙ ap (λ xs. xs ++ (deref memory more ++ contents memory rest))
                    (contents-append memory queue (tail ∷ []))
                ∙ simp (append_assoc, append-nil),
            fits,
          )
    ]

pop_back-cases :
    (xs : List Bytes)
    → ((xs ≡ []) × (pop_back xs ≡ none))
      ⊎ ((front : List Bytes) × (back : Bytes) × (xs ≡ front ++ back ∷ [])
          × (pop_back xs ≡ some (front, back)))
unfolding pop_back
pop_back-cases [] = inl (refl, refl)
pop_back-cases (x ∷ xs) = elim (pop_back-cases xs) [
  | inl (e, p) ↦ inr ([], x, ap (◌∷◌ x) e, rw p refl)
  | inr (front, back, e, p) ↦ inr (x ∷ front, back, ap (◌∷◌ x) e, rw p refl)
]

extend_queue-empty :
    (queue : List Bytes) (b : Bytes) (rest : List Bytes)
    → pop_back queue ≡ none
    → extend_queue queue (b ∷ rest) ≡ (merge_tail [] b rest, true)
unfolding extend_queue
extend_queue-empty queue b rest e = rw (e, extend_queue) refl

extend_queue-behind :
    (queue : List Bytes) (b : Bytes) (rest front : List Bytes) (back : Bytes)
    → pop_back queue ≡ some (front, back)
    → extend_queue queue (b ∷ rest) ≡ (merge_tail front back (b ∷ rest), false)
unfolding extend_queue
extend_queue-behind queue b rest front back e = rw (e, extend_queue) refl

is_nil-snoc : (xs : List Bytes) (x : Bytes) → is_nil (xs ++ x ∷ []) ≡ false
is_nil-snoc [] x = refl
is_nil-snoc (y ∷ xs) x = refl

-- What `extend_queue` does to the bytes, and when it asks for a wake-up.
pub extend_queue_lem :
    (memory : ℕ → ℕ) (queue items : List Bytes)
    → All Fits queue
    → All Fits items
    → (contents memory (extend_queue queue items).0
        ≡ contents memory queue ++ contents memory items)
      × All Fits (extend_queue queue items).0
      × ((extend_queue queue items).1 ≡ (is_nil queue && not (is_nil items)))
unfolding extend_queue
extend_queue_lem memory queue [] fq fi =
    (sym (append-nil (contents memory queue)), fq, ground arith)
extend_queue_lem memory queue (b ∷ rest) fq fi = elim (pop_back-cases queue) [
  | inl (e, p) ↦
      let (same, fits) = merge_tail_lem memory [] b rest tt fi.0 fi.1 in
      rw (extend_queue-empty queue b rest p) (rw e (same, fits, refl))
  | inr (front, back, e, p) ↦
      let (fits, last) = All-of-append Fits front (back ∷ []) (subst (All Fits) e fq) in
      let (same, fits') = merge_tail_lem memory front back (b ∷ rest) fits last.0 fi in
      rw (extend_queue-behind queue b rest front back p) (
        rw e (
          same ∙ simp (contents-append, append_assoc, append-nil),
          fits',
          rw (is_nil-snoc front back) refl,
        ))
]

-- On a queue that no panic has marked, whose slices and the new ones end within the address space,
-- `extend` returns; the bytes in the queue are afterwards those
-- from before with the new ones behind them; and the receiver is woken if and only if the queue was
-- empty and something was added.
pub enqueue_correct :
    (memory : ℕ → ℕ) (q : MergeQueue) (items : List Bytes)
    → q.panicked ≡ false
    → All Fits q.queue
    → All Fits items
    → (q' : MergeQueue) × (buzz : Bool) × (extend q items ≡ some (q', buzz))
      × (contents memory q'.queue ≡ contents memory q.queue ++ contents memory items)
      × All Fits q'.queue
      × (buzz ≡ (is_nil q.queue && not (is_nil items)))
unfolding extend
enqueue_correct memory q items h fq fi =
    let (queue, buzz) = extend_queue q.queue items in
    let (same, fits, wakes) = extend_queue_lem memory q.queue items fq fi in
    (record q { queue = queue }, buzz, rw h refl, same, fits, wakes)
