-- ===== src/Bytes/Regions.antt =====
-- Slices of an allocation, as what they read and the addresses they own: `extract_to`, `try_merge` and
-- `try_regenerate`.
use timely_dataflow.Prelude.{
  ℕ, zero, suc, ◌+◌, ◌-◌, ◌%◌, ◌≤◌, ◌<◌, ◌≡◌, ◌⊎◌, inl, inr, refl, sym, ap, ◌∙◌, Bool, true, false,
  ◌&&◌, ◌||◌, List, [], ◌∷◌, ◌++◌, none, some, leb, ◌==◌, if◌then◌else◌, any, word, arith,
  Bool-cases,
}
use timely_dataflow.Bytes.{Bytes, extract_to, try_merge, try_regenerate, from}

-- An allocation does not reach the end of the address space.
abbrev pub Fits : Bytes → Type 0
Fits b = b.ptr + b.len < word

-- The bytes at `len` addresses from `ptr`.
abbrev pub bytes_at : (ℕ → ℕ) → ℕ → ℕ → List ℕ
bytes_at memory ptr zero = []
bytes_at memory ptr (suc len) = memory ptr ∷ bytes_at memory (ptr + 1) len

-- `Deref`: the slice that a value stands for.
abbrev pub deref : (ℕ → ℕ) → Bytes → List ℕ
deref memory b = bytes_at memory b.ptr b.len

-- Whether two slices have no byte in common: they are of different allocations, one is empty, or
-- one ends where the other has not begun.
abbrev pub disjoint : Bytes → Bytes → Bool
disjoint b c =
    if b.sequestered == c.sequestered
    then b.len == 0 || c.len == 0 || leb (b.ptr + b.len) c.ptr || leb (c.ptr + c.len) b.ptr
    else true

bytes_at-append :
    (memory : ℕ → ℕ) (ptr m n : ℕ)
    → bytes_at memory ptr (m + n) ≡ bytes_at memory ptr m ++ bytes_at memory (ptr + m) n
bytes_at-append memory ptr zero n = ground arith
bytes_at-append memory ptr (suc m) n =
    let step : suc m + n ≡ suc (m + n) = omega arith in
    ap (bytes_at memory ptr) step
    ∙ ap (◌∷◌ (memory ptr)) (
        bytes_at-append memory (ptr + 1) m n
        ∙ ap (λ p. bytes_at memory (ptr + 1) m ++ bytes_at memory p n) (omega arith))

-- `extract_to` up to the length of a slice, that ends within the address space, returns, and cuts
-- the slice in two: what is returned and what is left read, in this order, what the slice read;
-- they share no byte; and merging them gives the slice back.
pub extract_to_correct :
    (memory : ℕ → ℕ) (b : Bytes) (index : ℕ)
    → Fits b
    → index ≤ b.len
    → (front : Bytes) × (rest : Bytes) × (extract_to b index ≡ some (front, rest))
      × (deref memory front ++ deref memory rest ≡ deref memory b)
      × (disjoint front rest ≡ true)
      × (try_merge front rest ≡ (b, none))
unfolding extract_to try_merge
extract_to_correct memory b index f h =
    let same : (b.ptr + index) % word ≡ b.ptr + index = omega arith in
    let whole : index + (b.len - index) ≡ b.len = omega arith in
    (
      record { ptr = b.ptr; len = index; sequestered = b.sequestered },
      record { ptr = b.ptr + index; len = b.len - index; sequestered = b.sequestered },
      ground (arith, same),
      sym (bytes_at-append memory b.ptr index (b.len - index)) ∙ ap (bytes_at memory b.ptr) whole,
      ground arith,
      ground (arith, same, whole),
    )

-- On slices that end within the address space, after a merge `self` reads what both slices read, ends
-- where `other` did, and shares no byte with a slice that shared none with either; where it fails, `self`
-- is as before and `other` is handed back.
pub try_merge_correct :
    (memory : ℕ → ℕ) (b other : Bytes)
    → Fits b
    → Fits other
    → let (merged, failed) = try_merge b other in
      ((failed ≡ none)
        × (deref memory merged ≡ deref memory b ++ deref memory other)
        × (merged.ptr + merged.len ≡ other.ptr + other.len)
        × ((c : Bytes) → disjoint b c ≡ true → disjoint other c ≡ true → disjoint merged c ≡ true))
      ⊎ ((failed ≡ some other) × (merged ≡ b))
unfolding try_merge
try_merge_correct memory b other f g =
    elim (Bool-cases (b.sequestered == other.sequestered && (b.ptr + b.len) % word == other.ptr)) [
      | inl adjacent ↦
          let next : b.ptr + b.len ≡ other.ptr = ground arith in
          let whole : (b.len + other.len) % word ≡ b.len + other.len = omega arith in
          rw (adjacent, whole)
            (inl (
              refl,
              bytes_at-append memory b.ptr b.len other.len
                  ∙ ap (λ p. deref memory b ++ bytes_at memory p other.len) next,
              omega arith,
              λ c h k. ground arith,
            ))
      | inr apart ↦ rw apart (inr (refl, refl))
    ]

-- The life of an allocation: of a slice of the whole of it, that ends within the address space, a front
-- is extracted. `try_regenerate` of the rest never panics and changes nothing while the front is alive;
-- once it is dropped, and no other slice of the allocation is alive, `try_regenerate` gives the slice of
-- the whole back if the allocation is of the type that is asked for, and panics if it is not.
pub try_regenerate-extract_to :
    (base size : ℕ → ℕ) (downcasts : ℕ → Bool) (others : List Bytes) (allocation index : ℕ)
    → Fits (from base size allocation)
    → index ≤ size allocation
    → any (λ other. other.sequestered == allocation) others ≡ false
    → (front : Bytes) × (rest : Bytes) × (extract_to (from base size allocation) index
        ≡ some (front, rest))
      × (try_regenerate base size downcasts (front ∷ others) rest ≡ some (rest, false))
      × (try_regenerate base size downcasts others rest
          ≡ (if downcasts allocation then some (from base size allocation, true) else none))
unfolding extract_to try_regenerate from
try_regenerate-extract_to base size downcasts others allocation index f le alone = (
  record { ptr = base allocation; len = index; sequestered = allocation },
  record {
    ptr = (base allocation + index) % word;
    len = size allocation - index;
    sequestered = allocation;
  },
  ground arith,
  ground arith,
  rw alone refl,
)
