-- ===== src/Bytes.antt =====
-- bytes/src/lib.rs: slices of a shared allocation, as the half-open range of addresses they own.
pub mod Regions
use timely_dataflow.Prelude.{
  ℕ, zero, suc, ◌+◌, ◌-◌, ◌%◌, Bool, true, false, ◌&&◌, List, [], ◌∷◌, Option, none, some, leb,
  ◌==◌, if◌then◌else◌, any, word,
}

-- `Bytes` and `BytesMut`, which have the same fields. `sequestered` tells allocations apart, as
-- `Arc::ptr_eq` does.
pub record Bytes : Type 0 where
  pub ptr : ℕ
  pub len : ℕ
  pub sequestered : ℕ

-- `extract_to` of both: what is returned, and `self` after it. None is the failed assertion.
unfoldable pub extract_to : Bytes → ℕ → Option (Bytes × Bytes)
extract_to b index =
    if leb index b.len
    then some (
      record { ptr = b.ptr; len = index; sequestered = b.sequestered },
      record { ptr = (b.ptr + index) % word; len = b.len - index; sequestered = b.sequestered },
    )
    else none

-- `try_merge`: `self` after it, and `other` where it fails.
unfoldable pub try_merge : Bytes → Bytes → Bytes × Option Bytes
try_merge b other =
    if b.sequestered == other.sequestered && (b.ptr + b.len) % word == other.ptr
    then (record b { len = (b.len + other.len) % word }, none)
    else (b, some other)

-- `freeze`.
abbrev pub freeze : Bytes → Bytes
freeze b = b

-- `try_regenerate`: `base` and `size` are those of the sequestered allocation, `downcasts` tells whether
-- it is of the type that is asked for, and `held` lists the other slices that are alive, whose clones
-- of the `Arc` keep `Arc::get_mut` from succeeding. None is the panic of a failed downcast.
unfoldable pub try_regenerate :
    (ℕ → ℕ) → (ℕ → ℕ) → (ℕ → Bool) → List Bytes → Bytes → Option (Bytes × Bool)
try_regenerate base size downcasts held b =
    if any (λ other. other.sequestered == b.sequestered) held
    then some (b, false)
    else (if downcasts b.sequestered
        then some (record b { ptr = base b.sequestered; len = size b.sequestered }, true)
        else none)

-- `BytesMut::from`, of a new allocation.
unfoldable pub from : (ℕ → ℕ) → (ℕ → ℕ) → ℕ → Bytes
from base size allocation = record {
  ptr = base allocation;
  len = size allocation;
  sequestered = allocation;
}
