-- ===== src/Examples/Transport.antt =====
-- Message headers, byte slices and merge queues at concrete inputs. The big-endian order of
-- byteorder is written out here to show that what is asked of it can hold.
use timely_dataflow.Prelude.{
  ℕ, zero, suc, ◌+◌, ◌*◌, ◌/◌, ◌%◌, ◌≤◌, ◌<◌, ◌≡◌, ◌⊎◌, refl, ap, Bool, true, false, not, ◌&&◌,
  List, [], ◌∷◌, ◌++◌, Option, none, some, All, is_nil, length, ltb, ◌==◌, if◌then◌else◌, word,
  arith,
}
use timely_dataflow.Timestamp.{◌>>=◌}
use timely_dataflow.Networking.{MessageHeader, ByteOrder, fields, write_all, write_to, try_read}
use timely_dataflow.Networking.Headers.{try_read-write_to}
use timely_dataflow.Bytes.{Bytes, extract_to, try_merge, try_regenerate, from}
use timely_dataflow.Bytes.Regions.{
  deref, disjoint, extract_to_correct, try_merge_correct, try_regenerate-extract_to,
}
use timely_dataflow.MergeQueue.{MergeQueue, extend, drain_into}
use timely_dataflow.MergeQueue.Sequence.{contents, enqueue_correct}
use timely_dataflow.MergeQueue.Stream.{Call, extended, drained, run, sent, stream_correct}

abbrev digits : ℕ → ℕ → List ℕ
digits zero n = []
digits (suc k) n = digits k (n / 256) ++ n % 256 ∷ []

abbrev read_digits : ℕ → ℕ → List ℕ → Option (ℕ × List ℕ)
read_digits zero acc bytes = some (acc, bytes)
read_digits (suc k) acc [] = none
read_digits (suc k) acc (x ∷ bytes) = read_digits k (acc * 256 + x) bytes

abbrev read_many : ℕ → List ℕ → Option (List ℕ)
read_many zero bytes = some []
read_many (suc k) bytes =
    read_digits 8 0 bytes >>= λ (n, rest). read_many k rest >>= λ ns. some (n ∷ ns)

value_lem :
    (n : ℕ)
    → n < word
    → (((((((0 * 256 + n / 256 / 256 / 256 / 256 / 256 / 256 / 256 % 256) * 256
                                + n / 256 / 256 / 256 / 256 / 256 / 256 % 256)
                              * 256
                            + n / 256 / 256 / 256 / 256 / 256 % 256)
                          * 256
                        + n / 256 / 256 / 256 / 256 % 256)
                      * 256
                    + n / 256 / 256 / 256 % 256)
                  * 256
                + n / 256 / 256 % 256)
              * 256
            + n / 256 % 256)
          * 256
        + n % 256
      ≡ n
value_lem n h = omega arith

read_digits-digits :
    (n : ℕ) (rest : List ℕ) → n < word → read_digits 8 0 (digits 8 n ++ rest) ≡ some (n, rest)
read_digits-digits n rest h = ap (λ v. some (v, rest)) (value_lem n h)

read_many-write_all :
    (ns rest : List ℕ)
    → All (λ n. n < word) ns
    → read_many (length ns) (write_all (digits 8) ns ++ rest) ≡ some ns
read_many-write_all [] rest h = refl
read_many-write_all (n ∷ ns) rest h =
    rw (read_many-write_all ns rest h.1) (ap (λ v. some (v ∷ ns)) (value_lem n h.0))

length-write_many : (ns rest : List ℕ) → 8 * length ns ≤ length (write_all (digits 8) ns ++ rest)
length-write_many [] rest = omega arith
length-write_many (n ∷ ns) rest = omega (arith, length-write_many ns rest)

abbrev read_exact : ℕ → List ℕ → Option (List ℕ)
read_exact count bytes = if ltb (length bytes) (8 * count) then none else read_many count bytes

read_exact-write_all :
    (ns rest : List ℕ)
    → All (λ n. n < word) ns
    → read_exact (length ns) (write_all (digits 8) ns ++ rest) ≡ some ns
read_exact-write_all ns rest h =
    ground (arith, length-write_many ns rest, read_many-write_all ns rest h)

read_exact_short :
    (count : ℕ) (bytes : List ℕ) → length bytes < 8 * count → read_exact count bytes ≡ none
read_exact_short count bytes h = ground arith

abbrev big_endian : ByteOrder
big_endian = record {
  write_u64 = digits 8;
  read_u64 = read_digits 8 0;
  read_u64_into = read_exact;
  length-write = λ n. refl;
  read-write = read_digits-digits;
  read_into-write = read_exact-write_all;
  read_into_short = read_exact_short;
}

abbrev header : MessageHeader
header = record {
  channel = 7;
  source = 1;
  target_lower = 2;
  target_upper = 3;
  length = 2;
  seqno = 515;
}

written :
    write_to big_endian header
    ≡ digits 8 7
      ++ digits 8 1
      ++ digits 8 2
      ++ digits 8 3
      ++ digits 8 2
      ++ 0 ∷ 0 ∷ 0 ∷ 0 ∷ 0 ∷ 0 ∷ 2 ∷ 3 ∷ []
unfolding write_to
written = refl

header-IsWord : All (λ n. n < word) (fields header)
header-IsWord =
    (omega arith, (omega arith, (omega arith, (omega arith, (omega arith, (omega arith, tt))))))

try_read-write_to_example :
    try_read big_endian (write_to big_endian header ++ 10 ∷ 11 ∷ []) ≡ some header
try_read-write_to_example =
    try_read-write_to big_endian header (10 ∷ 11 ∷ []) header-IsWord (omega arith)

-- The byte at an address is the address, modulo 256.
abbrev memory : ℕ → ℕ
memory a = a % 256

abbrev slice : Bytes
slice = record { ptr = 1000; len = 60; sequestered = 4 }

extract_to_correct_example :
    (front : Bytes) × (rest : Bytes) × (extract_to slice 20 ≡ some (front, rest))
    × (deref memory front ++ deref memory rest ≡ deref memory slice)
    × (disjoint front rest ≡ true)
    × (try_merge front rest ≡ (slice, none))
extract_to_correct_example = extract_to_correct memory slice 20 (omega arith) (omega arith)

abbrev next : Bytes
next = record { ptr = 1060; len = 4; sequestered = 4 }

try_merge_correct_example :
    let (merged, failed) = try_merge slice next in
    ((failed ≡ none)
      × (deref memory merged ≡ deref memory slice ++ deref memory next)
      × (merged.ptr + merged.len ≡ 1060 + 4)
      × ((c : Bytes) → disjoint slice c ≡ true → disjoint next c ≡ true → disjoint merged c ≡ true))
    ⊎ ((failed ≡ some next) × (merged ≡ slice))
try_merge_correct_example = try_merge_correct memory slice next (omega arith) (omega arith)

abbrev base : ℕ → ℕ
base a = a * 1000

abbrev size : ℕ → ℕ
size a = 500

abbrev downcasts : ℕ → Bool
downcasts a = a == 4

abbrev held : List Bytes
held = record { ptr = 5000; len = 9; sequestered = 5 } ∷ []

try_regenerate-extract_to_example :
    (front : Bytes) × (rest : Bytes) × (extract_to (from base size 4) 20 ≡ some (front, rest))
    × (try_regenerate base size downcasts (front ∷ held) rest ≡ some (rest, false))
    × (try_regenerate base size downcasts held rest ≡ some (from base size 4, true))
unfolding from
try_regenerate-extract_to_example =
    try_regenerate-extract_to base size downcasts held 4 20 (omega arith) (omega arith) refl

abbrev shared_queue : MergeQueue
shared_queue = record { queue = slice ∷ []; handles = 2; panicked = false }

enqueue_correct_example :
    (q' : MergeQueue) × (buzz : Bool) × (extend shared_queue (next ∷ slice ∷ []) ≡ some (q', buzz))
    × (contents memory q'.queue
        ≡ contents memory shared_queue.queue ++ contents memory (next ∷ slice ∷ []))
    × All (λ b. b.ptr + b.len < word) q'.queue
    × (buzz ≡ (is_nil shared_queue.queue && not (is_nil (next ∷ slice ∷ []))))
enqueue_correct_example =
    enqueue_correct memory shared_queue (next ∷ slice ∷ []) refl (omega arith, tt)
      (omega arith, (omega arith, tt))

-- Two sends around a receipt.
abbrev calls : List Call
calls = extended (next ∷ slice ∷ []) ∷ drained ∷ extended (next ∷ []) ∷ []

stream_correct_example :
    (q' : MergeQueue) × (vec' : List Bytes) × (vec'' : List Bytes) × (run shared_queue [] calls
      ≡ some (q', vec'))
    × (contents memory vec' ++ contents memory q'.queue
        ≡ ([] ++ contents memory (slice ∷ [])) ++ sent memory calls)
    × (drain_into q' vec' ≡ some (record q' { queue = [] }, vec''))
    × (contents memory vec'' ≡ ([] ++ contents memory (slice ∷ [])) ++ sent memory calls)
stream_correct_example =
    stream_correct memory shared_queue [] calls refl (omega arith, tt)
      ((omega arith, (omega arith, tt)), (tt, ((omega arith, tt), tt)))
