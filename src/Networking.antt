-- ===== src/Networking.antt =====
-- `MessageHeader` of communication/src/networking/mod.rs: the frame of a message between processes.
-- The crate byteorder, which turns a `u64` to bytes and back, is the record ByteOrder.
pub mod Headers
use timely_dataflow.Prelude.{
  ℕ, ◌+◌, ◌*◌, ◌%◌, ◌<◌, ◌≡◌, List, [], ◌∷◌, ◌++◌, Option, none, some, All, length, leb,
  if◌then◌else◌, word,
}
use timely_dataflow.Timestamp.{◌>>=◌}

-- `MessageHeader`. All fields are `usize`.
pub record MessageHeader : Type 0 where
  pub channel : ℕ
  pub source : ℕ
  pub target_lower : ℕ
  pub target_upper : ℕ
  pub length : ℕ
  pub seqno : ℕ

-- The fields in the order in which they are written.
abbrev pub fields : MessageHeader → List ℕ
fields h = h.channel ∷ h.source ∷ h.target_lower ∷ h.target_upper ∷ h.length ∷ h.seqno ∷ []

abbrev pub write_all : (ℕ → List ℕ) → List ℕ → List ℕ
write_all write [] = []
write_all write (n ∷ ns) = write n ++ write_all write ns

-- What the code takes from byteorder's BigEndian: a write of eight bytes, a read that undoes it,
-- and a read of several that undoes several writes and fails at the end of the input.
pub record ByteOrder : Type 0 where
  pub write_u64 : ℕ → List ℕ
  pub read_u64 : List ℕ → Option (ℕ × List ℕ)
  pub read_u64_into : ℕ → List ℕ → Option (List ℕ)
  pub length-write : (n : ℕ) → length (write_u64 n) ≡ 8
  pub read-write :
      (n : ℕ) (rest : List ℕ) → n < word → read_u64 (write_u64 n ++ rest) ≡ some (n, rest)
  pub read_into-write :
      (ns rest : List ℕ)
      → All (λ n. n < word) ns
      → read_u64_into (length ns) (write_all write_u64 ns ++ rest) ≡ some ns
  pub read_into_short :
      (count : ℕ) (bytes : List ℕ) → length bytes < 8 * count → read_u64_into count bytes ≡ none

-- `size_of::<u64>() * FIELDS`.
abbrev pub header_bytes : ℕ
header_bytes = 8 * 6

unfoldable pub required_bytes : MessageHeader → ℕ
required_bytes h = (header_bytes + h.length) % word

module _ (b : ByteOrder) where
  unfoldable pub write_to : MessageHeader → List ℕ
  write_to h =
      b.write_u64 h.channel
      ++ b.write_u64 h.source
      ++ b.write_u64 h.target_lower
      ++ b.write_u64 h.target_upper
      ++ b.write_u64 h.length
      ++ b.write_u64 h.seqno

  -- The struct expression over the buffer that was read.
  abbrev pub from_buffer : List ℕ → Option MessageHeader
  from_buffer (c ∷ s ∷ l ∷ u ∷ n ∷ q ∷ []) = some (record {
    channel = c;
    source = s;
    target_lower = l;
    target_upper = u;
    length = n;
    seqno = q;
  })
  from_buffer buffer = none

  unfoldable pub try_read : List ℕ → Option MessageHeader
  try_read bytes = b.read_u64_into 6 bytes >>= λ buffer. from_buffer buffer >>= λ header.
      if leb (required_bytes header) (length bytes) then some header else none

  -- The channel, and the two ends of the range of targets.
  unfoldable pub try_read_routing_info : List ℕ → Option (ℕ × (ℕ × ℕ))
  try_read_routing_info bytes = b.read_u64 bytes >>= λ (channel, rest).
      b.read_u64 rest >>= λ (source, rest). b.read_u64 rest >>= λ (lower, rest).
      b.read_u64 rest >>= λ (upper, rest). some (channel, (lower, upper))
