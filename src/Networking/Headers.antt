-- ===== src/Networking/Headers.antt =====
-- Message headers: reading what was written.
use timely_dataflow.Prelude.{
  ℕ, ◌+◌, ◌*◌, ◌<◌, ◌≡◌, refl, sym, ap, ◌∙◌, List, [], ◌∷◌, ◌++◌, none, some, All, length, leb,
  if◌then◌else◌, word, arith, append-nil, append_assoc, length-append,
}
use timely_dataflow.Networking.{
  MessageHeader, ByteOrder, fields, write_all, header_bytes, required_bytes, write_to, try_read,
  try_read_routing_info,
}

-- Every field is a `usize`.
abbrev pub IsWord : MessageHeader → Type 0
IsWord h = All (λ n. n < word) (fields h)

module _ (b : ByteOrder) where
  write_to-fields :
      (h : MessageHeader) (rest : List ℕ)
      → write_to b h ++ rest ≡ write_all b.write_u64 (fields h) ++ rest
  unfolding write_to
  write_to-fields h rest = simp (append_assoc, append-nil)

  length-write_all : (ns : List ℕ) → length (write_all b.write_u64 ns) ≡ 8 * length ns
  length-write_all [] = refl
  length-write_all (n ∷ ns) =
      rw
        (
          length-append (b.write_u64 n) (write_all b.write_u64 ns),
          b.length-write n,
          length-write_all ns,
        )
        (omega arith)

  length-write_to : (h : MessageHeader) → length (write_to b h) ≡ header_bytes
  length-write_to h =
      ap length (sym (append-nil (write_to b h)) ∙ write_to-fields h [] ∙ append-nil _)
      ∙ length-write_all (fields h)

  try_read-of-fields :
      (h : MessageHeader) (bytes : List ℕ)
      → b.read_u64_into 6 bytes ≡ some (fields h)
      → try_read b bytes ≡ (if leb (required_bytes h) (length bytes) then some h else none)
  unfolding try_read
  try_read-of-fields h bytes e = rw e refl

  -- Reading what `write_to` wrote, for fields that are words and a total size that does not
  -- overflow, with any data behind it, gives the header back if the data that it announces has
  -- arrived, and nothing otherwise.
  pub try_read-write_to :
      (h : MessageHeader) (data_bytes : List ℕ)
      → IsWord h
      → header_bytes + h.length < word
      → try_read b (write_to b h ++ data_bytes)
        ≡ (if leb h.length (length data_bytes) then some h else none)
  unfolding required_bytes
  try_read-write_to h data_bytes w f =
      try_read-of-fields h (write_to b h ++ data_bytes) (
        ap (b.read_u64_into 6) (write_to-fields h data_bytes)
        ∙ b.read_into-write (fields h) data_bytes w)
      ∙ rw (length-append (write_to b h) data_bytes, length-write_to h) (ground arith)

  -- Fewer bytes than a header has are no header.
  pub try_read_short : (bytes : List ℕ) → length bytes < header_bytes → try_read b bytes ≡ none
  unfolding try_read
  try_read_short bytes h = rw (b.read_into_short 6 bytes h) refl

  -- The routing information of what `write_to` wrote for fields that are words is the channel and
  -- the range of targets, as soon as the header is there.
  pub try_read_routing_info-write_to :
      (h : MessageHeader) (rest : List ℕ)
      → IsWord h
      → try_read_routing_info b (write_to b h ++ rest)
        ≡ some (h.channel, (h.target_lower, h.target_upper))
  unfolding try_read_routing_info
  try_read_routing_info-write_to h rest w =
      rw
        (
          nested,
          b.read-write h.channel _ w.0,
          b.read-write h.source _ w.1.0,
          b.read-write h.target_lower _ w.1.1.0,
          b.read-write h.target_upper _ w.1.1.1.0,
        )
        refl
    where
      nested :
          write_to b h ++ rest
          ≡ b.write_u64 h.channel
            ++ (b.write_u64 h.source
                ++ (b.write_u64 h.target_lower
                    ++ (b.write_u64 h.target_upper
                        ++ (b.write_u64 h.length ++ (b.write_u64 h.seqno ++ rest)))))
      nested = unfold write_to in simp append_assoc
