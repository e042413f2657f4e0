-- ===== src/Protocol/Framing.antt =====
-- How a packet that `create_packet_stream` made reads back from the front of a buffer.
use cpp_tchat.Prelude.{
  ℕ, suc, ◌-◌, ◌+◌, ◌^◌, ◌<◌, ◌≤◌, ◌≡◌, refl, some, ◌++◌, Bytes, length, take, drop, arith,
  length-append, take-length-append, drop-length-append,
}
use cpp_tchat.Protocol.{
  PacketType, protocol_key, header_size, code_of, packet_type, read_header, total_size, payload_of,
  create_packet_stream,
}

pub packet_type-code_of : (t : PacketType) → packet_type (code_of t) ≡ some t
unfolding packet_type
packet_type-code_of PacketType.file_meta = refl
packet_type-code_of _ = refl

module _ (t : PacketType) (payload rest : Bytes) where
  pub magic-create_packet_stream :
      (read_header (create_packet_stream t payload ++ rest)).magic ≡ protocol_key
  unfolding read_header create_packet_stream
  magic-create_packet_stream = refl

  pub type-create_packet_stream :
      (read_header (create_packet_stream t payload ++ rest)).type ≡ code_of t
  unfolding read_header create_packet_stream
  type-create_packet_stream = refl

  pub length-create_packet_stream :
      length (create_packet_stream t payload) ≡ header_size + length payload
  unfolding create_packet_stream
  length-create_packet_stream = omega arith

  module _ (fits : length payload < 2 ^ 32) where
    pub payload_length-create_packet_stream :
        (read_header (create_packet_stream t payload ++ rest)).payload_length ≡ length payload
    unfolding read_header create_packet_stream
    payload_length-create_packet_stream = omega arith

    pub total_size-create_packet_stream :
        total_size (create_packet_stream t payload ++ rest)
        ≡ length (create_packet_stream t payload)
    unfolding total_size
    total_size-create_packet_stream =
        omega (arith, payload_length-create_packet_stream, length-create_packet_stream)

    -- The payload comes back, and what stands behind the packet stays.
    pub payload_of-create_packet_stream :
        payload_of (create_packet_stream t payload ++ rest) ≡ payload
    unfolding payload_of
    payload_of-create_packet_stream = rw payload_length-create_packet_stream (tail_payload)
      where
        tail_payload :
            take (length payload) (drop header_size (create_packet_stream t payload ++ rest))
            ≡ payload
        tail_payload = unfold create_packet_stream in take-length-append payload rest

    pub drop-create_packet_stream :
        drop
          (total_size (create_packet_stream t payload ++ rest))
          (create_packet_stream t payload ++ rest)
        ≡ rest
    drop-create_packet_stream =
        rw total_size-create_packet_stream
          (drop-length-append (create_packet_stream t payload) rest)

    pub total_size-le :
        (length (create_packet_stream t payload ++ rest)
          < total_size (create_packet_stream t payload ++ rest))
        → ⊥
    total_size-le h = omega (
      arith,
      total_size-create_packet_stream,
      length-append (create_packet_stream t payload) rest,
    )

module _ (t : PacketType) (payload : Bytes) where
  -- A part of a packet that holds the header reads as the whole packet does.
  read_header-take :
      (n : ℕ)
      → header_size ≤ n
      → read_header (take n (create_packet_stream t payload))
        ≡ read_header (create_packet_stream t payload)
  unfolding read_header create_packet_stream
  read_header-take n h =
      let e : n ≡ suc (suc (suc (suc (suc (suc (suc (suc (suc (suc (suc (suc (n - 12)))))))))))) =
        omega arith in
      rw e refl

  module _ (n : ℕ) (header : header_size ≤ n) where
    pub magic-take : (read_header (take n (create_packet_stream t payload))).magic ≡ protocol_key
    magic-take = rw (read_header-take n header) (unfold read_header create_packet_stream in refl)

    pub total_size-take :
        length payload < 2 ^ 32
        → total_size (take n (create_packet_stream t payload))
          ≡ length (create_packet_stream t payload)
    unfolding total_size
    total_size-take fits =
        rw (read_header-take n header) (unfold read_header create_packet_stream in omega arith)

    pub payload_length-take :
        length payload < 2 ^ 32
        → (read_header (take n (create_packet_stream t payload))).payload_length ≡ length payload
    payload_length-take fits =
        rw (read_header-take n header) (unfold read_header create_packet_stream in omega arith)
