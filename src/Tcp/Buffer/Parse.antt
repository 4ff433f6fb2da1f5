-- ===== src/Tcp/Buffer/Parse.antt =====
-- OptimizedReadBuffer::try_parse_next_packet (src/adapters/tcp.rs) on the bytes of packets.
use msgtrans_rust.Base.{
  ℕ, ◌+◌, ◌<◌, ◌≤◌, ◌≡◌, ◌⊎◌, arith, List, [], ◌++◌, append-nil, append_assoc, length,
  length-append, length-take, take, drop, take-length, drop-length, get_or-take, none, some, ok,
  err,
}
use msgtrans_rust.Packet.Header
use msgtrans_rust.Packet.Header.{FixedHeader}
use msgtrans_rust.Packet.Header.RoundTrip.{IsValid}
use msgtrans_rust.Packet.Message
use msgtrans_rust.Packet.Message.{Packet, to_bytes, total_len}
use msgtrans_rust.Packet.Message.WellFormed.{IsWellFormed}
use msgtrans_rust.Packet.Message.RoundTrip.{
  to_bytes_parts, length-to_bytes_packet, from_bytes-to_bytes_packet,
}
use msgtrans_rust.Tcp.Buffer.{
  OptimizedReadBuffer, BytesMutCapacity, claimed_ext, claimed_payload, split_packet,
  buffer_overflow, try_parse_next_packet,
}

-- The packets that a TCP connection takes: the code refuses a longer payload.
abbrev pub Fits : Packet → Type 0
Fits p = IsWellFormed p × (length p.payload ≤ 1048576)

claims_header :
    (h : FixedHeader) (tail : List ℕ)
    → IsValid h
    → (claimed_ext (Header.to_bytes h ++ tail) ≡ h.ext_header_len)
      × (claimed_payload (Header.to_bytes h ++ tail) ≡ h.payload_len)
unfolding Header.to_bytes
claims_header h tail v = ground arith

claims :
    (p : Packet) (rest : List ℕ)
    → IsWellFormed p
    → (claimed_ext (to_bytes p ++ rest) ≡ length p.ext_header)
      × (claimed_payload (to_bytes p ++ rest) ≡ length p.payload)
claims p rest w =
    rw (to_bytes_parts p, append_assoc)
      (ground (arith, claims_header p.header ((p.ext_header ++ p.payload) ++ rest) w.valid))

claims-take :
    (n : ℕ) (xs : List ℕ)
    → 16 ≤ n
    → (claimed_ext (take n xs) ≡ claimed_ext xs)
      × (claimed_payload (take n xs) ≡ claimed_payload xs)
claims-take n xs h = omega (
  arith,
  get_or-take n 8 xs 0,
  get_or-take n 9 xs 0,
  get_or-take n 10 xs 0,
  get_or-take n 11 xs 0,
  get_or-take n 12 xs 0,
  get_or-take n 13 xs 0,
)

module _ (m : BytesMutCapacity) (b : OptimizedReadBuffer) (p : Packet) (f : Fits p) where
  -- The buffer behind the packet `p`.
  abbrev pub without : List ℕ → OptimizedReadBuffer
  without rest = record b {
    buffer = rest;
    capacity = m.split_to b.capacity (total_len p);
    stats = record (b.stats) { packets_parsed = b.stats.packets_parsed + 1 };
  }

  split_complete :
      (rest : List ℕ)
      → b.buffer ≡ to_bytes p ++ rest
      → split_packet m b (total_len p) ≡ (without rest, ok (some p))
  unfolding split_packet
  split_complete rest e =
      let front : take (total_len p) (to_bytes p ++ rest) ≡ to_bytes p =
        rw (← length-to_bytes_packet p) (take-length (to_bytes p) rest) in
      let behind : drop (total_len p) (to_bytes p ++ rest) ≡ rest =
        rw (← length-to_bytes_packet p) (drop-length (to_bytes p) rest) in
      let decoded : Message.from_bytes (to_bytes p) ≡ ok p =
        rw append-nil at (from_bytes-to_bytes_packet p [] (f.0)) in
      ground arith

  -- From a buffer that begins with the bytes of a well-formed packet of at most 1 MiB of payload
  -- exactly that packet is parsed; the bytes behind it stay in the buffer, and the packet is
  -- counted.
  pub parse_complete :
      (rest : List ℕ)
      → b.buffer ≡ to_bytes p ++ rest
      → try_parse_next_packet m b ≡ (without rest, ok (some p))
  unfolding try_parse_next_packet total_len
  parse_complete rest e = ground (
    arith,
    claims p rest f.0,
    length-append (to_bytes p) rest,
    length-to_bytes_packet p,
    split_complete rest e,
  )

  -- From a buffer that holds a proper prefix of the bytes of a well-formed packet of at most 1
  -- MiB of payload nothing is parsed, and the buffer stays as it was.
  pub parse_partial :
      (n : ℕ)
      → n < total_len p
      → b.buffer ≡ take n (to_bytes p)
      → try_parse_next_packet m b ≡ (b, ok none)
  unfolding try_parse_next_packet total_len
  parse_partial n short e = ground (
    arith,
    claims p [] f.0,
    append-nil (to_bytes p),
    claims-take n (to_bytes p),
    length-take n (to_bytes p),
    length-to_bytes_packet p,
  )

split_packet-drop :
    (m : BytesMutCapacity) (b : OptimizedReadBuffer) (n : ℕ)
    → (split_packet m b n).0.buffer ≡ drop n b.buffer
unfolding split_packet
split_packet-drop m b n = ground arith

-- The packet length that a header claims.
abbrev pub claimed_total : List ℕ → ℕ
claimed_total bytes = 16 + claimed_ext bytes + claimed_payload bytes

-- On any buffer a call of the parser leaves the buffer as it was and gives no packet; or leaves
-- it as it was and reports an overflow, when a claimed length is too large; or, when the claimed
-- packet is in the buffer and its payload is at most 1 MiB, takes exactly the claimed bytes off
-- its front.
pub parse_progress :
    (m : BytesMutCapacity) (b : OptimizedReadBuffer)
    → (try_parse_next_packet m b ≡ (b, ok none))
      ⊎ ((try_parse_next_packet m b ≡ (b, err buffer_overflow))
          × ((1048576 < claimed_payload b.buffer) ⊎ (65536 < claimed_ext b.buffer)))
      ⊎ (((try_parse_next_packet m b).0.buffer ≡ drop (claimed_total b.buffer) b.buffer)
          × (claimed_total b.buffer ≤ length b.buffer)
          × (claimed_payload b.buffer ≤ 1048576))
unfolding try_parse_next_packet
parse_progress m b = ground (arith, split_packet-drop m b (claimed_total b.buffer))
