-- ===== src/Packet/Message.antt =====
-- src/packet.rs, Packet: header, extended header and payload, with the setters and the codec.
-- `as u16` and `as u32` on a length are taken modulo 2^16 and 2^32; usize does not overflow here.
pub mod WellFormed
pub mod RoundTrip
pub mod Decode
pub mod Truncation
use msgtrans_rust.Base.{
  ℕ, ◌+◌, ◌%◌, Bool, List, [], ◌++◌, ltb, ◌==◌, if◌then◌else◌, length, slice, Result, ok, err,
  ◌>>=◌,
}
use msgtrans_rust.Packet.Flags
use msgtrans_rust.Packet.Header
use msgtrans_rust.Packet.Header.{
  FixedHeader, PacketType, CompressionType, PacketError, invalid_packet,
}

pub record Packet : Type 0 where
  pub header : FixedHeader
  pub ext_header : List ℕ
  pub payload : List ℕ

unfoldable pub new : PacketType → ℕ → Packet
unfolding Header.new Flags.new
new packet_type message_id = record {
  header = Header.new packet_type message_id;
  ext_header = [];
  payload = [];
}

unfoldable pub set_payload : Packet → List ℕ → Packet
set_payload p payload = record p {
  payload = payload;
  header = record (p.header) { payload_len = length payload % 4294967296 };
}

unfoldable pub set_ext_header : Packet → List ℕ → Packet
set_ext_header p ext_header = record p {
  ext_header = ext_header;
  header = record (p.header) { ext_header_len = length ext_header % 65536 };
}

unfoldable pub one_way : ℕ → List ℕ → Packet
unfolding new set_payload
one_way message_id payload = set_payload (new Header.one_way message_id) payload

unfoldable pub request : ℕ → List ℕ → Packet
unfolding new set_payload
request message_id payload = set_payload (new Header.request message_id) payload

unfoldable pub response : ℕ → List ℕ → Packet
unfolding new set_payload
response message_id payload = set_payload (new Header.response message_id) payload

unfoldable pub set_message_id : Packet → ℕ → Packet
set_message_id p message_id = record p { header = record (p.header) { message_id = message_id } }

unfoldable pub set_packet_type : Packet → PacketType → Packet
set_packet_type p packet_type = record p {
  header = record (p.header) { packet_type = packet_type };
}

unfoldable pub set_compression : Packet → CompressionType → Packet
set_compression p compression = record p {
  header = record (p.header) { compression = compression };
}

unfoldable pub set_biz_type : Packet → ℕ → Packet
set_biz_type p biz_type = record p { header = record (p.header) { biz_type = biz_type } }

unfoldable pub set_fragmented : Packet → Bool → Packet
set_fragmented p fragmented = record p {
  header = record (p.header) { reserved = Flags.with_fragmented p.header.reserved fragmented };
}

unfoldable pub set_priority : Packet → Bool → Packet
set_priority p high_priority = record p {
  header = record (p.header) { reserved = Flags.with_priority p.header.reserved high_priority };
}

unfoldable pub set_route_tag : Packet → Bool → Packet
set_route_tag p has_route = record p {
  header = record (p.header) { reserved = Flags.with_route_tag p.header.reserved has_route };
}

unfoldable pub total_len : Packet → ℕ
total_len p = 16 + length p.ext_header + length p.payload

-- An empty extended header adds no bytes, so the source's `is_empty` test changes nothing but is
-- kept here.
unfoldable pub to_bytes : Packet → List ℕ
to_bytes p =
    (if length p.ext_header == 0
      then Header.to_bytes p.header
      else Header.to_bytes p.header ++ p.ext_header)
    ++ p.payload

-- The extended header and the offset behind it.
unfoldable pub read_ext_header : List ℕ → FixedHeader → ℕ → Result (List ℕ × ℕ) PacketError
read_ext_header bytes header offset =
    if ltb 0 header.ext_header_len
    then (let end = offset + header.ext_header_len in
        if ltb (length bytes) end
        then err (invalid_packet "Extended header incomplete")
        else ok (slice offset end bytes, end))
    else ok ([], offset)

unfoldable pub read_payload : List ℕ → FixedHeader → ℕ → Result (List ℕ) PacketError
read_payload bytes header offset =
    if ltb 0 header.payload_len
    then (let end = offset + header.payload_len in
        if ltb (length bytes) end
        then err (invalid_packet "Payload incomplete")
        else ok (slice offset end bytes))
    else ok []

-- The extended header and the payload, behind a header that has been read.
unfoldable pub read_parts : List ℕ → FixedHeader → Result Packet PacketError
read_parts bytes header = do
  (ext_header, offset) ← read_ext_header bytes header 16
  payload ← read_payload bytes header offset
  ok (record { header = header; ext_header = ext_header; payload = payload })

unfoldable pub from_bytes : List ℕ → Result Packet PacketError
from_bytes bytes =
    if ltb (length bytes) 16
    then err (invalid_packet "Packet too short")
    else Header.from_bytes (slice 0 16 bytes) >>= read_parts bytes
