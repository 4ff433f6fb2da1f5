-- ===== src/Packet/Shared.antt =====
-- src/packet.rs, SharedPacket, the zero-copy methods of Packet, and arc_packet. `Bytes`, `BytesMut`
-- and `Vec<u8>` hold byte lists; sharing a buffer is no difference in value.
pub mod Agreement
use msgtrans_rust.Base.{
  ℕ, ◌+◌, ◌%◌, List, [], ◌++◌, ltb, ◌==◌, if◌then◌else◌, length, slice, Result, ok, err, ◌>>=◌,
}
use msgtrans_rust.Packet.Header
use msgtrans_rust.Packet.Header.{
  FixedHeader, PacketType, CompressionType, PacketError, invalid_packet,
}
use msgtrans_rust.Packet.Message.{Packet}

pub record SharedPacket : Type 0 where
  pub header : FixedHeader
  pub ext_header : List ℕ
  pub payload : List ℕ

unfoldable pub new : PacketType → ℕ → SharedPacket
new packet_type message_id = record {
  header = Header.new packet_type message_id;
  ext_header = [];
  payload = [];
}

unfoldable pub set_payload_zerocopy : SharedPacket → List ℕ → SharedPacket
set_payload_zerocopy p payload = record p {
  payload = payload;
  header = record (p.header) { payload_len = length payload % 4294967296 };
}

unfoldable pub set_ext_header_zerocopy : SharedPacket → List ℕ → SharedPacket
set_ext_header_zerocopy p ext_header = record p {
  ext_header = ext_header;
  header = record (p.header) { ext_header_len = length ext_header % 65536 };
}

unfoldable pub set_message_id : SharedPacket → ℕ → SharedPacket
set_message_id p message_id = record p { header = record (p.header) { message_id = message_id } }

unfoldable pub set_packet_type : SharedPacket → PacketType → SharedPacket
set_packet_type p packet_type = record p {
  header = record (p.header) { packet_type = packet_type };
}

unfoldable pub set_compression : SharedPacket → CompressionType → SharedPacket
set_compression p compression = record p {
  header = record (p.header) { compression = compression };
}

unfoldable pub set_biz_type : SharedPacket → ℕ → SharedPacket
set_biz_type p biz_type = record p { header = record (p.header) { biz_type = biz_type } }

unfoldable pub one_way : ℕ → List ℕ → SharedPacket
unfolding new set_payload_zerocopy
one_way message_id payload = set_payload_zerocopy (new Header.one_way message_id) payload

unfoldable pub request : ℕ → List ℕ → SharedPacket
unfolding new set_payload_zerocopy
request message_id payload = set_payload_zerocopy (new Header.request message_id) payload

unfoldable pub response : ℕ → List ℕ → SharedPacket
unfolding new set_payload_zerocopy
response message_id payload = set_payload_zerocopy (new Header.response message_id) payload

-- SharedPacket::to_bytes_zerocopy.
unfoldable pub to_bytes_zerocopy : SharedPacket → List ℕ
to_bytes_zerocopy p =
    let buf = Header.to_bytes p.header in
    let buf' = if length p.ext_header == 0 then buf else buf ++ p.ext_header in buf' ++ p.payload

unfoldable pub slice_ext_header : List ℕ → FixedHeader → Result (List ℕ × ℕ) PacketError
slice_ext_header bytes header =
    if header.ext_header_len == 0
    then ok ([], 16)
    else if ltb (length bytes) (16 + header.ext_header_len)
    then err (invalid_packet "Extended header incomplete")
    else ok (slice 16 (16 + header.ext_header_len) bytes, 16 + header.ext_header_len)

unfoldable pub slice_payload : List ℕ → FixedHeader → ℕ → Result (List ℕ) PacketError
slice_payload bytes header offset =
    if header.payload_len == 0
    then ok []
    else if ltb (length bytes) (offset + header.payload_len)
    then err (invalid_packet "Payload incomplete")
    else ok (slice offset (offset + header.payload_len) bytes)

-- SharedPacket::from_bytes_zerocopy.
unfoldable pub from_bytes_zerocopy : List ℕ → Result SharedPacket PacketError
from_bytes_zerocopy bytes =
    if ltb (length bytes) 16 then err (invalid_packet "Packet too short") else do
      header ← Header.from_bytes (slice 0 16 bytes)
      (ext_header, offset) ← slice_ext_header bytes header
      payload ← slice_payload bytes header offset
      ok (record { header = header; ext_header = ext_header; payload = payload })

-- Packet::to_shared, and the conversion of a Packet by value.
unfoldable pub to_shared : Packet → SharedPacket
to_shared p = record { header = p.header; ext_header = p.ext_header; payload = p.payload }

-- Packet::from_shared, and the conversion of a SharedPacket by value.
unfoldable pub from_shared : SharedPacket → Packet
from_shared s = record { header = s.header; ext_header = s.ext_header; payload = s.payload }

-- Packet::to_bytes_zerocopy.
unfoldable pub packet_to_bytes_zerocopy : Packet → List ℕ
packet_to_bytes_zerocopy p =
    let buf = Header.to_bytes p.header in
    let buf' = if length p.ext_header == 0 then buf else buf ++ p.ext_header in buf' ++ p.payload

-- Packet::from_bytes_zerocopy.
unfoldable pub packet_from_bytes_zerocopy : List ℕ → Result Packet PacketError
packet_from_bytes_zerocopy bytes =
    if ltb (length bytes) 16 then err (invalid_packet "Packet too short") else do
      header ← Header.from_bytes (slice 0 16 bytes)
      (ext_header, offset) ← slice_ext_header bytes header
      payload ← slice_payload bytes header offset
      ok (record { header = header; ext_header = ext_header; payload = payload })

-- arc_packet::new, whose first argument is `_packet_type`.
unfoldable pub arc_new : PacketType → ℕ → List ℕ → SharedPacket
unfolding one_way
arc_new packet_type message_id payload = one_way message_id payload

-- arc_packet::from_bytes_zerocopy; an Arc is its value.
unfoldable pub arc_from_bytes_zerocopy : List ℕ → Result SharedPacket PacketError
arc_from_bytes_zerocopy bytes = do packet ← from_bytes_zerocopy bytes; ok packet

-- arc_packet::from_packet.
unfoldable pub arc_from_packet : Packet → SharedPacket
unfolding to_shared
arc_from_packet packet = to_shared packet
