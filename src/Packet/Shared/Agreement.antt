-- ===== src/Packet/Shared/Agreement.antt =====
-- The zero-copy codec of src/packet.rs against the copying one.
use msgtrans_rust.Base.{ℕ, ◌≡◌, ◌≢◌, refl, arith, List, map_ok}
use msgtrans_rust.Packet.Header
use msgtrans_rust.Packet.Header.{PacketType, FixedHeader}
use msgtrans_rust.Packet.Message
use msgtrans_rust.Packet.Message.{Packet, read_ext_header, read_payload, read_parts}
use msgtrans_rust.Packet.Shared.{
  SharedPacket, one_way, request, response, set_ext_header_zerocopy, to_bytes_zerocopy,
  slice_ext_header, slice_payload, from_bytes_zerocopy, to_shared, from_shared,
  packet_to_bytes_zerocopy, packet_from_bytes_zerocopy, arc_new, arc_from_bytes_zerocopy,
}

slice_ext_header_agrees :
    (bytes : List ℕ) (h : FixedHeader) → slice_ext_header bytes h ≡ read_ext_header bytes h 16
unfolding slice_ext_header read_ext_header
slice_ext_header_agrees bytes h = ground arith

slice_payload_agrees :
    (bytes : List ℕ) (h : FixedHeader) (offset : ℕ)
    → slice_payload bytes h offset ≡ read_payload bytes h offset
unfolding slice_payload read_payload
slice_payload_agrees bytes h offset = ground arith

-- On every input the zero-copy decoders of SharedPacket, of arc_packet and of Packet give the
-- same packet as `Packet::from_bytes`, up to the conversion, or the same error.
pub from_bytes_agree :
    (bytes : List ℕ)
    → (from_bytes_zerocopy bytes ≡ map_ok to_shared (Message.from_bytes bytes))
      × (arc_from_bytes_zerocopy bytes ≡ map_ok to_shared (Message.from_bytes bytes))
      × (packet_from_bytes_zerocopy bytes ≡ Message.from_bytes bytes)
unfolding from_bytes_zerocopy packet_from_bytes_zerocopy Message.from_bytes arc_from_bytes_zerocopy
    read_parts to_shared
from_bytes_agree bytes = simp (slice_ext_header_agrees, slice_payload_agrees) (ground arith)

-- The encoders write the same bytes, and the conversions lose nothing.
pub to_bytes_agree :
    (p : Packet) (s : SharedPacket)
    → (to_bytes_zerocopy (to_shared p) ≡ Message.to_bytes p)
      × (packet_to_bytes_zerocopy p ≡ Message.to_bytes p)
      × (from_shared (to_shared p) ≡ p)
      × (to_shared (from_shared s) ≡ s)
unfolding to_bytes_zerocopy packet_to_bytes_zerocopy Message.to_bytes to_shared from_shared
to_bytes_agree p s = (refl, refl, refl, refl)

-- The constructors and the setters of the lengths build what those of Packet build.
pub build_agree :
    (id : ℕ) (payload ext : List ℕ) (p : Packet)
    → (one_way id payload ≡ to_shared (Message.one_way id payload))
      × (request id payload ≡ to_shared (Message.request id payload))
      × (response id payload ≡ to_shared (Message.response id payload))
      × (set_ext_header_zerocopy (to_shared p) ext ≡ to_shared (Message.set_ext_header p ext))
unfolding one_way request response Message.one_way Message.request Message.response
    set_ext_header_zerocopy Message.set_ext_header to_shared
build_agree id payload ext p = (refl, refl, refl, refl)

-- `arc_packet::new` gives a one-way packet whatever type it is asked for, so the packet has another
-- type than was asked for whenever that is a request or a response.
pub arc_new_ignores_type :
    (t : PacketType) (id : ℕ) (payload : List ℕ)
    → t ≢ Header.one_way
    → (arc_new t id payload).header.packet_type ≢ t
unfolding arc_new Header.new
arc_new_ignores_type t id payload h = ground arith
