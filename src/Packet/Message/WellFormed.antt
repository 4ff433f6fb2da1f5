-- ===== src/Packet/Message/WellFormed.antt =====
-- The packets that the constructors and setters of Packet (src/packet.rs) build.
use msgtrans_rust.Base.{ℕ, ◌<◌, ◌≡◌, arith, Bool, List, length}
use msgtrans_rust.Packet.Flags.Laws.{view-with_fragmented, view-with_priority, view-with_route_tag}
use msgtrans_rust.Packet.Header
use msgtrans_rust.Packet.Header.{PacketType, CompressionType}
use msgtrans_rust.Packet.Header.RoundTrip.{IsValid}
use msgtrans_rust.Packet.Message.{
  Packet, new, one_way, request, response, set_payload, set_ext_header, set_message_id,
  set_packet_type, set_compression, set_biz_type, set_fragmented, set_priority, set_route_tag,
}

-- A header in range whose lengths are those of the two parts.
pub record IsWellFormed (p : Packet) : Type 0 where
  pub valid : IsValid p.header
  pub ext_counted : p.header.ext_header_len ≡ length p.ext_header
  pub payload_counted : p.header.payload_len ≡ length p.payload

new-IsWellFormed : (t : PacketType) (id : ℕ) → id < 4294967296 → IsWellFormed (new t id)
unfolding new
new-IsWellFormed t id h = ground arith

set_payload-IsWellFormed :
    (p : Packet) (payload : List ℕ)
    → length payload < 4294967296
    → IsWellFormed p
    → IsWellFormed (set_payload p payload)
unfolding set_payload
set_payload-IsWellFormed p payload h w = ground arith

-- The three constructors with a u32 id and a payload of fewer than 2^32 bytes give a well-formed
-- packet of their type.
pub build-IsWellFormed :
    (id : ℕ) (payload : List ℕ)
    → id < 4294967296
    → length payload < 4294967296
    → (IsWellFormed (one_way id payload)
        × ((one_way id payload).header.packet_type ≡ Header.one_way))
      × (IsWellFormed (request id payload)
          × ((request id payload).header.packet_type ≡ Header.request))
      × (IsWellFormed (response id payload)
          × ((response id payload).header.packet_type ≡ Header.response))
unfolding one_way request response
build-IsWellFormed id payload h n = ground arith

-- A call of one of the setters.
pub data Setter : Type 0 where
  payload ext_header : List ℕ → Setter
  message_id biz_type : ℕ → Setter
  packet_type : PacketType → Setter
  compression : CompressionType → Setter
  fragmented priority route_tag : Bool → Setter

abbrev pub apply : Setter → Packet → Packet
apply (payload v) p = set_payload p v
apply (ext_header v) p = set_ext_header p v
apply (message_id v) p = set_message_id p v
apply (biz_type v) p = set_biz_type p v
apply (packet_type v) p = set_packet_type p v
apply (compression v) p = set_compression p v
apply (fragmented v) p = set_fragmented p v
apply (priority v) p = set_priority p v
apply (route_tag v) p = set_route_tag p v

abbrev pub InRange : Setter → Type 0
InRange (payload v) = length v < 4294967296
InRange (ext_header v) = length v < 65536
InRange (message_id v) = v < 4294967296
InRange (biz_type v) = v < 256
InRange _ = Unit

-- Every setter whose argument is in range keeps a packet well formed: a payload shorter than 2^32,
-- an extended header shorter than 2^16, a u32 id, a u8 business type, any type or flag.
pub apply-IsWellFormed :
    (s : Setter) (p : Packet) → InRange s → IsWellFormed p → IsWellFormed (apply s p)
unfolding set_payload set_ext_header set_message_id set_biz_type set_packet_type set_compression
    set_fragmented set_priority set_route_tag
apply-IsWellFormed (fragmented v) p h w = ground (arith, view-with_fragmented p.header.reserved v)
apply-IsWellFormed (priority v) p h w = ground (arith, view-with_priority p.header.reserved v)
apply-IsWellFormed (route_tag v) p h w = ground (arith, view-with_route_tag p.header.reserved v)
apply-IsWellFormed s p h w = ground arith
