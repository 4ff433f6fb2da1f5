-- ===== src/Packet/Header/RoundTrip.antt =====
-- FixedHeader::to_bytes against FixedHeader::from_bytes (src/packet.rs).
use msgtrans_rust.Base.{
  ℕ, ◌<◌, ◌≤◌, ◌≡◌, ◌⊎◌, ◌≢◌, refl, arith, List, ◌∷◌, length, take, All, All-get_or, ok, err,
}
use msgtrans_rust.Packet.Flags.{raw, from_raw}
use msgtrans_rust.Packet.Header.{
  FixedHeader, PacketType, CompressionType, one_way, request, response, uncompressed, zstd, zlib,
  packet_type_of, packet_type_byte, compression_of, compression_byte, byte, fields, to_bytes,
  from_bytes, invalid_header, unsupported_version,
}

abbrev pub IsByte : ℕ → Type 0
IsByte b = b < 256

-- The ranges of the fields, and the one version that the code reads.
pub record IsValid (h : FixedHeader) : Type 0 where
  pub version_one : h.version ≡ 1
  pub biz_type_u8 : h.biz_type < 256
  pub message_id_u32 : h.message_id < 4294967296
  pub ext_header_len_u16 : h.ext_header_len < 65536
  pub payload_len_u32 : h.payload_len < 4294967296
  pub reserved_u16 : h.reserved.bits < 65536

pub length-to_bytes : (h : FixedHeader) → length (to_bytes h) ≡ 16
unfolding to_bytes
length-to_bytes h = refl

compression_of-compression_byte : (c : CompressionType) → compression_of (compression_byte c) ≡ c
unfolding compression_of compression_byte
compression_of-compression_byte uncompressed = refl
compression_of-compression_byte zstd = refl
compression_of-compression_byte zlib = refl

packet_type_of-packet_type_byte : (t : PacketType) → packet_type_of (packet_type_byte t) ≡ t
unfolding packet_type_of packet_type_byte
packet_type_of-packet_type_byte one_way = refl
packet_type_of-packet_type_byte request = refl
packet_type_of-packet_type_byte response = refl

-- A header with fields in range and version 1 is read back from its 16 bytes.
pub from_bytes-to_bytes : (h : FixedHeader) → IsValid h → from_bytes (to_bytes h) ≡ ok h
unfolding from_bytes fields to_bytes raw from_raw
from_bytes-to_bytes h v = ground (
  arith,
  compression_of-compression_byte h.compression,
  packet_type_of-packet_type_byte h.packet_type,
)

fields-IsValid : (bytes : List ℕ) → All IsByte bytes → byte bytes 0 ≡ 1 → IsValid (fields bytes)
unfolding fields from_raw
fields-IsValid bytes all v =
    let at = λ (i : ℕ). All-get_or IsByte bytes i 0 all (omega arith) in
    record {
      version_one = v;
      biz_type_u8 = at 3;
      message_id_u32 = omega (arith, at 4, at 5, at 6, at 7);
      ext_header_len_u16 = omega (arith, at 8, at 9);
      payload_len_u32 = omega (arith, at 10, at 11, at 12, at 13);
      reserved_u16 = omega (arith, at 14, at 15);
    }

-- `from_bytes` fails on fewer than 16 bytes, then on a version byte other than 1, and on nothing
-- else; what it reads from bytes has all its fields in range.
pub from_bytes_total :
    (bytes : List ℕ)
    → All IsByte bytes
    → ((length bytes < 16) × (from_bytes bytes ≡ err (invalid_header "Header too short")))
      ⊎ ((16 ≤ length bytes)
          × (byte bytes 0 ≢ 1)
          × (from_bytes bytes ≡ err (unsupported_version (byte bytes 0))))
      ⊎ ((16 ≤ length bytes)
          × (byte bytes 0 ≡ 1)
          × (from_bytes bytes ≡ ok (fields bytes))
          × IsValid (fields bytes))
unfolding from_bytes
from_bytes_total bytes all = ground (arith, fields-IsValid bytes all)

compression_byte-compression_of : (b : ℕ) → b ≤ 2 → compression_byte (compression_of b) ≡ b
unfolding compression_of compression_byte
compression_byte-compression_of b h = ground arith

packet_type_byte-packet_type_of : (b : ℕ) → b ≤ 2 → packet_type_byte (packet_type_of b) ≡ b
unfolding packet_type_of packet_type_byte
packet_type_byte-packet_type_of b h = ground arith

to_bytes-fields :
    (bytes : List ℕ)
    → All IsByte bytes
    → 16 ≤ length bytes
    → byte bytes 1 ≤ 2
    → byte bytes 2 ≤ 2
    → to_bytes (fields bytes) ≡ take 16 bytes
unfolding fields to_bytes raw from_raw
to_bytes-fields
      (b0 ∷ b1 ∷ b2 ∷ b3 ∷ b4 ∷ b5 ∷ b6 ∷ b7 ∷ b8 ∷ b9 ∷ b10 ∷ b11 ∷ b12 ∷ b13 ∷ b14 ∷ b15 ∷ rest)
      all n hc ht =
    ground (arith, compression_byte-compression_of b1 hc, packet_type_byte-packet_type_of b2 ht)
to_bytes-fields _ all n hc ht = absurd (omega arith)

-- The bytes of a header are recovered from what `from_bytes` made of them, unless the compression
-- or the packet type byte is none of the defined ones, which are read as 0.
pub to_bytes-from_bytes :
    (bytes : List ℕ) (h : FixedHeader)
    → All IsByte bytes
    → byte bytes 1 ≤ 2
    → byte bytes 2 ≤ 2
    → from_bytes bytes ≡ ok h
    → to_bytes h ≡ take 16 bytes
unfolding from_bytes
to_bytes-from_bytes bytes h all hc ht e = ground (arith, to_bytes-fields bytes all)
