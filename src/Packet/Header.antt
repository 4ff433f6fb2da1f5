-- ===== src/Packet/Header.antt =====
-- src/packet.rs, PacketType, CompressionType, PacketError and FixedHeader: the 16-byte header, all
-- numbers big endian. A byte slice is a list of numbers; a u16 or u32 keeps its value as a number.
pub mod RoundTrip
use msgtrans_rust.Base.{
  ℕ, ◌+◌, ◌*◌, ◌/◌, ◌%◌, String, Bool, not, List, [], ◌∷◌, ◌++◌, ltb, ◌==◌, if◌then◌else◌, length,
  get_or, Result, ok, err,
}
use msgtrans_rust.Packet.Flags.{ReservedFlags}
use msgtrans_rust.Packet.Flags

pub data PacketType : Type 0 where
  one_way request response : PacketType

-- `PacketType::from(u8)`.
unfoldable pub packet_type_of : ℕ → PacketType
packet_type_of value =
    if value == 0
    then one_way
    else if value == 1
    then request
    else if value == 2
    then response
    else one_way

-- `u8::from(PacketType)`.
unfoldable pub packet_type_byte : PacketType → ℕ
packet_type_byte one_way = 0
packet_type_byte request = 1
packet_type_byte response = 2

pub data CompressionType : Type 0 where
  uncompressed zstd zlib : CompressionType

-- `CompressionType::from(u8)`.
unfoldable pub compression_of : ℕ → CompressionType
compression_of value =
    if value == 0
    then uncompressed
    else if value == 1
    then zstd
    else if value == 2
    then zlib
    else uncompressed

-- `u8::from(CompressionType)`.
unfoldable pub compression_byte : CompressionType → ℕ
compression_byte uncompressed = 0
compression_byte zstd = 1
compression_byte zlib = 2

pub data PacketError : Type 0 where
  invalid_header invalid_packet : String → PacketError
  unsupported_version : ℕ → PacketError
  compression_error unsupported_compression serialization_error : String → PacketError

pub record FixedHeader : Type 0 where
  pub version : ℕ
  pub compression : CompressionType
  pub packet_type : PacketType
  pub biz_type : ℕ
  pub message_id : ℕ
  pub ext_header_len : ℕ
  pub payload_len : ℕ
  pub reserved : ReservedFlags

unfoldable pub new : PacketType → ℕ → FixedHeader
new packet_type message_id = record {
  version = 1;
  compression = uncompressed;
  packet_type = packet_type;
  biz_type = 0;
  message_id = message_id;
  ext_header_len = 0;
  payload_len = 0;
  reserved = Flags.new;
}

-- `to_be_bytes` and `from_be_bytes` of u16 and u32.
abbrev pub be16 : ℕ → List ℕ
be16 v = (v / 256 % 256) ∷ (v % 256) ∷ []

abbrev pub be32 : ℕ → List ℕ
be32 v = (v / 16777216 % 256) ∷ (v / 65536 % 256) ∷ (v / 256 % 256) ∷ (v % 256) ∷ []

abbrev pub of_be16 : ℕ → ℕ → ℕ
of_be16 a b = a * 256 + b

abbrev pub of_be32 : ℕ → ℕ → ℕ → ℕ → ℕ
of_be32 a b c d = a * 16777216 + b * 65536 + c * 256 + d

unfoldable pub to_bytes : FixedHeader → List ℕ
to_bytes h =
    h.version
    ∷ compression_byte h.compression
    ∷ packet_type_byte h.packet_type
    ∷ h.biz_type
    ∷ (be32 h.message_id
        ++ (be16 h.ext_header_len ++ (be32 h.payload_len ++ be16 (Flags.raw h.reserved))))

-- `bytes[i]`; every index used lies below the length that was tested.
abbrev pub byte : List ℕ → ℕ → ℕ
byte bytes i = get_or bytes i 0

-- The fields at their offsets.
unfoldable pub fields : List ℕ → FixedHeader
fields bytes = record {
  version = byte bytes 0;
  compression = compression_of (byte bytes 1);
  packet_type = packet_type_of (byte bytes 2);
  biz_type = byte bytes 3;
  message_id = of_be32 (byte bytes 4) (byte bytes 5) (byte bytes 6) (byte bytes 7);
  ext_header_len = of_be16 (byte bytes 8) (byte bytes 9);
  payload_len = of_be32 (byte bytes 10) (byte bytes 11) (byte bytes 12) (byte bytes 13);
  reserved = Flags.from_raw (of_be16 (byte bytes 14) (byte bytes 15));
}

unfoldable pub from_bytes : List ℕ → Result FixedHeader PacketError
from_bytes bytes =
    if ltb (length bytes) 16
    then err (invalid_header "Header too short")
    else if not (byte bytes 0 == 1)
    then err (unsupported_version (byte bytes 0))
    else ok (fields bytes)
