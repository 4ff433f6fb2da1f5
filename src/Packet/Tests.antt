-- ===== src/Packet/Tests.antt =====
-- The packet layer at concrete packets.
use msgtrans_rust.Base.{
  ℕ, ◌<◌, ◌≤◌, ◌≡◌, ◌≢◌, refl, arith, true, List, [], ◌∷◌, ◌++◌, length, take, replicate,
  length-replicate, All, leb, if◌then◌else◌, ok, err, ◌>>=◌, map_ok,
}
use msgtrans_rust.Packet.Flags.{ReservedFlags, raw}
use msgtrans_rust.Packet.Header
use msgtrans_rust.Packet.Header.{
  FixedHeader, PacketType, CompressionType, uncompressed, zstd, invalid_header, invalid_packet,
  unsupported_version, compression_error, byte, fields,
}
use msgtrans_rust.Packet.Header.RoundTrip.{IsByte, IsValid}
use msgtrans_rust.Packet.Message.{Packet, to_bytes, from_bytes, total_len, set_ext_header}
use msgtrans_rust.Packet.Message.WellFormed.{IsWellFormed}
use msgtrans_rust.Packet.Message.RoundTrip.{from_bytes-to_bytes_packet}
use msgtrans_rust.Packet.Message.Decode.{from_bytes_sound, to_bytes-from_bytes_packet}
use msgtrans_rust.Packet.Message.Truncation.{
  missing, misread, from_bytes-take, set_ext_header_truncates,
}
use msgtrans_rust.Packet.Shared.{
  to_shared, from_bytes_zerocopy, packet_from_bytes_zerocopy, arc_from_bytes_zerocopy,
}
use msgtrans_rust.Packet.Shared.Agreement.{from_bytes_agree}
use msgtrans_rust.Packet.Compress.{Codecs, compress_data, compress_payload, decompress_payload}
use msgtrans_rust.Packet.Compress.RoundTrip.{Documented, receive-send}
use msgtrans_rust.Packet.Ids.{u32_max}
use msgtrans_rust.Packet.Ids.Threads.{Threads, IsSound}

-- A request with an extended header, a priority flag and three payload bytes.
abbrev pub hello_header : FixedHeader
hello_header = record {
  version = 1;
  compression = uncompressed;
  packet_type = Header.request;
  biz_type = 4;
  message_id = 70000;
  ext_header_len = 2;
  payload_len = 3;
  reserved = record { bits = 2 };
}

abbrev pub hello : Packet
hello = record { header = hello_header; ext_header = 9 ∷ 8 ∷ []; payload = 1 ∷ 2 ∷ 3 ∷ [] }

pub hello-IsValid : IsValid hello_header
hello-IsValid = ground arith

pub hello_well : IsWellFormed hello
hello_well = record { valid = hello-IsValid; ext_counted = refl; payload_counted = refl }

abbrev hello_bytes : List ℕ
hello_bytes =
    1 ∷ 0 ∷ 1 ∷ 4 ∷ 0 ∷ 1 ∷ 17 ∷ 112 ∷ 0 ∷ 2 ∷ 0 ∷ 0 ∷ 0 ∷ 3 ∷ 0 ∷ 2 ∷ 9 ∷ 8 ∷ 1 ∷ 2 ∷ 3 ∷ []

hello_bytes_are : All IsByte hello_bytes
hello_bytes_are = ground arith

decodes : from_bytes hello_bytes ≡ ok hello
unfolding to_bytes Header.to_bytes Header.compression_byte Header.packet_type_byte raw
decodes = from_bytes-to_bytes_packet hello [] hello_well

from_bytes-to_bytes_packet_example : from_bytes (to_bytes hello ++ (255 ∷ [])) ≡ ok hello
from_bytes-to_bytes_packet_example = from_bytes-to_bytes_packet hello (255 ∷ []) hello_well

from_bytes_sound_example :
    IsWellFormed hello
    × All IsByte hello.ext_header
    × All IsByte hello.payload
    × (total_len hello ≤ length hello_bytes)
from_bytes_sound_example = from_bytes_sound hello_bytes hello hello_bytes_are decodes

to_bytes-from_bytes_packet_example : to_bytes hello ≡ take (total_len hello) hello_bytes
to_bytes-from_bytes_packet_example =
    to_bytes-from_bytes_packet hello_bytes hello hello_bytes_are (omega arith) (omega arith) decodes

twenty_short : 20 < total_len hello
unfolding total_len
twenty_short = omega arith

from_bytes-take_example :
    from_bytes (take 20 (to_bytes hello)) ≡ err (invalid_packet (missing hello 20))
from_bytes-take_example = from_bytes-take hello 20 hello_well twenty_short

-- Bytes in a number that is not computed with.
unfoldable blank : ℕ → List ℕ
blank n = replicate n 0

length-blank : (n : ℕ) → length (blank n) ≡ n
unfolding blank
length-blank n = length-replicate {A = ℕ} n 0

-- An extended header whose length is lost as a whole.
abbrev long_ext : List ℕ
long_ext = blank 65536

long_ext_long : 65536 ≤ length long_ext
long_ext_long = omega (arith, length-blank 65536)

set_ext_header_truncates_example :
    (from_bytes (to_bytes (set_ext_header hello long_ext)) ≡ ok (misread hello long_ext))
    × ((misread hello long_ext).ext_header ≢ long_ext)
set_ext_header_truncates_example = set_ext_header_truncates hello long_ext hello_well long_ext_long

abbrev two : ReservedFlags
two = record { bits = 2 }

from_bytes_agree_example :
    (from_bytes_zerocopy hello_bytes ≡ map_ok to_shared (from_bytes hello_bytes))
    × (arc_from_bytes_zerocopy hello_bytes ≡ map_ok to_shared (from_bytes hello_bytes))
    × (packet_from_bytes_zerocopy hello_bytes ≡ from_bytes hello_bytes)
from_bytes_agree_example = from_bytes_agree hello_bytes

-- Codecs that keep the bytes as they are, with the bound of zstd's decoder.
abbrev pub keeping : Codecs
keeping = record {
  flate2_enabled = true;
  zlib_encode = λ plain. ok plain;
  zlib_decode = λ packed. ok packed;
  zstd_enabled = true;
  zstd_compress = λ plain level. ok plain;
  zstd_decompress = λ packed bound. if leb (length packed) bound then ok packed else err "too long";
}

pub keeping-Documented : Documented keeping
keeping-Documented = record {
  zlib_inverse = λ plain packed e. ground arith;
  zstd_inverse = λ plain packed level bound e h. ground arith;
  zstd_bound = λ plain packed level bound e h. ("too long", ground arith);
}

-- `hello` to be compressed with zstd.
abbrev packable : Packet
packable = record hello { header = record hello_header { compression = zstd } }

packable_well : IsWellFormed packable
packable_well = ground arith

packable_packed : compress_payload keeping packable ≡ ok packable
unfolding compress_payload compress_data
packable_packed = ground arith

receive-send_example :
    (from_bytes (to_bytes packable ++ (4 ∷ [])) >>= decompress_payload keeping) ≡ ok packable
receive-send_example =
    receive-send keeping keeping-Documented packable packable packable_well packable_packed (4 ∷ [])
      (omega arith) (omega arith)

abbrev bulky : Packet
bulky = record packable {
  header = record hello_header { compression = zstd; payload_len = 1048577 };
  payload = blank 1048577;
}

bulky_length : length bulky.payload ≡ 1048577
bulky_length = length-blank 1048577

bulky_well : IsWellFormed bulky
bulky_well = ground (arith, bulky_length)

bulky_packed : compress_payload keeping bulky ≡ ok bulky
unfolding compress_payload compress_data
bulky_packed = ground (arith, bulky_length)

abbrev at_max : Threads
at_max = record { counter = u32_max; storing = 0; handed = [] }

at_max-IsSound : IsSound at_max
at_max-IsSound = ground arith
