-- ===== src/Packet/Compress.antt =====
-- src/packet.rs, compress_payload and decompress_payload. The crates flate2 and zstd are a
-- parameter; each is there or not by a build feature. A failed call leaves the packet as it was.
pub mod RoundTrip
use msgtrans_rust.Base.{
  ℕ, ◌+◌, ◌*◌, ◌%◌, String, Bool, true, false, List, if◌then◌else◌, length, Result, ok, err,
  map_err, ◌>>=◌,
}
use msgtrans_rust.Packet.Header.{
  CompressionType, PacketError, uncompressed, zstd, zlib, compression_error,
  unsupported_compression,
}
use msgtrans_rust.Packet.Message.{Packet}

-- What the code calls of the two crates; `zstd::bulk::decompress` takes a bound on its output.
pub record Codecs : Type 0 where
  pub flate2_enabled : Bool
  pub zlib_encode : List ℕ → Result (List ℕ) String
  pub zlib_decode : List ℕ → Result (List ℕ) String
  pub zstd_enabled : Bool
  pub zstd_compress : List ℕ → ℕ → Result (List ℕ) String
  pub zstd_decompress : List ℕ → ℕ → Result (List ℕ) String

-- `compression == CompressionType::None`.
is_none : CompressionType → Bool
is_none uncompressed = true
is_none _ = false

-- A new payload, and its length in the header.
abbrev pub replace_payload : Packet → List ℕ → Packet
replace_payload p payload = record p {
  payload = payload;
  header = record (p.header) { payload_len = length payload % 4294967296 };
}

module _ (c : Codecs) where
  unfoldable pub compress_data : List ℕ → CompressionType → Result (List ℕ) PacketError
  compress_data bytes uncompressed = ok bytes
  compress_data bytes zlib =
      if c.flate2_enabled
      then map_err compression_error (c.zlib_encode bytes)
      else err (unsupported_compression "flate2 feature not enabled")
  compress_data bytes zstd =
      if c.zstd_enabled
      then map_err compression_error (c.zstd_compress bytes 3)
      else err (unsupported_compression "zstd feature not enabled")

  unfoldable pub decompress_data : List ℕ → CompressionType → Result (List ℕ) PacketError
  decompress_data bytes uncompressed = ok bytes
  decompress_data bytes zlib =
      if c.flate2_enabled
      then map_err compression_error (c.zlib_decode bytes)
      else err (unsupported_compression "flate2 feature not enabled")
  decompress_data bytes zstd =
      if c.zstd_enabled
      then map_err compression_error (c.zstd_decompress bytes (1024 * 1024))
      else err (unsupported_compression "zstd feature not enabled")

  unfoldable pub compress_payload : Packet → Result Packet PacketError
  unfolding is_none
  compress_payload p =
      let compression = p.header.compression in
      if is_none compression
      then ok p
      else do payload ← compress_data p.payload compression; ok (replace_payload p payload)

  unfoldable pub decompress_payload : Packet → Result Packet PacketError
  unfolding is_none
  decompress_payload p =
      let compression = p.header.compression in
      if is_none compression
      then ok p
      else do payload ← decompress_data p.payload compression; ok (replace_payload p payload)
