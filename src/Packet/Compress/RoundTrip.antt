-- ===== src/Packet/Compress/RoundTrip.antt =====
-- Compressed packets of src/packet.rs, from the sender's `compress_payload` and `to_bytes` to the
-- receiver's `from_bytes` and `decompress_payload`.
use msgtrans_rust.Base.{ℕ, ◌<◌, ◌≤◌, ◌≡◌, arith, String, List, ◌++◌, length, ok, err, ◌>>=◌}
use msgtrans_rust.Packet.Header.{zstd, compression_error}
use msgtrans_rust.Packet.Message.{Packet, to_bytes, from_bytes}
use msgtrans_rust.Packet.Message.WellFormed.{IsWellFormed}
use msgtrans_rust.Packet.Message.RoundTrip.{from_bytes-to_bytes_packet}
use msgtrans_rust.Packet.Compress.{
  Codecs, compress_data, decompress_data, compress_payload, decompress_payload,
}

-- What the crates document: a decoder reverses its encoder, and zstd's bulk decoder fails when the
-- data is longer than the bound that it was given.
pub record Documented (c : Codecs) : Type 0 where
  pub zlib_inverse :
      (plain packed : List ℕ) → c.zlib_encode plain ≡ ok packed → c.zlib_decode packed ≡ ok plain
  pub zstd_inverse :
      (plain packed : List ℕ) (level bound : ℕ)
      → c.zstd_compress plain level ≡ ok packed
      → length plain ≤ bound
      → c.zstd_decompress packed bound ≡ ok plain
  pub zstd_bound :
      (plain packed : List ℕ) (level bound : ℕ)
      → c.zstd_compress plain level ≡ ok packed
      → bound < length plain
      → (reason : String) × (c.zstd_decompress packed bound ≡ err reason)

-- A compressed payload that fits its length field keeps the packet well formed.
pub compress-IsWellFormed :
    (c : Codecs) (p q : Packet)
    → IsWellFormed p
    → compress_payload c p ≡ ok q
    → length q.payload < 4294967296
    → IsWellFormed q
unfolding compress_payload compress_data
compress-IsWellFormed c p q w packed fits = ground arith

module _ (c : Codecs) (d : Documented c) (p q : Packet) (w : IsWellFormed p)
    (packed : compress_payload c p ≡ ok q) where
  -- With codecs that do what they document, a well-formed packet of at most 1 MiB of payload that
  -- `compress_payload` turned into `q` is what `decompress_payload` makes of `q`.
  pub decompress-compress : length p.payload ≤ 1048576 → decompress_payload c q ≡ ok p
  unfolding compress_payload decompress_payload compress_data decompress_data
  decompress-compress small = ground (
    arith,
    packed,
    w,
    d.zlib_inverse p.payload q.payload,
    d.zstd_inverse p.payload q.payload 3 1048576,
  )

  -- With codecs that do what they document, a well-formed packet of at most 1 MiB of payload that
  -- was compressed, to fewer than 2^32 bytes, is recovered by `from_bytes` and
  -- `decompress_payload` from the bytes of the compressed packet, whatever bytes follow them.
  pub receive-send :
      (rest : List ℕ)
      → length p.payload ≤ 1048576
      → length q.payload < 4294967296
      → (from_bytes (to_bytes q ++ rest) >>= decompress_payload c) ≡ ok p
  receive-send rest small fits =
      rw (from_bytes-to_bytes_packet q rest q_valid) (decompress-compress small)
    where
      q_valid : IsWellFormed q
      q_valid = compress-IsWellFormed c p q w packed fits

  -- With codecs that do what they document, a well-formed packet of more than 1 MiB of payload
  -- that `compress_payload` compressed with zstd is refused by `decompress_payload` with a
  -- compression error.
  pub decompress_too_long :
      p.header.compression ≡ zstd
      → 1048576 < length p.payload
      → (reason : String) × (decompress_payload c q ≡ err (compression_error reason))
  unfolding compress_payload decompress_payload compress_data decompress_data
  decompress_too_long z long =
      let ran : c.zstd_compress p.payload 3 ≡ ok q.payload = ground arith in
      let (reason, e) = d.zstd_bound p.payload q.payload 3 1048576 ran long in
      (reason, ground arith)
