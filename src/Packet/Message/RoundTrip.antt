-- ===== src/Packet/Message/RoundTrip.antt =====
-- Packet::to_bytes against Packet::from_bytes (src/packet.rs).
use msgtrans_rust.Base.{
  ℕ, ◌+◌, ◌≡◌, refl, arith, List, [], ◌++◌, append_assoc, length, length-append, slice,
  slice_middle, ok,
}
use msgtrans_rust.Packet.Header
use msgtrans_rust.Packet.Header.{FixedHeader}
use msgtrans_rust.Packet.Header.RoundTrip.{length-to_bytes, from_bytes-to_bytes}
use msgtrans_rust.Packet.Message.{
  Packet, to_bytes, total_len, read_ext_header, read_payload, read_parts, from_bytes,
}
use msgtrans_rust.Packet.Message.WellFormed.{IsWellFormed}

nil_of_length {ℓ} : {A : Type ℓ} (xs : List A) → length xs ≡ 0 → xs ≡ []
nil_of_length xs h = ground arith

-- The three parts, one after the other.
pub to_bytes_parts :
    (p : Packet) → to_bytes p ≡ Header.to_bytes p.header ++ (p.ext_header ++ p.payload)
unfolding to_bytes
to_bytes_parts p = ground (
  arith,
  append_assoc (Header.to_bytes p.header) p.ext_header p.payload,
  nil_of_length p.ext_header,
)

pub length-to_bytes_packet : (p : Packet) → length (to_bytes p) ≡ total_len p
unfolding total_len
length-to_bytes_packet p = rw to_bytes_parts (
    omega (
      arith,
      length-to_bytes p.header,
      length-append (Header.to_bytes p.header) (p.ext_header ++ p.payload),
      length-append p.ext_header p.payload,
    ))

module _ (h : FixedHeader) (ext payload rest : List ℕ) where
  abbrev whole : List ℕ
  whole = Header.to_bytes h ++ (ext ++ (payload ++ rest))

  length-whole : length whole ≡ 16 + length ext + length payload + length rest
  length-whole = omega (
    arith,
    length-to_bytes h,
    length-append (Header.to_bytes h) (ext ++ (payload ++ rest)),
    length-append ext (payload ++ rest),
    length-append payload rest,
  )

  slice_header : slice 0 16 whole ≡ Header.to_bytes h
  slice_header =
      slice_middle [] (Header.to_bytes h) (ext ++ (payload ++ rest)) 0 16 refl
        (omega (arith, length-to_bytes h))

  slice_ext : slice 16 (16 + length ext) whole ≡ ext
  slice_ext =
      slice_middle (Header.to_bytes h) ext (payload ++ rest) 16 (16 + length ext)
        (omega (arith, length-to_bytes h)) (omega (arith, length-to_bytes h))

  slice_payload : slice (16 + length ext) (16 + length ext + length payload) whole ≡ payload
  slice_payload = rw (← append_assoc (Header.to_bytes h) ext (payload ++ rest)) (
      slice_middle (Header.to_bytes h ++ ext) payload rest (16 + length ext)
        (16 + length ext + length payload) count (omega (arith, count)))
    where
      count : 16 + length ext ≡ length (Header.to_bytes h ++ ext)
      count = omega (arith, length-to_bytes h, length-append (Header.to_bytes h) ext)

  read_ext_header-whole :
      h.ext_header_len ≡ length ext → read_ext_header whole h 16 ≡ ok (ext, 16 + length ext)
  unfolding read_ext_header
  read_ext_header-whole n = ground (arith, length-whole, slice_ext, nil_of_length ext)

  read_payload-whole :
      h.payload_len ≡ length payload → read_payload whole h (16 + length ext) ≡ ok payload
  unfolding read_payload
  read_payload-whole n = ground (arith, length-whole, slice_payload, nil_of_length payload)

-- A well-formed packet is read back from its bytes by `from_bytes`, whatever bytes follow them.
pub from_bytes-to_bytes_packet :
    (p : Packet) (rest : List ℕ) → IsWellFormed p → from_bytes (to_bytes p ++ rest) ≡ ok p
unfolding from_bytes read_parts
from_bytes-to_bytes_packet p rest w =
    rw (to_bytes_parts p, append_assoc, append_assoc)
      (ground (
        arith,
        length-whole p.header p.ext_header p.payload rest,
        slice_header p.header p.ext_header p.payload rest,
        from_bytes-to_bytes p.header w.valid,
        read_ext_header-whole p.header p.ext_header p.payload rest w.ext_counted,
        read_payload-whole p.header p.ext_header p.payload rest w.payload_counted,
      ))
