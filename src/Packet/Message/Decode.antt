-- ===== src/Packet/Message/Decode.antt =====
-- What Packet::from_bytes (src/packet.rs) makes of arbitrary bytes.
use msgtrans_rust.Base.{
  ℕ, ◌+◌, ◌-◌, ◌≤◌, ◌≡◌, ap, ◌∙◌, arith, List, ◌++◌, append_assoc, length, take, drop, slice,
  length-slice, take_none, take-take, get_or-take, take-append-slice, All, All-take, All-drop,
  Bool-cases, inl, inr, ltb, ltb_false→le, bind-eq-ok, ok,
}
use msgtrans_rust.Packet.Header
use msgtrans_rust.Packet.Header.{FixedHeader, byte}
use msgtrans_rust.Packet.Header.RoundTrip.{IsByte, IsValid, from_bytes_total, to_bytes-from_bytes}
use msgtrans_rust.Packet.Message.{
  Packet, to_bytes, total_len, read_ext_header, read_payload, read_parts, from_bytes,
}
use msgtrans_rust.Packet.Message.WellFormed.{IsWellFormed}
use msgtrans_rust.Packet.Message.RoundTrip.{to_bytes_parts}

-- Where the parts of a decoded packet stand.
record Parts (bytes : List ℕ) (p : Packet) : Type 0 where
  head : Header.from_bytes (take 16 bytes) ≡ ok p.header
  fits : 16 + p.header.ext_header_len + p.header.payload_len ≤ length bytes
  ext : p.ext_header ≡ slice 16 (16 + p.header.ext_header_len) bytes
  body :
      p.payload
      ≡ slice
          (16 + p.header.ext_header_len)
          (16 + p.header.ext_header_len + p.header.payload_len)
          bytes

read_ext_header_ok :
    (bytes : List ℕ) (h : FixedHeader) (offset : ℕ) (part : List ℕ) (end : ℕ)
    → offset ≤ length bytes
    → read_ext_header bytes h offset ≡ ok (part, end)
    → (end ≡ offset + h.ext_header_len)
      × (part ≡ slice offset (offset + h.ext_header_len) bytes)
      × (end ≤ length bytes)
unfolding read_ext_header
read_ext_header_ok bytes h offset part end fits e =
    ground (arith, take_none (offset + h.ext_header_len - offset) (drop offset bytes))

read_payload_ok :
    (bytes : List ℕ) (h : FixedHeader) (offset : ℕ) (part : List ℕ)
    → offset ≤ length bytes
    → read_payload bytes h offset ≡ ok part
    → (part ≡ slice offset (offset + h.payload_len) bytes) × (offset + h.payload_len ≤ length bytes)
unfolding read_payload
read_payload_ok bytes h offset part fits e =
    ground (arith, take_none (offset + h.payload_len - offset) (drop offset bytes))

read_parts_ok :
    (bytes : List ℕ) (h : FixedHeader) (p : Packet)
    → 16 ≤ length bytes
    → Header.from_bytes (take 16 bytes) ≡ ok h
    → read_parts bytes h ≡ ok p
    → Parts bytes p
unfolding read_parts
read_parts_ok bytes h p n he e =
    let ((ext, end), re, e') = bind-eq-ok (read_ext_header bytes h 16) _ e in
    let (payload, rp, e'') = bind-eq-ok (read_payload bytes h end) _ e' in
    let ext_ok = read_ext_header_ok bytes h 16 ext end n re in
    let body_ok = read_payload_ok bytes h end payload ext_ok.2 rp in ground arith

from_bytes-Parts : (bytes : List ℕ) (p : Packet) → from_bytes bytes ≡ ok p → Parts bytes p
unfolding from_bytes
from_bytes-Parts bytes p e = elim (Bool-cases (ltb (length bytes) 16)) [
  | inl short ↦ cc (rw short at e)
  | inr long ↦
      let (h, he, e') =
        bind-eq-ok (Header.from_bytes (take 16 bytes)) (read_parts bytes) (rw long at e) in
      read_parts_ok bytes h p (ltb_false→le (length bytes) 16 long) he e'
]

module _ (bytes : List ℕ) (p : Packet) (parts : Parts bytes p) where
  abbrev body_start : ℕ
  body_start = 16 + p.header.ext_header_len

  counted :
      (p.header.ext_header_len ≡ length p.ext_header) × (p.header.payload_len ≡ length p.payload)
  counted =
      let n = length-slice 16 body_start bytes (omega arith) (omega (arith, parts.fits)) in
      let m =
        length-slice body_start (body_start + p.header.payload_len) bytes (omega arith)
          parts.fits in
      (omega (arith, n, ap length parts.ext), omega (arith, m, ap length parts.body))

  -- Header bytes, extended header and payload tile the front of the input.
  tiled :
      take 16 bytes ++ (p.ext_header ++ p.payload)
      ≡ take (16 + p.header.ext_header_len + p.header.payload_len) bytes
  tiled =
      rw (parts.ext, parts.body, ← append_assoc)
        (rw (take-append-slice 16 body_start bytes (omega arith))
          (take-append-slice body_start (body_start + p.header.payload_len) bytes (omega arith)))

header-IsValid : (bytes : List ℕ) (p : Packet) → All IsByte bytes → Parts bytes p → IsValid p.header
header-IsValid bytes p all parts =
    ground (arith, from_bytes_total (take 16 bytes) (All-take IsByte 16 bytes all), parts.head)

-- A packet that `from_bytes` decodes from a list of bytes is well formed, its extended header and
-- its payload are bytes, and its total length is at most that of the input.
pub from_bytes_sound :
    (bytes : List ℕ) (p : Packet)
    → All IsByte bytes
    → from_bytes bytes ≡ ok p
    → IsWellFormed p × All IsByte p.ext_header × All IsByte p.payload × (total_len p ≤ length bytes)
unfolding total_len
from_bytes_sound bytes p all e =
    let parts = from_bytes-Parts bytes p e in
    let (n, m) = counted bytes p parts in
    (
      record { valid = header-IsValid bytes p all parts; ext_counted = n; payload_counted = m },
      rw (parts.ext) (All-take IsByte _ _ (All-drop IsByte 16 bytes all)),
      rw (parts.body) (All-take IsByte _ _ (All-drop IsByte _ bytes all)),
      omega (arith, parts.fits),
    )

header_again :
    (bytes : List ℕ) (p : Packet)
    → All IsByte bytes
    → byte bytes 1 ≤ 2
    → byte bytes 2 ≤ 2
    → Parts bytes p
    → Header.to_bytes p.header ≡ take 16 bytes
header_again bytes p all hc ht parts =
    to_bytes-from_bytes (take 16 bytes) p.header (All-take IsByte 16 bytes all)
      (omega (arith, get_or-take 16 1 bytes 0)) (omega (arith, get_or-take 16 2 bytes 0)) parts.head
    ∙ take-take 16 16 bytes (omega arith)

-- When the bytes at offsets 1 and 2 of a list of bytes are at most 2, which are the defined
-- compressions and packet types, encoding the packet that `from_bytes` decodes gives back the
-- input up to the packet's total length.
pub to_bytes-from_bytes_packet :
    (bytes : List ℕ) (p : Packet)
    → All IsByte bytes
    → byte bytes 1 ≤ 2
    → byte bytes 2 ≤ 2
    → from_bytes bytes ≡ ok p
    → to_bytes p ≡ take (total_len p) bytes
unfolding total_len
to_bytes-from_bytes_packet bytes p all hc ht e =
    let parts = from_bytes-Parts bytes p e in
    let (n, m) = counted bytes p parts in
    to_bytes_parts p ∙ rw (header_again bytes p all hc ht parts, tiled bytes p parts, n, m)
