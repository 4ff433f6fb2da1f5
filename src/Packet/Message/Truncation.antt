-- ===== src/Packet/Message/Truncation.antt =====
-- Packet::from_bytes (src/packet.rs) on packets that are cut short, and on packets whose extended
-- header is too long for its 16-bit length field.
use msgtrans_rust.Base.{
  ℕ, ◌+◌, ◌%◌, ◌<◌, ◌≤◌, ◌≡◌, ◌≢◌, sym, ap, ◌∙◌, arith, String, List, ◌++◌, append_assoc, length,
  length-append, length-take, take, drop, take-take, take-length, take-append-drop, ltb,
  if◌then◌else◌, ok, err,
}
use msgtrans_rust.Packet.Header
use msgtrans_rust.Packet.Header.{invalid_packet}
use msgtrans_rust.Packet.Header.RoundTrip.{length-to_bytes, from_bytes-to_bytes}
use msgtrans_rust.Packet.Message.{
  Packet, to_bytes, total_len, set_ext_header, read_ext_header, read_payload, read_parts,
  from_bytes,
}
use msgtrans_rust.Packet.Message.WellFormed.{IsWellFormed}
use msgtrans_rust.Packet.Message.RoundTrip.{
  to_bytes_parts, length-to_bytes_packet, from_bytes-to_bytes_packet,
}

-- What is missing from the first `n` bytes of a packet.
abbrev pub missing : Packet → ℕ → String
missing p n =
    if ltb n 16
    then "Packet too short"
    else if ltb n (16 + length p.ext_header)
    then "Extended header incomplete"
    else "Payload incomplete"

module _ (p : Packet) (n : ℕ) (w : IsWellFormed p) (short : n < total_len p) where
  abbrev cut : List ℕ
  cut = take n (to_bytes p)

  length-cut : length cut ≡ n
  length-cut = omega (arith, length-take n (to_bytes p), length-to_bytes_packet p)

  cut_header : 16 ≤ n → Header.from_bytes (take 16 cut) ≡ ok p.header
  cut_header h =
      rw (take-take 16 n (to_bytes p) h, to_bytes_parts p, ← length-to_bytes p.header, take-length)
        (from_bytes-to_bytes p.header w.valid)

  cut_parts : 16 ≤ n → read_parts cut p.header ≡ err (invalid_packet (missing p n))
  unfolding read_parts read_ext_header read_payload total_len
  cut_parts h = ground (arith, length-cut, short, w.ext_counted, w.payload_counted)

  -- Every proper prefix of a well-formed packet's bytes is refused by `from_bytes`, with the
  -- error that names the part that is missing.
  pub from_bytes-take : from_bytes cut ≡ err (invalid_packet (missing p n))
  unfolding from_bytes
  from_bytes-take = ground (arith, length-cut, cut_header, cut_parts)

regroup :
    (head ext payload : List ℕ) (k m : ℕ)
    → (head ++ (take k ext ++ take m (drop k ext ++ payload))) ++ drop m (drop k ext ++ payload)
      ≡ head ++ (ext ++ payload)
regroup head ext payload k m =
    append_assoc head _ _
    ∙ ap (◌++◌ head) (
        append_assoc (take k ext) _ _
        ∙ ap (◌++◌ (take k ext)) (take-append-drop m (drop k ext ++ payload))
        ∙ sym (append_assoc (take k ext) (drop k ext) payload)
        ∙ ap (λ (xs : List ℕ). xs ++ payload) (take-append-drop k ext))

-- How the bytes of a packet are read whose extended header `ext` has lost its length modulo 2^16.
abbrev pub misread : Packet → List ℕ → Packet
misread p ext =
    let kept = length ext % 65536 in
    record (set_ext_header p ext) {
      ext_header = take kept ext;
      payload = take (length p.payload) (drop kept ext ++ p.payload);
    }

module _ (p : Packet) (ext : List ℕ) (w : IsWellFormed p) where
  misread-IsWellFormed : IsWellFormed (misread p ext)
  unfolding set_ext_header
  misread-IsWellFormed = ground (
    arith,
    w,
    length-take (length ext % 65536) ext,
    length-take (length p.payload) (drop (length ext % 65536) ext ++ p.payload),
    length-append (drop (length ext % 65536) ext) p.payload,
  )

  same_bytes :
      to_bytes (set_ext_header p ext)
      ≡ to_bytes (misread p ext)
        ++ drop (length p.payload) (drop (length ext % 65536) ext ++ p.payload)
  unfolding set_ext_header
  same_bytes =
      rw (to_bytes_parts (set_ext_header p ext), to_bytes_parts (misread p ext))
        (sym (regroup _ ext p.payload (length ext % 65536) (length p.payload)))

  -- After `set_ext_header` with 65536 bytes or more on a well-formed packet, encoding and
  -- decoding succeed with the packet `misread`, whose extended header, cut to its length modulo
  -- 2^16, is not the one that was set.
  pub set_ext_header_truncates :
      65536 ≤ length ext
      → (from_bytes (to_bytes (set_ext_header p ext)) ≡ ok (misread p ext))
        × ((misread p ext).ext_header ≢ ext)
  set_ext_header_truncates long = (
    rw same_bytes (from_bytes-to_bytes_packet (misread p ext) _ misread-IsWellFormed),
    λ e. omega (arith, ap length e, length-take (length ext % 65536) ext),
  )
