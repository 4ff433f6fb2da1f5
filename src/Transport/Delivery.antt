-- ===== src/Transport/Delivery.antt =====
-- From `send_with_options` and `request_with_options` of src/transport/transport.rs to the bytes on
-- the wire and the data that the receiver's `decode_payload` gives.
use msgtrans_rust.Base.{
  ℕ, ◌<◌, ◌≤◌, ◌≡◌, ◌≢◌, ◌⊎◌, inl, inr, refl, arith, List, [], ◌∷◌, ◌++◌, some, length, Result, ok,
  err, map_ok, sym, ap, ◌∙◌,
}
use msgtrans_rust.Packet.Flags
use msgtrans_rust.Packet.Header
use msgtrans_rust.Packet.Header.{PacketType, CompressionType, uncompressed, zstd, zlib}
use msgtrans_rust.Packet.Message.{Packet, to_bytes, from_bytes}
use msgtrans_rust.Packet.Message.WellFormed.{IsWellFormed}
use msgtrans_rust.Packet.Message.RoundTrip.{from_bytes-to_bytes_packet}
use msgtrans_rust.Packet.Compress.{Codecs, compress_data, compress_payload, decompress_payload}
use msgtrans_rust.Packet.Compress.RoundTrip.{Documented, compress-IsWellFormed, decompress-compress}
use msgtrans_rust.TransportError.{TransportError}
use msgtrans_rust.Lockfree.Interface.{Dictionary}
use msgtrans_rust.Session.States.{ConnectionState}
use msgtrans_rust.Transport.Tracker.{fetch_id, register_with_id}
use msgtrans_rust.Transport.{Transport, sends, send}
use msgtrans_rust.Transport.Messages.{decode_payload, register_and_send, on_event, emit}
use msgtrans_rust.Event
use msgtrans_rust.Event.Contexts.{TransportContext, new_oneway, new_request, set_primary}
use msgtrans_rust.Event.Conversion.{ServerEvent, oneway_context}
use msgtrans_rust.Server
use msgtrans_rust.Server.{Tables, TransportServer}
use msgtrans_rust.Server.Events.{handle_transport_event, handle_request, handle_message}
use msgtrans_rust.Transport.Options.{
  TransportOptions, unwrap_or, plain_packet, options_packet, choose_id, send_with_options,
  start_request_with_options,
}

-- Options whose fields have their types' ranges, with an extended header that its length field holds.
pub record InRange (o : TransportOptions) : Type 0 where
  pub biz_small : unwrap_or o.biz_type 0 < 256
  pub ext_small : length (unwrap_or o.ext_header []) < 65536
  pub id_small : unwrap_or o.message_id 0 < 4294967296

-- The compression that the options ask for.
abbrev pub asked : TransportOptions → CompressionType
asked o = unwrap_or o.compression uncompressed

plain_packet-IsWellFormed :
    (t : PacketType) (bytes : List ℕ) (o : TransportOptions) (id : ℕ)
    → InRange o
    → id < 4294967296
    → length bytes < 4294967296
    → IsWellFormed (plain_packet t bytes o id)
unfolding plain_packet Flags.new
plain_packet-IsWellFormed t bytes o id v small fits = ground (arith, v.biz_small, v.ext_small)

-- The type and what the options say of a packet beside its data.
abbrev pub Labelled : PacketType → TransportOptions → Packet → Type 0
Labelled t o q =
    (q.header.packet_type ≡ t)
    × (q.header.compression ≡ asked o)
    × (q.header.biz_type ≡ unwrap_or o.biz_type 0)
    × (q.ext_header ≡ unwrap_or o.ext_header [])

type_cases :
    (t : PacketType) → (t ≡ Header.one_way) ⊎ ((t ≡ Header.request) ⊎ (t ≡ Header.response))
type_cases Header.one_way = inl refl
type_cases Header.request = inr (inl refl)
type_cases Header.response = inr (inr refl)

module _ (c : Codecs) where
  options_compress :
      (t : PacketType) (bytes : List ℕ) (o : TransportOptions) (id : ℕ) (packed : List ℕ)
      → compress_data c bytes (asked o) ≡ ok packed
      → (compress_payload c (plain_packet t bytes o id) ≡ ok (options_packet c t bytes o id))
        × ((options_packet c t bytes o id).payload ≡ packed)
        × Labelled t o (options_packet c t bytes o id)
  unfolding options_packet plain_packet compress_payload compress_data
  options_compress t bytes o id packed e = ground arith

  decode_decompress :
      (p q : Packet)
      → p.header.compression ≡ q.header.compression
      → decompress_payload c q ≡ ok p
      → decode_payload c q ≡ ok p.payload
  unfolding decode_payload decompress_payload
  decode_decompress p q same e = ground arith

  -- What becomes of a packet behind the wire: its bytes decode to it, whatever follows them; the
  -- receiving transport passes it on in one event, as it is; a server tells its users of it in a
  -- context with the payload as it was sent, that is, packed; and `decode_payload` of it is the data.
  abbrev pub Arrives : PacketType → TransportOptions → List ℕ → List ℕ → List ℕ → Packet → Type 1
  Arrives t o bytes packed rest q =
      (from_bytes (to_bytes q ++ rest) ≡ ok q)
      × Labelled t o q
      × (q.payload ≡ packed)
      × (decode_payload c q ≡ ok bytes)
      × ((S : Dictionary ConnectionState) (R : Dictionary ℕ) (receiver : Transport S R)
          → on_event S R c (Event.message_received q) receiver
            ≡ record receiver { events = Event.message_received q ∷ receiver.events })
      × ((D : Tables) (id : ℕ) (s : TransportServer D)
          → (context : TransportContext) × ((handle_transport_event D id (Event.message_received q)
                s).events
              ≡ ServerEvent.message_received id context ∷ s.events)
            × (context.bytes ≡ packed))

  passed_on :
      (S : Dictionary ConnectionState) (R : Dictionary ℕ) (q : Packet) (bytes : List ℕ)
      (receiver : Transport S R)
      → q.header.packet_type ≢ Header.response
      → decode_payload c q ≡ ok bytes
      → on_event S R c (Event.message_received q) receiver
        ≡ record receiver { events = Event.message_received q ∷ receiver.events }
  unfolding on_event emit
  passed_on S R q bytes receiver other e = ground arith

  told_packed :
      (D : Tables) (id : ℕ) (q : Packet) (s : TransportServer D)
      → q.header.packet_type ≢ Header.response
      → (context : TransportContext) × ((handle_transport_event D id
            (Event.message_received q)
            s).events
          ≡ ServerEvent.message_received id context ∷ s.events)
        × (context.bytes ≡ q.payload)
  unfolding handle_transport_event handle_request handle_message Server.emit oneway_context
      new_oneway new_request set_primary
  told_packed D id q s other = elim (type_cases q.header.packet_type) [
    | inl e ↦ rw (handle_transport_event, e) (_, refl, refl)
    | inr (inl e) ↦ rw (handle_transport_event, e) (_, refl, refl)
    | inr (inr e) ↦ absurd (other e)
  ]

  options_packet-Arrives :
      (d : Documented c) (t : PacketType) (bytes : List ℕ) (o : TransportOptions) (id : ℕ)
      (packed rest : List ℕ)
      → InRange o
      → id < 4294967296
      → length bytes ≤ 1048576
      → compress_data c bytes (asked o) ≡ ok packed
      → length packed < 4294967296
      → t ≢ Header.response
      → Arrives t o bytes packed rest (options_packet c t bytes o id)
  unfolding plain_packet
  options_packet-Arrives d t bytes o id packed rest v small short e fits other =
      let p = plain_packet t bytes o id in
      let q = options_packet c t bytes o id in
      let w = plain_packet-IsWellFormed t bytes o id v small (omega arith) in
      let (ran, same, label) = options_compress t bytes o id packed e in
      let decoded = decode_decompress p q (sym label.1) (decompress-compress c d p q w ran short) in
      let kind : q.header.packet_type ≢ Header.response = λ f. other (sym label.0 ∙ f) in
      (
        from_bytes-to_bytes_packet q rest (compress-IsWellFormed c p q w ran (rw same fits)),
        label,
        same,
        decoded,
        λ S R receiver. passed_on S R q bytes receiver kind decoded,
        λ D id' s. rw⁻¹ same (told_packed D id' q s kind),
      )

  module _ (S : Dictionary ConnectionState) (R : Dictionary ℕ) where
    choose_id_small :
        (o : TransportOptions) (t : Transport S R)
        → InRange o
        → t.request_tracker.next_id < 4294967296
        → (choose_id S R o t).0 < 4294967296
    unfolding choose_id fetch_id
    choose_id_small o t v small = ground (arith, v.id_small)

    choose_id_connection :
        (o : TransportOptions) (t : Transport S R)
        → ((choose_id S R o t).1.session_id ≡ t.session_id)
          × ((choose_id S R o t).1.connection_adapter ≡ t.connection_adapter)
          × ((choose_id S R o t).1.calls ≡ t.calls)
          × ((choose_id S R o t).1.request_tracker.channels ≡ t.request_tracker.channels)
    unfolding choose_id fetch_id
    choose_id_connection o t = ground arith

    register_connected :
        (j : ℕ) (p : Packet) (result : Result (Unit {0}) TransportError) (id adapter : ℕ)
        (t : Transport S R)
        → t.session_id ≡ some id
        → t.connection_adapter ≡ some adapter
        → (register_and_send S R j p result t).0 ≡ map_ok (λ _. t.request_tracker.channels) result
    unfolding register_and_send register_with_id send
    register_connected j p (ok u) id adapter t s a = ground arith
    register_connected j p (err e) id adapter t s a = ground arith

    -- On a connected transport, with codecs that do what they document, at most 1 MiB of data that
    -- the chosen compression packs into fewer than 2^32 bytes, and options and a next id in range,
    -- `send_with_options` gives the adapter one packet more and returns its result, and so does
    -- `request_with_options` up to its wait. That packet is of the right type, has the business type,
    -- the extended header and the compression of the options and the packed data as its payload, and
    -- is read back from its bytes, whatever follows them. A transport that receives it passes it on
    -- unchanged, and a server tells its users of it in a context that has the packed data, not the
    -- data; `decode_payload` of the packet gives the data.
    pub options_delivered :
        (d : Documented c) (bytes : List ℕ) (o : TransportOptions) (packed rest : List ℕ)
        (id adapter : ℕ) (result : Result (Unit {0}) TransportError) (t : Transport S R)
        → t.session_id ≡ some id
        → t.connection_adapter ≡ some adapter
        → t.request_tracker.next_id < 4294967296
        → InRange o
        → length bytes ≤ 1048576
        → compress_data c bytes (asked o) ≡ ok packed
        → length packed < 4294967296
        → let (sent, u) = send_with_options S R c bytes o result t in
          let (started, v) = start_request_with_options S R c bytes o result t in
          ((q : Packet) × (u.calls ≡ sends adapter q ∷ t.calls)
            × (sent ≡ result)
            × Arrives Header.one_way o bytes packed rest q)
          × ((q : Packet) × (v.calls ≡ sends adapter q ∷ t.calls)
              × (started ≡ map_ok (λ _. t.request_tracker.channels) result)
              × Arrives Header.request o bytes packed rest q)
    unfolding send_with_options start_request_with_options send register_and_send register_with_id
    options_delivered d bytes o packed rest id adapter result t s a next v short e fits =
        let j = (choose_id S R o t).0 in
        let small = choose_id_small o t v next in
        let (same_s, same_a, same_c, same_n) = choose_id_connection o t in
        (
          (
            options_packet c Header.one_way bytes o j,
            ground arith,
            ground arith,
            options_packet-Arrives d Header.one_way bytes o j packed rest v small short e fits
                (λ f. cc),
          ),
          (
            options_packet c Header.request bytes o j,
            ground arith,
            register_connected j _ result id adapter (choose_id S R o t).1 (same_s ∙ s) (same_a ∙ a)
                ∙ ap (λ n. map_ok (λ _. n) result) same_n,
            options_packet-Arrives d Header.request bytes o j packed rest v small short e fits
                (λ f. cc),
          ),
        )
