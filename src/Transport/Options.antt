-- ===== src/Transport/Options.antt =====
-- src/transport/transport.rs, request_with_options and send_with_options, and TransportOptions of
-- src/transport/mod.rs.
use msgtrans_rust.Base.{
  ℕ, ◌%◌, List, [], Option, none, some, if◌then◌else◌, length, Result, ok, err, ◌>>=◌,
}
use msgtrans_rust.Packet.Flags
use msgtrans_rust.Packet.Header
use msgtrans_rust.Packet.Header.{PacketType, CompressionType, uncompressed}
use msgtrans_rust.Packet.Message.{Packet}
use msgtrans_rust.Packet.Compress.{Codecs, compress_payload}
use msgtrans_rust.TransportError.{TransportError}
use msgtrans_rust.Lockfree.Interface.{Dictionary}
use msgtrans_rust.Session.States.{ConnectionState}
use msgtrans_rust.Transport.Tracker.{fetch_id}
use msgtrans_rust.Transport.{Transport, send}
use msgtrans_rust.Transport.Messages.{Ended, awaited, is_packed, decode_payload, register_and_send}

-- The timeout, which says only how long a wait is, is kept as a number of milliseconds.
pub record TransportOptions : Type 0 where
  pub timeout : Option ℕ
  pub compression : Option CompressionType
  pub biz_type : Option ℕ
  pub ext_header : Option (List ℕ)
  pub message_id : Option ℕ

unfoldable pub default_options : TransportOptions
default_options = record {
  timeout = none;
  compression = none;
  biz_type = none;
  ext_header = none;
  message_id = none;
}

unfoldable pub with_timeout : ℕ → TransportOptions → TransportOptions
with_timeout timeout o = record o { timeout = some timeout }

unfoldable pub with_compression : CompressionType → TransportOptions → TransportOptions
with_compression compression o = record o { compression = some compression }

unfoldable pub with_biz_type : ℕ → TransportOptions → TransportOptions
with_biz_type biz_type o = record o { biz_type = some biz_type }

unfoldable pub with_ext_header : List ℕ → TransportOptions → TransportOptions
with_ext_header ext_header o = record o { ext_header = some ext_header }

unfoldable pub with_message_id : ℕ → TransportOptions → TransportOptions
with_message_id message_id o = record o { message_id = some message_id }

-- `unwrap_or`.
abbrev pub unwrap_or {ℓ} : {A : Type ℓ} → Option A → A → A
unwrap_or none d = d
unwrap_or (some a) d = a

-- The packet before compression.
unfoldable pub plain_packet : PacketType → List ℕ → TransportOptions → ℕ → Packet
plain_packet packet_type bytes o message_id = record {
  header = record {
    version = 1;
    compression = unwrap_or o.compression uncompressed;
    packet_type = packet_type;
    biz_type = unwrap_or o.biz_type 0;
    message_id = message_id;
    ext_header_len = length (unwrap_or o.ext_header []) % 65536;
    payload_len = length bytes % 4294967296;
    reserved = Flags.new;
  };
  ext_header = unwrap_or o.ext_header [];
  payload = bytes;
}

-- A packet that cannot be compressed is sent as it is, its header unchanged.
unfoldable pub options_packet : Codecs → PacketType → List ℕ → TransportOptions → ℕ → Packet
options_packet c packet_type bytes o message_id =
    let packet = plain_packet packet_type bytes o message_id in
    elim o.compression [
      | none ↦ packet
      | some compression ↦
          if is_packed compression
          then elim (compress_payload c packet) [ ok packed ↦ packed | err e ↦ packet ]
          else packet
    ]

module _ (S : Dictionary ConnectionState) (R : Dictionary ℕ) where
  -- The id that the user gave, or a new one.
  unfoldable pub choose_id : TransportOptions → Transport S R → ℕ × Transport S R
  choose_id o t = elim o.message_id [
    | some id ↦ (id, t)
    | none ↦
        let (id, tracker) = fetch_id R t.request_tracker in
        (id, record t { request_tracker = tracker })
  ]

  unfoldable pub send_with_options :
      Codecs
      → List ℕ
      → TransportOptions
      → Result (Unit {0}) TransportError
      → Transport S R
      → Result (Unit {0}) TransportError × Transport S R
  send_with_options c bytes o result t =
      let (message_id, t') = choose_id o t in
      send S R (options_packet c Header.one_way bytes o message_id) result t'

  -- Up to the wait.
  unfoldable pub start_request_with_options :
      Codecs
      → List ℕ
      → TransportOptions
      → Result (Unit {0}) TransportError
      → Transport S R
      → Result ℕ TransportError × Transport S R
  start_request_with_options c bytes o result t =
      let (message_id, t') = choose_id o t in
      register_and_send S R message_id (options_packet c Header.request bytes o message_id) result
        t'

  -- The wait and the decoding of the response.
  unfoldable pub response_with_options :
      Codecs → ℕ → Ended → Transport S R → Result (List ℕ) TransportError
  response_with_options c channel ended t = do
    p ← awaited channel ended t.request_tracker.sent
    elim (decode_payload c p) [ ok decoded ↦ ok decoded | err e ↦ ok p.payload ]
