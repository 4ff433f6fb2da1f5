-- ===== src/Transport/Messages.antt =====
-- src/transport/transport.rs: requests, and the events of the adapter. A request is two steps: it
-- registers and sends, and later it ends with the packet in its channel or without one.
use msgtrans_rust.Base.{ℕ, Bool, List, ◌∷◌, none, some, if◌then◌else◌, Result, ok, err, map_ok}
use msgtrans_rust.Packet.Header
use msgtrans_rust.Packet.Header.{CompressionType, uncompressed, zstd, zlib}
use msgtrans_rust.Packet.Message.{Packet}
use msgtrans_rust.Packet.Compress.{Codecs, decompress_payload}
use msgtrans_rust.TransportError.{TransportError}
use msgtrans_rust.Event.{TransportEvent}
use msgtrans_rust.Event
use msgtrans_rust.Lockfree.Interface.{Dictionary}
use msgtrans_rust.Session.States.{ConnectionState}
use msgtrans_rust.Transport.Tracker.{register_with_id, complete, received}
use msgtrans_rust.Transport.{Transport, send, refused}

-- How a wait ends that no packet ends: the sender was dropped, or the time is over.
pub data Ended : Type 0 where
  dropped elapsed : Ended

-- The result of awaiting a channel.
unfoldable pub awaited : ℕ → Ended → List (ℕ × Packet) → Result Packet TransportError
awaited channel ended sent = elim (received channel sent) [
  | some p ↦ ok p
  | none ↦ elim ended [
    | dropped ↦ refused "Connection closed"
    | elapsed ↦ refused "Request timeout"
  ]
]

-- `packet.header.compression != CompressionType::None`.
abbrev pub is_packed : CompressionType → Bool
is_packed uncompressed = Bool.false
is_packed zstd = Bool.true
is_packed zlib = Bool.true

-- Data that cannot be decompressed is passed on as it is.
unfoldable pub decode_payload : Codecs → Packet → Result (List ℕ) TransportError
decode_payload c p =
    if is_packed p.header.compression
    then elim (decompress_payload c p) [ ok copy ↦ ok copy.payload | err e ↦ ok p.payload ]
    else ok p.payload

module _ (S : Dictionary ConnectionState) (R : Dictionary ℕ) where
  -- `request_tracker.register_with_id(id)`, then `send`.
  unfoldable pub register_and_send :
      ℕ
      → Packet
      → Result (Unit {0}) TransportError
      → Transport S R
      → Result ℕ TransportError × Transport S R
  register_and_send id packet result t =
      let (channel, tracker) = register_with_id R id t.request_tracker in
      let (sent, t') = send S R packet result (record t { request_tracker = tracker }) in
      (map_ok (λ _. channel) sent, t')

  -- Up to the wait; the channel to wait for.
  unfoldable pub start_request :
      Packet
      → Result (Unit {0}) TransportError
      → Transport S R
      → Result ℕ TransportError × Transport S R
  start_request packet result t = elim packet.header.packet_type [
    | Header.request ↦ register_and_send packet.header.message_id packet result t
    | Header.one_way ↦ (refused "Not a Request packet", t)
    | Header.response ↦ (refused "Not a Request packet", t)
  ]

  unfoldable pub emit : TransportEvent → Transport S R → Transport S R
  emit event t = record t { events = event ∷ t.events }

  unfoldable pub on_event : Codecs → TransportEvent → Transport S R → Transport S R
  on_event c (Event.message_received p) t = elim p.header.packet_type [
    | Header.response ↦ record t {
      request_tracker = (complete R p.header.message_id p t.request_tracker).1;
    }
    | Header.request ↦ emit (Event.message_received p) t
    | Header.one_way ↦ elim (decode_payload c p) [
      | ok bytes ↦ emit (Event.message_received p) t
      | err e ↦ emit (Event.transport_error e) t
    ]
  ]
  on_event c event t = emit event t
