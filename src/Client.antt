-- ===== src/Client.antt =====
-- src/transport/client.rs, TransportClient: connecting with retries, the calls of its transport, and
-- the forwarding of events. The outcome of each attempt to connect is an argument, and so are the
-- f64 operations behind the delays, which only say how long a sleep is.
pub mod Connecting
pub mod Tests
use msgtrans_rust.Base.{
  ℕ, zero, suc, ◌+◌, ◌%◌, String, Bool, true, false, List, [], ◌∷◌, Option, none, some,
  if◌then◌else◌, length, Result, ok, err, map_ok, ◌>>=◌,
}
use msgtrans_rust.Packet.Flags
use msgtrans_rust.Packet.Header
use msgtrans_rust.Packet.Message
use msgtrans_rust.Packet.Message.{Packet}
use msgtrans_rust.TransportError.{TransportError}
use msgtrans_rust.TransportError
use msgtrans_rust.Event.{TransportEvent, Responder, to_session, to_transport}
use msgtrans_rust.Event
use msgtrans_rust.Event.Contexts.{Responses, new_request}
use msgtrans_rust.Event.Conversion.{ClientEvent, client_event_of, ext_header_of}
use msgtrans_rust.Event.Results.{TransportResult, new_sent, new_completed, new_timeout}
use msgtrans_rust.Lockfree.Interface.{Dictionary}
use msgtrans_rust.Session.States.{ConnectionState}
use msgtrans_rust.Transport.{
  Transport, CloseResult, set_connection, close_session, force_close_session, is_connected, refused,
}
use msgtrans_rust.Transport
use msgtrans_rust.Transport.Messages.{Ended, awaited, start_request}

-- One attempt to connect: an adapter and the session id that it got, or an error.
pub data Attempt : Type 0 where
  connects : ℕ → ℕ → Attempt
  fails : TransportError → Attempt

-- What a protocol configuration says of itself: its protocol and whether it has that protocol's type,
-- or that its protocol is not one of the three, with the text of that error.
pub data ProtocolConfig : Type 0 where
  tcp websocket quic : Bool → ProtocolConfig
  unknown : String → ProtocolConfig

-- The delay before an attempt, from the f64 product, power and minimum.
unfoldable pub calculate_retry_delay {ℓ} :
    {F : Type ℓ} → (F → F → F) → (F → ℕ → F) → (F → F → F) → F → F → F → ℕ → F
calculate_retry_delay times powi minimum initial_delay backoff_multiplier max_delay attempt =
    minimum (times initial_delay (powi backoff_multiplier attempt)) max_delay

module _ (S : Dictionary ConnectionState) (R : Dictionary ℕ) where
  pub record TransportClient : Type 0 where
    pub inner : Transport S R
    pub max_retries : ℕ
    pub protocol_config : Option ProtocolConfig
    pub current_session_id : Option ℕ
    pub events : List ClientEvent
    pub responses : Responses
    pub message_id_counter : ℕ

  unfoldable pub new : Transport S R → ℕ → Option ProtocolConfig → Responses → TransportClient
  new transport max_retries protocol_config responses = record {
    inner = transport;
    max_retries = max_retries;
    protocol_config = protocol_config;
    current_session_id = none;
    events = [];
    responses = responses;
    message_id_counter = 1;
  }

  -- The attempts that are left, the number of the next one, and the last error.
  unfoldable pub try_connect :
      ℕ
      → ℕ
      → (ℕ → Attempt)
      → Option TransportError
      → Transport S R
      → Result ℕ TransportError × Transport S R
  try_connect zero attempt attempts last_error t = elim last_error [
    | some e ↦ (err e, t)
    | none ↦ (err (TransportError.connection "Connection failed after all retries" true), t)
  ]
  try_connect (suc left) attempt attempts last_error t = elim (attempts attempt) [
    | connects adapter id ↦ (ok id, set_connection S R adapter id t)
    | fails e ↦ try_connect left (attempt + 1) attempts (some e) t
  ]

  -- `for attempt in 0..=max_retries`, behind the look at the configuration, which fails at once.
  unfoldable pub connect_with_stored_config :
      ProtocolConfig → ℕ → (ℕ → Attempt) → Transport S R → Result ℕ TransportError × Transport S R
  connect_with_stored_config (tcp typed) max_retries attempts t =
      if typed
      then try_connect (suc max_retries) 0 attempts none t
      else (err (TransportError.configuration "protocol" "Invalid TCP config"), t)
  connect_with_stored_config (websocket typed) max_retries attempts t =
      if typed
      then try_connect (suc max_retries) 0 attempts none t
      else (err (TransportError.configuration "protocol" "Invalid WebSocket config"), t)
  connect_with_stored_config (quic typed) max_retries attempts t =
      if typed
      then try_connect (suc max_retries) 0 attempts none t
      else (err (TransportError.configuration "protocol" "Invalid QUIC config"), t)
  connect_with_stored_config (unknown reason) max_retries attempts t =
      (err (TransportError.configuration "protocol" reason), t)

  -- `invalid` is the text of the error that the configuration's validation gives. The transport
  -- that has just been connected has an event stream, so that start_event_forwarding succeeds.
  unfoldable pub connect :
      Option String
      → (ℕ → Attempt)
      → TransportClient
      → Result (Unit {0}) TransportError × TransportClient
  connect invalid attempts c = elim c.protocol_config [
    | none ↦ (
      err (
          TransportError.configuration "protocol"
            "No protocol config specified. Use TransportClientBuilder::with_protocol() when building."),
      c,
    )
    | some config ↦ elim invalid [
      | some reason ↦ (err (TransportError.configuration "protocol" reason), c)
      | none ↦
          let (result, t) = connect_with_stored_config config c.max_retries attempts c.inner in
          elim result [
            | ok id ↦ (ok tt, record c { inner = t; current_session_id = some id })
            | err e ↦ (err e, record c { inner = t })
          ]
    ]
  ]

  unfoldable pub disconnect :
      CloseResult → TransportClient → Result (Unit {0}) TransportError × TransportClient
  disconnect result c = elim c.current_session_id [
    | none ↦ (refused "Not connected", c)
    | some id ↦
        let (answer, t) = close_session S R id result c.inner in
        (answer, record c { inner = t; current_session_id = none })
  ]

  unfoldable pub force_disconnect :
      TransportClient → Result (Unit {0}) TransportError × TransportClient
  force_disconnect c = elim c.current_session_id [
    | none ↦ (refused "Not connected", c)
    | some id ↦
        let (answer, t) = force_close_session S R id c.inner in
        (answer, record c { inner = t; current_session_id = none })
  ]

  -- `message_id_counter.fetch_add(1)` on an AtomicU32.
  unfoldable pub fetch_message_id : TransportClient → ℕ × TransportClient
  fetch_message_id c = (
    c.message_id_counter,
    record c { message_id_counter = (c.message_id_counter + 1) % 4294967296 },
  )

  unfoldable pub send :
      List ℕ
      → Result (Unit {0}) TransportError
      → TransportClient
      → Result TransportResult TransportError × TransportClient
  send bytes result c =
      if is_connected S R c.inner
      then (let (message_id, c') = fetch_message_id c in
          let (answer, t) = Transport.send S R (Message.one_way message_id bytes) result c'.inner in
          (map_ok (λ _. new_sent none message_id) answer, record c' { inner = t }))
      else (refused "Not connected - call connect() first", c)

  -- Up to the wait; the message id and the channel.
  unfoldable pub request :
      List ℕ
      → Result (Unit {0}) TransportError
      → TransportClient
      → Result (ℕ × ℕ) TransportError × TransportClient
  request bytes result c =
      if is_connected S R c.inner
      then (let (message_id, c') = fetch_message_id c in
          let (answer, t) = start_request S R (Message.request message_id bytes) result c'.inner in
          (map_ok (λ channel. (message_id, channel)) answer, record c' { inner = t }))
      else (refused "Not connected - call connect() first", c)

  -- The end of the wait; `is_timeout` is whether the text of an error speaks of a timeout.
  unfoldable pub request_result :
      (TransportError → Bool)
      → ℕ
      → ℕ
      → Ended
      → TransportClient
      → Result TransportResult TransportError
  request_result is_timeout message_id channel ended c =
      elim (awaited channel ended c.inner.request_tracker.sent) [
        | ok p ↦ ok (new_completed none message_id p.payload)
        | err e ↦ if is_timeout e then ok (new_timeout none message_id) else err e
      ]

  -- One event of the forwarding task.
  unfoldable pub forward : TransportEvent → TransportClient → TransportClient
  forward event c = elim (client_event_of event) [
    | some client_event ↦ record c { events = client_event ∷ c.events }
    | none ↦ c
  ]

  unfoldable pub forward_request : Packet → TransportClient → TransportClient
  forward_request p c =
      let (context, responses) =
        new_request none p.header.message_id p.header.biz_type (ext_header_of p) p.payload
          (to_transport p.header.message_id) c.responses in
      record c { events = ClientEvent.message_received context ∷ c.events; responses = responses }

  unfoldable pub forward_event : TransportEvent → TransportClient → TransportClient
  forward_event (Event.message_received p) c = elim p.header.packet_type [
    | Header.request ↦ forward_request p c
    | Header.one_way ↦ forward (Event.message_received p) c
    | Header.response ↦ forward (Event.message_received p) c
  ]
  forward_event event c = forward event c

  -- The packet that the closure of a request sends.
  unfoldable pub response_packet : ℕ → List ℕ → Packet
  response_packet message_id response_data = record {
    header = record {
      version = 1;
      compression = Header.uncompressed;
      packet_type = Header.response;
      biz_type = 0;
      message_id = message_id;
      ext_header_len = 0;
      payload_len = length response_data % 4294967296;
      reserved = Flags.new;
    };
    ext_header = [];
    payload = response_data;
  }

  -- A call of a closure spawns a task, which is run at once here; its result is only logged. The
  -- closures that forward_request makes are those of the second clause; the others are a server's.
  unfoldable pub run_responder :
      Responder → List ℕ → Result (Unit {0}) TransportError → TransportClient → TransportClient
  run_responder (to_session id message_id) response_data result c = c
  run_responder (to_transport message_id) response_data result c = record c {
    inner = (Transport.send S R (response_packet message_id response_data) result c.inner).1;
  }
