-- ===== src/Server.antt =====
-- src/transport/transport_server.rs, TransportServer. An Arc<Transport> is an index into the list
-- `objects`; the session table holds such indices. What an adapter or the runtime decides is an
-- argument. The sessions' tables and counters are shared by the clones of a server; its own message
-- id counter is not.
pub mod Sessions
pub mod Events
pub mod Registry
pub mod Closing
pub mod Answering
pub mod Tests
use msgtrans_rust.Base.{
  ℕ, ◌+◌, ◌%◌, Bool, true, false, List, [], ◌∷◌, ◌++◌, Option, none, some, if◌then◌else◌, length,
  get_or, set, Result, ok, err, map_ok,
}
use msgtrans_rust.Packet.Message
use msgtrans_rust.Packet.Message.{Packet}
use msgtrans_rust.TransportError.{TransportError}
use msgtrans_rust.Command.{TransportStats, new_stats}
use msgtrans_rust.Event.Contexts.{Responses, no_responses}
use msgtrans_rust.Event.Conversion.{ServerEvent}
use msgtrans_rust.Event.Results.{TransportResult, new_sent, new_completed, new_timeout}
use msgtrans_rust.Lockfree.Interface.{Dictionary}
use msgtrans_rust.Session.States.{ConnectionState, add_connection, remove_connection}
use msgtrans_rust.Transport.{Transport, set_connection, is_connected, refused}
use msgtrans_rust.Transport
use msgtrans_rust.Transport.Messages.{Ended, awaited, start_request}
use msgtrans_rust.Transport.Tracker.{RequestTracker, new_with_start_id}

-- The dictionaries that a server uses.
pub record Tables : Type 1 where
  pub by_state : Dictionary ConnectionState
  pub by_channel : Dictionary ℕ
  pub by_object : Dictionary ℕ
  pub by_stats : Dictionary TransportStats

module _ (D : Tables) where
  abbrev pub Object : Type 0
  Object = Transport D.by_state D.by_channel

  pub record TransportServer : Type 0 where
    pub transports : D.by_object.Carrier
    pub objects : List Object
    pub session_id_generator : ℕ
    pub stats : D.by_stats.Carrier
    pub events : List ServerEvent
    pub responses : Responses
    pub is_running : Bool
    pub state_manager : D.by_state.Carrier
    pub request_tracker : RequestTracker D.by_channel
    pub message_id_counter : ℕ

  unfoldable pub new : TransportServer
  unfolding new_with_start_id no_responses
  new = record {
    transports = D.by_object.empty;
    objects = [];
    session_id_generator = 1;
    stats = D.by_stats.empty;
    events = [];
    responses = no_responses;
    is_running = false;
    state_manager = D.by_state.empty;
    request_tracker = new_with_start_id D.by_channel 10000;
    message_id_counter = 20000;
  }

  -- A clone starts its message ids again.
  unfoldable pub clone : TransportServer → TransportServer
  clone s = record s { message_id_counter = 20000 }

  unfoldable pub emit : ServerEvent → TransportServer → TransportServer
  emit event s = record s { events = event ∷ s.events }

  -- The transport of a session.
  abbrev pub blank : Object
  blank = Transport.new D.by_state D.by_channel

  abbrev pub object : ℕ → TransportServer → Object
  object o s = get_or s.objects o blank

  abbrev pub put_object : ℕ → Object → TransportServer → TransportServer
  put_object o t s = record s { objects = set s.objects o t }

  unfoldable pub generate_session_id : TransportServer → ℕ × TransportServer
  generate_session_id s = (
    s.session_id_generator,
    record s { session_id_generator = (s.session_id_generator + 1) % 18446744073709551616 },
  )

  -- The connection has been given its session id.
  unfoldable pub add_session : ℕ → ℕ → ℕ → TransportServer → TransportServer
  add_session adapter id now s = record s {
    objects = s.objects ++ (set_connection D.by_state D.by_channel adapter id blank ∷ []);
    transports = D.by_object.put_at id (length s.objects) s.transports;
    stats = D.by_stats.put_at id (new_stats now) s.stats;
    state_manager = add_connection D.by_state s.state_manager id;
  }

  unfoldable pub remove_session : ℕ → TransportServer → TransportServer
  remove_session id s = record s {
    transports = D.by_object.drop_at id s.transports;
    stats = D.by_stats.drop_at id s.stats;
    state_manager = remove_connection D.by_state s.state_manager id;
  }

  unfoldable pub active_sessions : TransportServer → List ℕ
  active_sessions s = D.by_object.all_keys s.transports

  -- `message_id_counter.fetch_add(1)` on an AtomicU32.
  unfoldable pub fetch_message_id : TransportServer → ℕ × TransportServer
  fetch_message_id s = (
    s.message_id_counter,
    record s { message_id_counter = (s.message_id_counter + 1) % 4294967296 },
  )

  -- `is_lost` is whether the Debug text of an error has one of the five texts that the code looks for.
  module _ (is_lost : TransportError → Bool) where
    unfoldable pub send_to_session :
        ℕ
        → Packet
        → Result (Unit {0}) TransportError
        → TransportServer
        → Result (Unit {0}) TransportError × TransportServer
    send_to_session id packet result s = elim (D.by_object.get s.transports id) [
      | none ↦ (refused "Session not found", s)
      | some o ↦
          let t = object o s in
          if is_connected D.by_state D.by_channel t
          then (let (answer, t') = Transport.send D.by_state D.by_channel packet result t in
              let s' = put_object o t' s in
              elim answer [
                | ok u ↦ (ok u, s')
                | err e ↦
                    if is_lost e
                    then (refused "Connection closed during send", remove_session id s')
                    else (err e, s')
              ])
          else (refused "Connection closed", remove_session id s)
    ]

    unfoldable pub send :
        ℕ
        → List ℕ
        → Result (Unit {0}) TransportError
        → TransportServer
        → Result TransportResult TransportError × TransportServer
    send id bytes result s =
        let (message_id, s') = fetch_message_id s in
        let (answer, s'') = send_to_session id (Message.one_way message_id bytes) result s' in
        (map_ok (λ _. new_sent (some id) message_id) answer, s'')

  -- Up to the wait on the transport; the channel of its tracker.
  unfoldable pub request_to_session :
      ℕ
      → Packet
      → Result (Unit {0}) TransportError
      → TransportServer
      → Result ℕ TransportError × TransportServer
  request_to_session id packet result s = elim (D.by_object.get s.transports id) [
    | none ↦ (refused "Session not found", s)
    | some o ↦
        let t = object o s in
        if is_connected D.by_state D.by_channel t
        then (let (answer, t') = start_request D.by_state D.by_channel packet result t in
            (answer, put_object o t' s))
        else (refused "Connection closed", remove_session id s)
  ]

  -- Up to the wait; the message id and the channel.
  unfoldable pub request :
      ℕ
      → List ℕ
      → Result (Unit {0}) TransportError
      → TransportServer
      → Result (ℕ × ℕ) TransportError × TransportServer
  request id bytes result s =
      let (message_id, s') = fetch_message_id s in
      let (answer, s'') = request_to_session id (Message.request message_id bytes) result s' in
      (map_ok (λ channel. (message_id, channel)) answer, s'')

  -- The end of the wait on a transport; `is_timeout` is whether the text of an error speaks of a
  -- timeout.
  unfoldable pub request_result :
      (TransportError → Bool) → ℕ → ℕ → ℕ → Ended → Object → Result TransportResult TransportError
  request_result is_timeout id message_id channel ended t =
      elim (awaited channel ended t.request_tracker.sent) [
        | ok p ↦ ok (new_completed (some id) message_id p.payload)
        | err e ↦ if is_timeout e then ok (new_timeout (some id) message_id) else err e
      ]

  unfoldable pub stop : TransportServer → TransportServer
  stop s = record s { is_running = false }
