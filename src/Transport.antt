-- ===== src/Transport.antt =====
-- src/transport/transport.rs, Transport: the one connection of a transport, its sending and its close
-- protocol. An adapter is a number, which stands for the shared object; the result of a call of it
-- is an argument, and the calls are recorded. A method that awaits only the adapter is one step.
pub mod Tracker
pub mod Messages
pub mod Options
pub mod Closing
pub mod Coherence
pub mod Requests
pub mod Delivery
pub mod Tests
use msgtrans_rust.Base.{
  String, ℕ, Bool, true, false, List, [], ◌∷◌, Option, none, some, ◌==◌, if◌then◌else◌, Result, ok,
  err,
}
use msgtrans_rust.Packet.Message.{Packet}
use msgtrans_rust.TransportError.{TransportError}
use msgtrans_rust.TransportError
use msgtrans_rust.Event.{TransportEvent}
use msgtrans_rust.Lockfree.Interface.{Dictionary}
use msgtrans_rust.Session.States.{ConnectionState, add_connection, try_start_closing, mark_closed}
use msgtrans_rust.Session.States
use msgtrans_rust.Transport.Tracker.{RequestTracker}
use msgtrans_rust.Transport.Tracker

-- `TransportError::connection_error(reason, false)`.
abbrev pub refused {ℓ} : {A : Type ℓ} → String → Result A TransportError
refused reason = err (TransportError.connection reason false)

-- A call of a connection adapter.
pub data AdapterCall : Type 0 where
  sends : ℕ → Packet → AdapterCall
  closes : ℕ → AdapterCall
  names : ℕ → ℕ → AdapterCall

-- How `tokio::time::timeout(graceful_timeout, conn.close())` ends.
pub data CloseResult : Type 0 where
  done late : CloseResult
  failed : TransportError → CloseResult

module _ (S : Dictionary ConnectionState) (R : Dictionary ℕ) where
  -- `calls` and `events`, newest first, are what the adapters and the subscribers were given.
  pub record Transport : Type 0 where
    pub connection_adapter : Option ℕ
    pub session_id : Option ℕ
    pub state_manager : S.Carrier
    pub request_tracker : RequestTracker R
    pub calls : List AdapterCall
    pub events : List TransportEvent

  unfoldable pub new : Transport
  unfolding Tracker.new Tracker.new_with_start_id
  new = record {
    connection_adapter = none;
    session_id = none;
    state_manager = S.empty;
    request_tracker = Tracker.new R;
    calls = [];
    events = [];
  }

  unfoldable pub send :
      Packet
      → Result (Unit {0}) TransportError
      → Transport
      → Result (Unit {0}) TransportError × Transport
  send packet result t = elim t.session_id [
    | none ↦ (refused "Not connected", t)
    | some id ↦ elim t.connection_adapter [
      | none ↦ (refused "No connection adapter available", t)
      | some adapter ↦ (result, record t { calls = sends adapter packet ∷ t.calls })
    ]
  ]

  -- One call of `close`, and a second one when the first has failed or is late.
  unfoldable pub do_close_session : CloseResult → Transport → Transport
  do_close_session result t = elim t.connection_adapter [
    | none ↦ t
    | some adapter ↦ record t {
      calls = elim result [
        | done ↦ closes adapter ∷ t.calls
        | late ↦ closes adapter ∷ closes adapter ∷ t.calls
        | failed e ↦ closes adapter ∷ closes adapter ∷ t.calls
      ];
    }
  ]

  unfoldable pub force_close_adapter : Transport → Transport
  force_close_adapter t = elim t.connection_adapter [
    | none ↦ t
    | some adapter ↦ record t { calls = closes adapter ∷ t.calls }
  ]

  unfoldable pub mark_session_closed : ℕ → Transport → Transport
  mark_session_closed id t = record t { state_manager = mark_closed S t.state_manager id }

  -- The local state, if it is that of the session.
  unfoldable pub clean_up : ℕ → Transport → Transport
  clean_up id t = elim t.session_id [
    | none ↦ t
    | some current ↦
        if current == id then record t { session_id = none; connection_adapter = none } else t
  ]

  unfoldable pub close_session :
      ℕ → CloseResult → Transport → Result (Unit {0}) TransportError × Transport
  close_session id result t =
      let (started, states) = try_start_closing S t.state_manager id in
      let t' = record t { state_manager = states } in
      if started
      then (ok tt, clean_up id (mark_session_closed id (do_close_session result t')))
      else (ok tt, t')

  unfoldable pub force_close_session : ℕ → Transport → Result (Unit {0}) TransportError × Transport
  force_close_session id t =
      let (started, states) = try_start_closing S t.state_manager id in
      let t' = record t { state_manager = states } in
      if started
      then (ok tt, clean_up id (mark_session_closed id (force_close_adapter t')))
      else (ok tt, t')

  unfoldable pub disconnect : CloseResult → Transport → Result (Unit {0}) TransportError × Transport
  disconnect result t = elim t.session_id [
    | none ↦ (refused "Not connected", t)
    | some id ↦ close_session id result t
  ]

  unfoldable pub is_connected : Transport → Bool
  is_connected t = elim t.session_id [ none ↦ false | some id ↦ true ]

  unfoldable pub should_ignore_messages : ℕ → Transport → Bool
  should_ignore_messages id t = States.should_ignore_messages S t.state_manager id

  -- The adapter that was there before is dropped.
  unfoldable pub set_connection : ℕ → ℕ → Transport → Transport
  set_connection adapter id t = record t {
    connection_adapter = some adapter;
    session_id = some id;
    state_manager = add_connection S t.state_manager id;
    calls = names adapter id ∷ t.calls;
  }
