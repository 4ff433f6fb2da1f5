-- ===== src/Server/Sessions.antt =====
-- src/transport/transport_server.rs: accepting and closing sessions, and broadcasting.
use msgtrans_rust.Base.{ℕ, List, [], ◌∷◌, none, some, if◌then◌else◌, Result, ok}
use msgtrans_rust.Packet.Message.{Packet}
use msgtrans_rust.TransportError.{TransportError}
use msgtrans_rust.Command.{ConnectionInfo}
use msgtrans_rust.Event
use msgtrans_rust.Event.{CloseReason}
use msgtrans_rust.Event.Conversion.{connection_closed, connection_established}
use msgtrans_rust.Session.States.{try_start_closing, mark_closed}
use msgtrans_rust.Transport.{Transport, CloseResult, done, late, disconnect}
use msgtrans_rust.Transport
use msgtrans_rust.Server.{
  Tables, TransportServer, Object, emit, object, put_object, generate_session_id, add_session,
  remove_session, active_sessions,
}

-- Where a disconnect of a transport that has claimed its session waits: for the lock of the adapter,
-- in the first call of `close`, or in the second one, behind a first that failed or was late.
pub data CutPoint : Type 0 where
  at_lock at_close at_second_close : CutPoint

-- How `timeout(graceful_timeout, transport.disconnect())` ends: the call returns, or it is cut off
-- while it waits.
pub data Disconnection : Type 0 where
  returned : CloseResult → Disconnection
  cut_off : CutPoint → Disconnection

-- What the runtime decides in one round of close_all_sessions: the time is over, or a close ends.
pub data Round : Type 0 where
  overdue : CloseResult → Round
  in_time : Disconnection → Round

module _ (D : Tables) where
  -- One round of the accept loop.
  unfoldable pub accept : ℕ → ConnectionInfo → ℕ → TransportServer D → ℕ × TransportServer D
  accept adapter info now s =
      let (id, s') = generate_session_id D s in
      (id, emit D (connection_established id info) (add_session D adapter id now s'))

  -- A disconnect that is cut off has claimed the session; what follows the wait is not done, so that
  -- the transport stays on its session and its adapter.
  unfoldable pub cut_disconnect : CutPoint → Object D → Object D
  cut_disconnect point t = elim t.session_id [
    | none ↦ t
    | some id ↦
        let (started, states) = try_start_closing D.by_state t.state_manager id in
        let t' = record t { state_manager = states } in
        if started
        then elim point [
          | at_lock ↦ t'
          | at_close ↦ Transport.do_close_session D.by_state D.by_channel done t'
          | at_second_close ↦ Transport.do_close_session D.by_state D.by_channel late t'
        ]
        else t'
  ]

  unfoldable pub disconnected : Disconnection → Object D → Object D
  disconnected (returned result) t = (disconnect D.by_state D.by_channel result t).1
  disconnected (cut_off point) t = cut_disconnect point t

  -- Every result of the disconnect is ignored.
  unfoldable pub do_close_session : ℕ → Disconnection → TransportServer D → TransportServer D
  do_close_session id ending s = elim (D.by_object.get s.transports id) [
    | none ↦ s
    | some o ↦ put_object D o (disconnected ending (object D o s)) s
  ]

  -- Behind the claim: the event, the transport's disconnect, the mark and the removal.
  unfoldable pub finish_close :
      CloseReason → ℕ → Disconnection → TransportServer D → TransportServer D
  finish_close reason id ending s =
      let u = do_close_session id ending (emit D (connection_closed id reason) s) in
      remove_session D id (record u { state_manager = mark_closed D.by_state u.state_manager id })

  unfoldable pub close_with :
      CloseReason
      → ℕ
      → Disconnection
      → TransportServer D
      → Result (Unit {0}) TransportError × TransportServer D
  close_with reason id ending s =
      let (started, states) = try_start_closing D.by_state s.state_manager id in
      let s' = record s { state_manager = states } in
      if started then (ok tt, finish_close reason id ending s') else (ok tt, s')

  unfoldable pub close_session :
      ℕ → Disconnection → TransportServer D → Result (Unit {0}) TransportError × TransportServer D
  close_session id ending s = close_with Event.normal id ending s

  unfoldable pub force_close_session :
      ℕ → CloseResult → TransportServer D → Result (Unit {0}) TransportError × TransportServer D
  force_close_session id result s = close_with Event.forced id (returned result) s

  -- One session of close_all_sessions.
  unfoldable pub close_one : ℕ → Round → TransportServer D → TransportServer D
  close_one id (overdue result) s = (force_close_session id result s).1
  close_one id (in_time ending) s = (close_session id ending s).1

  unfoldable pub close_each : List ℕ → (ℕ → Round) → TransportServer D → TransportServer D
  close_each [] rounds s = s
  close_each (id ∷ ids) rounds s = close_each ids rounds (close_one id (rounds id) s)

  unfoldable pub close_all_sessions : (ℕ → Round) → TransportServer D → TransportServer D
  close_all_sessions rounds s = close_each (active_sessions D s) rounds s

  -- One session of a broadcast.
  unfoldable pub broadcast_one :
      Packet → ℕ → Result (Unit {0}) TransportError → TransportServer D → TransportServer D
  broadcast_one packet id result s = elim (D.by_object.get s.transports id) [
    | none ↦ s
    | some o ↦
        put_object D o (Transport.send D.by_state D.by_channel packet result (object D o s)).1 s
  ]

  unfoldable pub broadcast_each :
      Packet
      → List ℕ
      → (ℕ → Result (Unit {0}) TransportError)
      → TransportServer D
      → TransportServer D
  broadcast_each packet [] results s = s
  broadcast_each packet (id ∷ ids) results s =
      broadcast_each packet ids results (broadcast_one packet id (results id) s)

  unfoldable pub broadcast :
      Packet → (ℕ → Result (Unit {0}) TransportError) → TransportServer D → TransportServer D
  broadcast packet results s = broadcast_each packet (active_sessions D s) results s
