-- ===== src/Server/Registry/Run.antt =====
-- src/transport/transport_server.rs: the tables of sessions over any history of calls.
use msgtrans_rust.Base.{
  ℕ, ◌+◌, ◌<◌, ◌≡◌, inl, inr, refl, arith, Bool, List, [], ◌∷◌, some, Result, Option-cases,
  Bool-cases, Result-cases,
}
use msgtrans_rust.Packet.Message.{Packet}
use msgtrans_rust.TransportError.{TransportError}
use msgtrans_rust.Command.{ConnectionInfo}
use msgtrans_rust.Event.{CloseReason, TransportEvent}
use msgtrans_rust.Event
use msgtrans_rust.Transport.{CloseResult, is_connected}
use msgtrans_rust.Transport
use msgtrans_rust.Transport.Messages.{start_request, register_and_send}
use msgtrans_rust.Server.{
  Tables, TransportServer, Object, emit, object, put_object, remove_session, fetch_message_id,
  send_to_session, send, request_to_session, request, active_sessions,
}
use msgtrans_rust.Server.Sessions.{
  Disconnection, Round, returned, accept, close_session, force_close_session, close_all_sessions,
  broadcast,
}
use msgtrans_rust.Server.Events.{
  handle_request, handle_message, handle_response, handle_transport_event,
}
use msgtrans_rust.Server.Registry.{
  IsRegistered, Keeps-IsRegistered, remove_session-IsRegistered, accept-IsRegistered,
}
use msgtrans_rust.Server.Registry.Steps.{
  put_object-Keeps, send-Stays, Stays, SameTables, SameTables-IsRegistered, close_with-IsRegistered,
  close_each-IsRegistered, broadcast_each-IsRegistered,
}

-- A call of a method of a server, with what adapters and the runtime decide.
pub data Call : Type 0 where
  accepts : ℕ → ConnectionInfo → ℕ → Call
  removes : ℕ → Call
  sends_packet requests_packet : ℕ → Packet → Result (Unit {0}) TransportError → Call
  sends requests : ℕ → List ℕ → Result (Unit {0}) TransportError → Call
  closes : ℕ → Disconnection → Call
  forces : ℕ → CloseResult → Call
  closes_all : (ℕ → Round) → Call
  broadcasts : Packet → (ℕ → Result (Unit {0}) TransportError) → Call
  sees : ℕ → TransportEvent → Call

module _ (D : Tables) (is_lost : TransportError → Bool) where
  open D use {by_state, by_object, by_channel}

  unfoldable pub step : Call → TransportServer D → TransportServer D
  step (accepts adapter info now) s = (accept D adapter info now s).1
  step (removes id) s = remove_session D id s
  step (sends_packet id packet result) s = (send_to_session D is_lost id packet result s).1
  step (requests_packet id packet result) s = (request_to_session D id packet result s).1
  step (sends id bytes result) s = (send D is_lost id bytes result s).1
  step (requests id bytes result) s = (request D id bytes result s).1
  step (closes id ending) s = (close_session D id ending s).1
  step (forces id result) s = (force_close_session D id result s).1
  step (closes_all rounds) s = close_all_sessions D rounds s
  step (broadcasts packet results) s = broadcast D packet results s
  step (sees id event) s = handle_transport_event D id event s

  unfoldable pub run : List Call → TransportServer D → TransportServer D
  run [] s = s
  run (call ∷ calls) s = run calls (step call s)

  -- The transport that a session has, after a call of it.
  put_object-IsRegistered :
      (id o : ℕ) (t : Object D) (s : TransportServer D)
      → by_object.get s.transports id ≡ some o
      → Stays D (object D o s) t
      → IsRegistered D s
      → IsRegistered D (put_object D o t s)
  put_object-IsRegistered id o t s found stays v =
      Keeps-IsRegistered D s (put_object D o t s)
        (put_object-Keeps D o t s (v.made id o found) stays) v

  send_to_session-IsRegistered :
      (id : ℕ) (packet : Packet) (result : Result (Unit {0}) TransportError) (s : TransportServer D)
      → IsRegistered D s
      → IsRegistered D (send_to_session D is_lost id packet result s).1
  unfolding send_to_session
  send_to_session-IsRegistered id packet result s v =
      elim (Option-cases (by_object.get s.transports id)) [
        | inl e ↦ rw (send_to_session, e) v
        | inr (o, e) ↦ elim (Bool-cases (is_connected by_state by_channel (object D o s))) [
          | inr c ↦ rw (send_to_session, e, c) (remove_session-IsRegistered D id s v)
          | inl c ↦
              let (answer, t) = Transport.send by_state by_channel packet result (object D o s) in
              let w =
                put_object-IsRegistered id o t s e (send-Stays D packet result (object D o s)) v in
              elim (Result-cases answer) [
                | inl (u, a) ↦ rw (send_to_session, e, c, a) w
                | inr (x, a) ↦ elim (Bool-cases (is_lost x)) [
                  | inl l ↦ rw (send_to_session, e, c, a, l) (remove_session-IsRegistered D id _ w)
                  | inr l ↦ rw (send_to_session, e, c, a, l) w
                ]
              ]
        ]
      ]

  start_request-Stays :
      (packet : Packet) (result : Result (Unit {0}) TransportError) (t : Object D)
      → Stays D t (start_request by_state by_channel packet result t).1
  unfolding start_request register_and_send Transport.send
  start_request-Stays packet result t = ground arith

  request_to_session-IsRegistered :
      (id : ℕ) (packet : Packet) (result : Result (Unit {0}) TransportError) (s : TransportServer D)
      → IsRegistered D s
      → IsRegistered D (request_to_session D id packet result s).1
  unfolding request_to_session
  request_to_session-IsRegistered id packet result s v =
      elim (Option-cases (by_object.get s.transports id)) [
        | inl e ↦ rw (request_to_session, e) v
        | inr (o, e) ↦ elim (Bool-cases (is_connected by_state by_channel (object D o s))) [
          | inr c ↦ rw (request_to_session, e, c) (remove_session-IsRegistered D id s v)
          | inl c ↦
              rw (request_to_session, e, c)
                (put_object-IsRegistered id o _ s e
                  (start_request-Stays packet result (object D o s)) v)
        ]
      ]

  message_received-SameTables :
      (id : ℕ) (p : Packet) (s : TransportServer D)
      → SameTables D s (handle_transport_event D id (Event.message_received p) s)
  unfolding handle_transport_event handle_request handle_response handle_message emit
  message_received-SameTables id p s = ground arith

  handle_transport_event-IsRegistered :
      (id : ℕ) (event : TransportEvent) (s : TransportServer D)
      → IsRegistered D s
      → IsRegistered D (handle_transport_event D id event s)
  unfolding handle_transport_event emit
  handle_transport_event-IsRegistered id (Event.message_received p) s v =
      SameTables-IsRegistered D s _ (message_received-SameTables id p s) v
  handle_transport_event-IsRegistered id (Event.connection_closed reason) s v =
      remove_session-IsRegistered D id _
        (SameTables-IsRegistered D s _ (refl, refl, refl, refl, refl) v)
  handle_transport_event-IsRegistered id event s v =
      SameTables-IsRegistered D s _ (refl, refl, refl, refl, refl) v

  step-IsRegistered :
      (call : Call) (s : TransportServer D)
      → s.session_id_generator + 1 < 18446744073709551616
      → IsRegistered D s
      → IsRegistered D (step call s)
  unfolding step send request fetch_message_id close_session force_close_session close_all_sessions
      broadcast
  step-IsRegistered (accepts adapter info now) s small v =
      accept-IsRegistered D adapter info now s small v
  step-IsRegistered (removes id) s small v = remove_session-IsRegistered D id s v
  step-IsRegistered (sends_packet id packet result) s small v =
      send_to_session-IsRegistered id packet result s v
  step-IsRegistered (requests_packet id packet result) s small v =
      request_to_session-IsRegistered id packet result s v
  step-IsRegistered (sends id bytes result) s small v =
      let s' = (fetch_message_id D s).1 in
      send_to_session-IsRegistered id _ result s'
        (SameTables-IsRegistered D s s' (refl, refl, refl, refl, refl) v)
  step-IsRegistered (requests id bytes result) s small v =
      let s' = (fetch_message_id D s).1 in
      request_to_session-IsRegistered id _ result s'
        (SameTables-IsRegistered D s s' (refl, refl, refl, refl, refl) v)
  step-IsRegistered (closes id ending) s small v =
      close_with-IsRegistered D Event.normal id ending s v
  step-IsRegistered (forces id result) s small v =
      close_with-IsRegistered D Event.forced id (returned result) s v
  step-IsRegistered (closes_all rounds) s small v =
      close_each-IsRegistered D (active_sessions D s) rounds s v
  step-IsRegistered (broadcasts packet results) s small v =
      broadcast_each-IsRegistered D packet (active_sessions D s) results s v
  step-IsRegistered (sees id event) s small v = handle_transport_event-IsRegistered id event s v

  -- The counter of session ids does not reach the end of u64 before any call of the history.
  abbrev pub Room : List Call → TransportServer D → Type 0
  Room [] s = Unit
  Room (call ∷ calls) s =
      (s.session_id_generator + 1 < 18446744073709551616) × Room calls (step call s)

  -- From a registered server every history of accepted connections, removals, sends, requests,
  -- closes of both kinds, closes of all sessions, broadcasts and transport events, during which the
  -- u64 counter of session ids does not run out, leads to a registered one: each session stands in
  -- all three tables or in none, its transport exists, belongs to no other session and is on that
  -- session or on none, and its id is below the counter.
  pub run-IsRegistered :
      (calls : List Call) (s : TransportServer D)
      → Room calls s
      → IsRegistered D s
      → IsRegistered D (run calls s)
  unfolding run
  run-IsRegistered [] s room v = v
  run-IsRegistered (call ∷ calls) s (small, room) v =
      run-IsRegistered calls (step call s) room (step-IsRegistered call s small v)
