-- ===== src/Server/Registry/Steps.antt =====
-- src/transport/transport_server.rs: every method of TransportServer keeps its tables in step.
use msgtrans_rust.Base.{
  ℕ, ◌<◌, ◌≡◌, ◌⊎◌, inl, inr, refl, arith, List, [], ◌∷◌, none, length, length-set, get_or-set,
  Result, Option-cases, Bool-cases,
}
use msgtrans_rust.Packet.Message.{Packet}
use msgtrans_rust.TransportError.{TransportError}
use msgtrans_rust.Event.{CloseReason, TransportEvent}
use msgtrans_rust.Event
use msgtrans_rust.Session.States.{closed, closing, try_start_closing, mark_closed}
use msgtrans_rust.Transport.{CloseResult, disconnect, force_close_adapter, clean_up, close_session}
use msgtrans_rust.Transport
use msgtrans_rust.Transport.Closing.{closed_with, close_session_cases, disconnect_cases}
use msgtrans_rust.Server.{Tables, TransportServer, Object, blank, emit, object, put_object}
use msgtrans_rust.Server.Sessions.{
  Disconnection, returned, cut_off, at_lock, at_close, at_second_close, Round, overdue, in_time,
  accept, cut_disconnect, disconnected, do_close_session, finish_close, close_with, close_one,
  close_each, close_all_sessions, broadcast_one, broadcast_each, broadcast,
}
use msgtrans_rust.Server.Sessions
use msgtrans_rust.Event.Conversion
use msgtrans_rust.Server.Registry.{
  present, IsRegistered, Keeps, Keeps-IsRegistered, remove_session-IsRegistered,
}

module _ (D : Tables) where
  open D use {by_state, by_object, by_stats, by_channel}

  -- A transport stays on its session or leaves it.
  abbrev pub Stays : Object D → Object D → Type 0
  Stays t t' = (t'.session_id ≡ none) ⊎ (t'.session_id ≡ t.session_id)

  pub put_object-Keeps :
      (o : ℕ) (t' : Object D) (s : TransportServer D)
      → o < length s.objects
      → Stays (object D o s) t'
      → Keeps D s (put_object D o t' s)
  put_object-Keeps o t' s made stays = record {
    same_transports = refl;
    same_stats = refl;
    same_generator = refl;
    same_states = λ id. refl;
    same_length = length-set s.objects o t';
    same_session = λ i. ground (arith, get_or-set s.objects o i t' (blank D) made, stays);
  }

  try_start_closing-present :
      (id j : ℕ) (states : by_state.Carrier)
      → present (by_state.get (try_start_closing by_state states id).1 j)
        ≡ present (by_state.get states j)
  unfolding try_start_closing
  try_start_closing-present id j states = ground (arith, by_state.get-put_at id j closing states)

  mark_closed-present :
      (id j : ℕ) (states : by_state.Carrier)
      → present (by_state.get (mark_closed by_state states id) j) ≡ present (by_state.get states j)
  unfolding mark_closed
  mark_closed-present id j states = ground (arith, by_state.get-put_at id j closed states)

  -- A change of the states alone.
  states-Keeps :
      (s : TransportServer D) (states : by_state.Carrier)
      → ((j : ℕ) → present (by_state.get states j) ≡ present (by_state.get s.state_manager j))
      → Keeps D s (record s { state_manager = states })
  states-Keeps s states h = record {
    same_transports = refl;
    same_stats = refl;
    same_generator = refl;
    same_states = h;
    same_length = refl;
    same_session = λ i. inr refl;
  }

  pub send-Stays :
      (packet : Packet) (result : Result (Unit {0}) TransportError) (t : Object D)
      → Stays t (Transport.send by_state by_channel packet result t).1
  unfolding Transport.send
  send-Stays packet result t = ground arith

  closed_with-Stays :
      (id : ℕ) (calls : List Transport.AdapterCall) (t : Object D)
      → Stays t (closed_with by_state by_channel id calls t)
  unfolding clean_up
  closed_with-Stays id calls t = ground arith

  close_session-Stays :
      (id : ℕ) (result : CloseResult) (t : Object D)
      → Stays t (close_session by_state by_channel id result t).1
  close_session-Stays id result t = elim (close_session_cases by_state by_channel id result t) [
    | inl (e, f) ↦ rw e (inr refl)
    | inr (calls, forced, e, f) ↦ rw e (closed_with-Stays id calls t)
  ]

  disconnect-Stays :
      (result : CloseResult) (t : Object D) → Stays t (disconnect by_state by_channel result t).1
  disconnect-Stays result t = elim (disconnect_cases by_state by_channel result t) [
    | inl e ↦ rw e (inr refl)
    | inr (id, e) ↦ rw e (close_session-Stays id result t)
  ]

  disconnected-Stays : (ending : Disconnection) (t : Object D) → Stays t (disconnected D ending t)
  unfolding disconnected cut_disconnect Transport.do_close_session
  disconnected-Stays (returned result) t = disconnect-Stays result t
  disconnected-Stays (cut_off at_lock) t = ground arith
  disconnected-Stays (cut_off at_close) t = ground arith
  disconnected-Stays (cut_off at_second_close) t = ground arith

  -- The changes that a method makes of the transport of one session, or of none.
  do_close_session-Keeps :
      (id : ℕ) (ending : Disconnection) (s : TransportServer D)
      → IsRegistered D s
      → Keeps D s (do_close_session D id ending s)
  unfolding do_close_session
  do_close_session-Keeps id ending s v = elim (Option-cases (by_object.get s.transports id)) [
    | inl e ↦ rw (e, do_close_session) (states-Keeps s s.state_manager (λ j. refl))
    | inr (o, e) ↦
        rw (e, do_close_session)
          (put_object-Keeps o _ s (v.made id o e) (disconnected-Stays ending (object D o s)))
  ]

  -- States, events, responses and counters are not in the tables.
  abbrev pub SameTables : TransportServer D → TransportServer D → Type 0
  SameTables s u =
      (u.transports ≡ s.transports)
      × (u.stats ≡ s.stats)
      × (u.session_id_generator ≡ s.session_id_generator)
      × (u.state_manager ≡ s.state_manager)
      × (u.objects ≡ s.objects)

  SameTables-Keeps : (s u : TransportServer D) → SameTables s u → Keeps D s u
  SameTables-Keeps s u (a, b, d, e, f) = record {
    same_transports = a;
    same_stats = b;
    same_generator = d;
    same_states = λ j. rw e refl;
    same_length = rw f refl;
    same_session = λ i. rw f (inr refl);
  }

  pub SameTables-IsRegistered :
      (s u : TransportServer D) → SameTables s u → IsRegistered D s → IsRegistered D u
  SameTables-IsRegistered s u h = Keeps-IsRegistered D s u (SameTables-Keeps s u h)

  finish_close-IsRegistered :
      (reason : CloseReason) (id : ℕ) (ending : Disconnection) (s : TransportServer D)
      → IsRegistered D s
      → IsRegistered D (finish_close D reason id ending s)
  unfolding finish_close emit
  finish_close-IsRegistered reason id ending s v =
      let noted = emit D (Conversion.connection_closed id reason) s in
      let u = do_close_session D id ending noted in
      let w = SameTables-IsRegistered s noted (refl, refl, refl, refl, refl) v in
      remove_session-IsRegistered D id _ (
        Keeps-IsRegistered D u _ (states-Keeps u _ (λ j. mark_closed-present id j u.state_manager))
          (Keeps-IsRegistered D noted u (do_close_session-Keeps id ending noted w) w))

  pub close_with-IsRegistered :
      (reason : CloseReason) (id : ℕ) (ending : Disconnection) (s : TransportServer D)
      → IsRegistered D s
      → IsRegistered D (close_with D reason id ending s).1
  unfolding close_with
  close_with-IsRegistered reason id ending s v =
      let (started, states) = try_start_closing by_state s.state_manager id in
      let claimed = record s { state_manager = states } in
      let w =
        Keeps-IsRegistered D s claimed
          (states-Keeps s states (λ j. try_start_closing-present id j s.state_manager)) v in
      elim (Bool-cases started) [
        | inl e ↦ rw (close_with, e) (finish_close-IsRegistered reason id ending claimed w)
        | inr e ↦ rw (close_with, e) w
      ]

  close_one-IsRegistered :
      (id : ℕ) (r : Round) (s : TransportServer D)
      → IsRegistered D s
      → IsRegistered D (close_one D id r s)
  unfolding close_one Sessions.close_session Sessions.force_close_session
  close_one-IsRegistered id (overdue result) s v =
      close_with-IsRegistered Event.forced id (returned result) s v
  close_one-IsRegistered id (in_time ending) s v =
      close_with-IsRegistered Event.normal id ending s v

  pub close_each-IsRegistered :
      (ids : List ℕ) (rounds : ℕ → Round) (s : TransportServer D)
      → IsRegistered D s
      → IsRegistered D (close_each D ids rounds s)
  unfolding close_each
  close_each-IsRegistered [] rounds s v = v
  close_each-IsRegistered (id ∷ ids) rounds s v =
      close_each-IsRegistered ids rounds _ (close_one-IsRegistered id (rounds id) s v)

  broadcast_one-IsRegistered :
      (packet : Packet) (id : ℕ) (result : Result (Unit {0}) TransportError) (s : TransportServer D)
      → IsRegistered D s
      → IsRegistered D (broadcast_one D packet id result s)
  unfolding broadcast_one
  broadcast_one-IsRegistered packet id result s v =
      elim (Option-cases (by_object.get s.transports id)) [
        | inl e ↦ rw (e, broadcast_one) v
        | inr (o, e) ↦
            rw (e, broadcast_one)
              (Keeps-IsRegistered D s _
                (put_object-Keeps o _ s (v.made id o e) (send-Stays packet result (object D o s)))
                v)
      ]

  pub broadcast_each-IsRegistered :
      (packet : Packet) (ids : List ℕ) (results : ℕ → Result (Unit {0}) TransportError)
      (s : TransportServer D)
      → IsRegistered D s
      → IsRegistered D (broadcast_each D packet ids results s)
  unfolding broadcast_each
  broadcast_each-IsRegistered packet [] results s v = v
  broadcast_each-IsRegistered packet (id ∷ ids) results s v =
      broadcast_each-IsRegistered packet ids results _
        (broadcast_one-IsRegistered packet id (results id) s v)
