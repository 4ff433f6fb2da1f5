-- ===== src/Server/Closing.antt =====
-- src/transport/transport_server.rs: what closing one session and all sessions leaves.
use msgtrans_rust.Base.{
  ℕ, ◌≡◌, ◌≢◌, inl, inr, refl, arith, List, [], ◌∷◌, none, some, ◌==◌, if◌then◌else◌, set,
  get_or-set, Result, ok, member, Option-cases, sym, ◌∙◌,
}
use msgtrans_rust.TransportError.{TransportError}
use msgtrans_rust.Event.{CloseReason}
use msgtrans_rust.Transport.{CloseResult}
use msgtrans_rust.Event
use msgtrans_rust.Event.Conversion.{connection_closed}
use msgtrans_rust.Session.States.{connected, closed, closing, try_start_closing, remove_connection}
use msgtrans_rust.Transport.Closing.{started, marked}
use msgtrans_rust.Server.{
  Tables, TransportServer, blank, emit, object, remove_session, active_sessions,
}
use msgtrans_rust.Server.Sessions.{
  Disconnection, returned, Round, overdue, in_time, disconnected, do_close_session, finish_close,
  close_with, close_session, force_close_session, close_one, close_each, close_all_sessions,
}
use msgtrans_rust.Server.Registry.{IsRegistered}
use msgtrans_rust.Server.Registry.Steps.{close_with-IsRegistered, close_each-IsRegistered}

module _ (D : Tables) where
  open D use {by_state, by_object, by_stats, by_channel}

  -- What a close of a session on the transport `o` leaves.
  abbrev pub after_close :
      CloseReason → ℕ → ℕ → Disconnection → TransportServer D → TransportServer D
  after_close reason id o ending s = record s {
    events = connection_closed id reason ∷ s.events;
    objects = set s.objects o (disconnected D ending (object D o s));
    transports = by_object.drop_at id s.transports;
    stats = by_stats.drop_at id s.stats;
    state_manager =
        by_state.drop_at id
          (by_state.put_at id closed (by_state.put_at id closing s.state_manager));
  }

  close_with_connected :
      (reason : CloseReason) (id o : ℕ) (ending : Disconnection) (s : TransportServer D)
      → by_state.get s.state_manager id ≡ some connected
      → by_object.get s.transports id ≡ some o
      → close_with D reason id ending s ≡ (ok tt, after_close reason id o ending s)
  unfolding close_with finish_close do_close_session emit remove_session remove_connection
  close_with_connected reason id o ending s live found =
      rw
        (
          started by_state by_channel id s.state_manager live,
          do_close_session,
          found,
          started by_state by_channel id s.state_manager live,
          marked by_state by_channel id s.state_manager,
        )
        refl

  close_with_skipped :
      (reason : CloseReason) (id : ℕ) (ending : Disconnection) (s : TransportServer D)
      → by_state.get s.state_manager id ≢ some connected
      → close_with D reason id ending s ≡ (ok tt, s)
  unfolding close_with try_start_closing
  close_with_skipped reason id ending s h = ground arith

  -- A session that stands in none of the tables.
  abbrev pub Gone : ℕ → TransportServer D → Type 0
  Gone id s =
      (by_object.get s.transports id ≡ none)
      × (by_stats.get s.stats id ≡ none)
      × (by_state.get s.state_manager id ≡ none)

  -- The tables and the transport of another session are as they were.
  abbrev pub Untouched : ℕ → TransportServer D → TransportServer D → Type 0
  Untouched id s u =
      (j o : ℕ)
      → j ≢ id
      → (by_object.get u.transports j ≡ by_object.get s.transports j)
        × (by_stats.get u.stats j ≡ by_stats.get s.stats j)
        × (by_state.get u.state_manager j ≡ by_state.get s.state_manager j)
        × (by_object.get s.transports j ≡ some o → object D o u ≡ object D o s)

  after_close-Gone :
      (reason : CloseReason) (id o : ℕ) (ending : Disconnection) (s : TransportServer D)
      → Gone id (after_close reason id o ending s)
  after_close-Gone reason id o ending s = (
    ground (arith, by_object.get-drop_at id id s.transports),
    ground (arith, by_stats.get-drop_at id id s.stats),
    ground (
      arith,
      by_state.get-drop_at id id
          (by_state.put_at id closed (by_state.put_at id closing s.state_manager)),
    ),
  )

  after_close-Untouched :
      (reason : CloseReason) (id o : ℕ) (ending : Disconnection) (s : TransportServer D)
      → IsRegistered D s
      → by_object.get s.transports id ≡ some o
      → Untouched id s (after_close reason id o ending s)
  after_close-Untouched reason id o ending s v found j i other = (
    ground (arith, by_object.get-drop_at id j s.transports),
    ground (arith, by_stats.get-drop_at id j s.stats),
    ground (
      arith,
      by_state.get-drop_at id j
          (by_state.put_at id closed (by_state.put_at id closing s.state_manager)),
      by_state.get-put_at id j closed (by_state.put_at id closing s.state_manager),
      by_state.get-put_at id j closing s.state_manager,
    ),
    λ e. ground (
      arith,
      get_or-set s.objects o i (disconnected D ending (object D o s)) (blank D) (v.made id o found),
      v.own id j o found,
    ),
  )

  -- What a close with a reason leaves of a session on the transport `o`; a further close is neither
  -- refused nor has it an effect.
  abbrev pub ClosedWith :
      CloseReason
      → ℕ
      → ℕ
      → Disconnection
      → TransportServer D
      → Result (Unit {0}) TransportError × TransportServer D
      → Type 0
  ClosedWith reason id o ending s (res, u) =
      (res ≡ ok tt)
      × (u.events ≡ connection_closed id reason ∷ s.events)
      × (object D o u ≡ disconnected D ending (object D o s))
      × Gone id u
      × Untouched id s u
      × ((later : Disconnection) → close_session D id later u ≡ (ok tt, u))
      × ((later : CloseResult) → force_close_session D id later u ≡ (ok tt, u))

  close_with-ClosedWith :
      (reason : CloseReason) (id o : ℕ) (ending : Disconnection) (s : TransportServer D)
      → IsRegistered D s
      → by_state.get s.state_manager id ≡ some connected
      → by_object.get s.transports id ≡ some o
      → ClosedWith reason id o ending s (close_with D reason id ending s)
  unfolding close_session force_close_session
  close_with-ClosedWith reason id o ending s v live found =
      let u = after_close reason id o ending s in
      let gone = after_close-Gone reason id o ending s in
      rw (close_with_connected reason id o ending s live found) (
        refl,
        refl,
        ground (
          arith,
          get_or-set s.objects o o (disconnected D ending (object D o s)) (blank D)
              (v.made id o found),
        ),
        gone,
        after_close-Untouched reason id o ending s v found,
        λ later. close_with_skipped Event.normal id later u (λ e. cc (gone.2)),
        λ later. close_with_skipped Event.forced id (returned later) u (λ e. cc (gone.2)),
      )

  -- On a registered server a session that is connected has a transport, and a close of it does the
  -- following. The call succeeds and tells the subscribers once, a graceful close with the reason
  -- Normal and a forced one with the reason Forced. The transport is as its `disconnect` leaves it;
  -- for a graceful close `ending` says whether that returns or where it is cut off. The session
  -- stands in no table, every other session keeps its entries and its transport, and a further close
  -- of either kind succeeds and changes nothing.
  pub close_once :
      (id : ℕ) (ending : Disconnection) (result : CloseResult) (s : TransportServer D)
      → IsRegistered D s
      → by_state.get s.state_manager id ≡ some connected
      → (o : ℕ) × (by_object.get s.transports id ≡ some o)
        × ClosedWith Event.normal id o ending s (close_session D id ending s)
        × ClosedWith Event.forced id o (returned result) s (force_close_session D id result s)
  unfolding close_session force_close_session
  close_once id ending result s v live =
      let (o, found) = held in
      (
        o,
        found,
        close_with-ClosedWith Event.normal id o ending s v live found,
        close_with-ClosedWith Event.forced id o (returned result) s v live found,
      )
    where
      held : (o : ℕ) × (by_object.get s.transports id ≡ some o)
      held = elim (Option-cases (by_object.get s.transports id)) [
        | inl e ↦ absurd (ground (arith, v.with_state id))
        | inr h ↦ h
      ]

  -- Every session that stands in the table is connected.
  abbrev pub AllConnected : TransportServer D → Type 0
  AllConnected s =
      (id o : ℕ)
      → by_object.get s.transports id ≡ some o
      → by_state.get s.state_manager id ≡ some connected

  close_with-transports :
      (reason : CloseReason) (id j : ℕ) (ending : Disconnection) (s : TransportServer D)
      → IsRegistered D s
      → AllConnected s
      → let u = (close_with D reason id ending s).1 in
        (by_object.get u.transports j ≡ (if id == j then none else by_object.get s.transports j))
        × (id ≢ j → by_state.get u.state_manager j ≡ by_state.get s.state_manager j)
  close_with-transports reason id j ending s v a =
      elim (Option-cases (by_object.get s.transports id)) [
        | inr (o, found) ↦ rw (close_with_connected reason id o ending s (a id o found) found) (
          by_object.get-drop_at id j s.transports,
          λ other. (after_close-Untouched reason id o ending s v found j o (λ e. other (sym e))).2,
        )
        | inl e ↦
            rw (close_with_skipped reason id ending s (λ f. cc (v.with_state id)))
              (ground arith, λ other. refl)
      ]

  close_with-AllConnected :
      (reason : CloseReason) (id : ℕ) (ending : Disconnection) (s : TransportServer D)
      → IsRegistered D s
      → AllConnected s
      → AllConnected (close_with D reason id ending s).1
  close_with-AllConnected reason id ending s v a j o e =
      let (kept, same) = close_with-transports reason id j ending s v a in
      ground (arith, kept, same, a j o)

  -- One round of close_all_sessions is a close for a reason.
  close_one-close_with :
      (id : ℕ) (r : Round) (s : TransportServer D)
      → (reason : CloseReason) × (ending : Disconnection) × (close_one D id r s
          ≡ (close_with D reason id ending s).1)
  unfolding close_one close_session force_close_session
  close_one-close_with id (overdue result) s = (Event.forced, returned result, refl)
  close_one-close_with id (in_time ending) s = (Event.normal, ending, refl)

  close_each-transports :
      (ids : List ℕ) (rounds : ℕ → Round) (j : ℕ) (s : TransportServer D)
      → IsRegistered D s
      → AllConnected s
      → by_object.get (close_each D ids rounds s).transports j
        ≡ (if member j ids then none else by_object.get s.transports j)
  unfolding close_each
  close_each-transports [] rounds j s v a = refl
  close_each-transports (id ∷ ids) rounds j s v a =
      let (reason, ending, e) = close_one-close_with id (rounds id) s in
      let u = (close_with D reason id ending s).1 in
      rw (close_each, e)
        (ground (
          arith,
          close_each-transports ids rounds j u (close_with-IsRegistered D reason id ending s v)
              (close_with-AllConnected reason id ending s v a),
          close_with-transports reason id j ending s v a,
        ))

  -- On a registered server on which every session is connected, close_all_sessions empties the
  -- three tables, whichever sessions it closes in time and whichever by force.
  pub close_all_sessions-Gone :
      (rounds : ℕ → Round) (id : ℕ) (s : TransportServer D)
      → IsRegistered D s
      → AllConnected s
      → Gone id (close_all_sessions D rounds s)
  unfolding close_all_sessions active_sessions
  close_all_sessions-Gone rounds id s v a =
      let ids = by_object.all_keys s.transports in
      let u = close_each D ids rounds s in
      let w = close_each-IsRegistered D ids rounds s v in
      let e : by_object.get u.transports id ≡ none =
        close_each-transports ids rounds id s v a
        ∙ ground (arith, by_object.keys_complete s.transports id) in
      (e, ground (arith, w.with_stats id), ground (arith, w.with_state id))
