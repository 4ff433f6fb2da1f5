-- ===== src/Transport/Closing.antt =====
-- The close protocol of src/transport/transport.rs, and what it does to the adapter.
use msgtrans_rust.Base.{
  ℕ, ◌≡◌, ◌≢◌, ◌⊎◌, inl, inr, refl, Option, Option-cases, arith, true, false, List, [], ◌∷◌, ◌++◌,
  none, some, Result, ok,
}
use msgtrans_rust.Packet.Message.{Packet}
use msgtrans_rust.TransportError.{TransportError}
use msgtrans_rust.Lockfree.Interface.{Dictionary}
use msgtrans_rust.Session.States.{
  ConnectionState, connected, closed, closing, try_start_closing, mark_closed,
}
use msgtrans_rust.Transport.{
  Transport, AdapterCall, closes, CloseResult, done, late, failed, send, do_close_session,
  force_close_adapter, mark_session_closed, clean_up, close_session, force_close_session,
  is_connected, refused, disconnect,
}

-- The calls of `close` that a graceful close makes of an adapter.
abbrev pub close_calls : ℕ → CloseResult → List AdapterCall
close_calls adapter done = closes adapter ∷ []
close_calls adapter late = closes adapter ∷ closes adapter ∷ []
close_calls adapter (failed e) = closes adapter ∷ closes adapter ∷ []

pub connected_cases : (o : Option ConnectionState) → (o ≡ some connected) ⊎ (o ≢ some connected)
connected_cases none = inr (λ e. cc)
connected_cases (some connected) = inl refl
connected_cases (some closing) = inr (λ e. cc)
connected_cases (some closed) = inr (λ e. cc)

module _ (S : Dictionary ConnectionState) (R : Dictionary ℕ) where
  open S use {get, put_at, get-put_at}

  -- A session that is not connected is not closed.
  close_session_skipped :
      (id : ℕ) (result : CloseResult) (t : Transport S R)
      → get t.state_manager id ≢ some connected
      → (close_session S R id result t ≡ (ok tt, t)) × (force_close_session S R id t ≡ (ok tt, t))
  unfolding close_session force_close_session try_start_closing
  close_session_skipped id result t e = ground arith

  pub started :
      (id : ℕ) (states : S.Carrier)
      → get states id ≡ some connected
      → try_start_closing S states id ≡ (true, put_at id closing states)
  unfolding try_start_closing
  started id states e = rw (e, try_start_closing)

  pub marked :
      (id : ℕ) (states : S.Carrier)
      → mark_closed S (put_at id closing states) id ≡ put_at id closed (put_at id closing states)
  unfolding mark_closed
  marked id states = ground (arith, get-put_at id id closing states)

  -- What is left of a close once the adapter has been closed.
  abbrev pub closed_with : ℕ → List AdapterCall → Transport S R → Transport S R
  closed_with id calls t = clean_up S R id (record t {
    state_manager = put_at id closed (put_at id closing t.state_manager);
    calls = calls ++ t.calls;
  })

  pub close_session_connected :
      (id adapter : ℕ) (result : CloseResult) (t : Transport S R)
      → get t.state_manager id ≡ some connected
      → t.connection_adapter ≡ some adapter
      → close_session S R id result t ≡ (ok tt, closed_with id (close_calls adapter result) t)
  unfolding close_session mark_session_closed do_close_session
  close_session_connected id adapter done t e a =
      rw (started id t.state_manager e, a, marked id t.state_manager) refl
  close_session_connected id adapter late t e a =
      rw (started id t.state_manager e, a, marked id t.state_manager) refl
  close_session_connected id adapter (failed x) t e a =
      rw (started id t.state_manager e, a, marked id t.state_manager) refl

  pub force_close_session_connected :
      (id adapter : ℕ) (t : Transport S R)
      → get t.state_manager id ≡ some connected
      → t.connection_adapter ≡ some adapter
      → force_close_session S R id t ≡ (ok tt, closed_with id (closes adapter ∷ []) t)
  unfolding force_close_session mark_session_closed force_close_adapter
  force_close_session_connected id adapter t e a =
      rw (started id t.state_manager e, a, marked id t.state_manager) refl

  -- Either nothing happens, or the adapter is closed if there is one.
  pub close_session_cases :
      (id : ℕ) (result : CloseResult) (t : Transport S R)
      → ((close_session S R id result t ≡ (ok tt, t)) × (force_close_session S R id t ≡ (ok tt, t)))
        ⊎ ((calls : List AdapterCall) × (forced : List AdapterCall) × (close_session S R id result t
              ≡ (ok tt, closed_with id calls t))
            × (force_close_session S R id t ≡ (ok tt, closed_with id forced t)))
  unfolding close_session force_close_session mark_session_closed do_close_session
      force_close_adapter
  close_session_cases id result t = elim (connected_cases (get t.state_manager id)) [
    | inr e ↦ inl (close_session_skipped id result t e)
    | inl e ↦ elim (Option-cases t.connection_adapter) [
      | inr (adapter, a) ↦ inr (
        close_calls adapter result,
        closes adapter ∷ [],
        close_session_connected id adapter result t e a,
        force_close_session_connected id adapter t e a,
      )
      | inl a ↦ inr (
        [],
        [],
        rw (started id t.state_manager e, a, marked id t.state_manager) refl,
        rw (started id t.state_manager e, a, marked id t.state_manager) refl,
      )
    ]
  ]

  pub disconnect_cases :
      (result : CloseResult) (t : Transport S R)
      → ((disconnect S R result t).1 ≡ t)
        ⊎ ((id : ℕ) × ((disconnect S R result t).1 ≡ (close_session S R id result t).1))
  unfolding disconnect
  disconnect_cases result t = elim (Option-cases t.session_id) [
    | inl e ↦ inl (ground arith)
    | inr (id, e) ↦ inr (id, ground arith)
  ]

  closed_with_closed :
      (id : ℕ) (calls : List AdapterCall) (t : Transport S R)
      → get (closed_with id calls t).state_manager id ≡ some closed
  unfolding clean_up
  closed_with_closed id calls t =
      ground (arith, get-put_at id id closed (put_at id closing t.state_manager))

  closed_with_current :
      (id : ℕ) (calls : List AdapterCall) (t : Transport S R)
      → t.session_id ≡ some id
      → ((closed_with id calls t).session_id ≡ none)
        × ((closed_with id calls t).connection_adapter ≡ none)
        × ((closed_with id calls t).calls ≡ calls ++ t.calls)
  unfolding clean_up
  closed_with_current id calls t e = ground arith

  -- What a close with these calls leaves.
  abbrev pub Closed :
      ℕ
      → List AdapterCall
      → CloseResult
      → Packet
      → Result (Unit {0}) TransportError
      → Transport S R
      → Result (Unit {0}) TransportError × Transport S R
      → Type 0
  Closed id calls again packet sent t (res, u) =
      (res ≡ ok tt)
      × (u.calls ≡ calls ++ t.calls)
      × (is_connected S R u ≡ false)
      × (u.connection_adapter ≡ none)
      × (get u.state_manager id ≡ some closed)
      × (close_session S R id again u ≡ (ok tt, u))
      × (force_close_session S R id u ≡ (ok tt, u))
      × (send S R packet sent u ≡ (refused "Not connected", u))

  closed_with-Closed :
      (id : ℕ) (calls : List AdapterCall) (again : CloseResult) (packet : Packet)
      (sent : Result (Unit {0}) TransportError) (t : Transport S R)
      → t.session_id ≡ some id
      → Closed id calls again packet sent t (ok tt, closed_with id calls t)
  unfolding is_connected send
  closed_with-Closed id calls again packet sent t current =
      let u = closed_with id calls t in
      let shut = closed_with_closed id calls t in
      let (no_session, no_adapter, called) = closed_with_current id calls t current in
      let (same, same_forced) = close_session_skipped id again u (λ e. cc) in
      (refl, called, rw no_session refl, no_adapter, shut, same, same_forced, rw no_session refl)

  -- A transport whose current session is connected on an adapter is closed, gracefully or by force,
  -- as follows. The call succeeds; the adapter is closed once if the close is forced or its
  -- graceful close ends well, and twice otherwise; the transport is disconnected, has no adapter
  -- and has the session as closed; a further close of either kind succeeds and changes nothing;
  -- and a send is refused and changes nothing.
  pub close_current :
      (id adapter : ℕ) (result again : CloseResult) (t : Transport S R) (packet : Packet)
      (sent : Result (Unit {0}) TransportError)
      → t.session_id ≡ some id
      → t.connection_adapter ≡ some adapter
      → get t.state_manager id ≡ some connected
      → Closed id (close_calls adapter result) again packet sent t (close_session S R id result t)
        × Closed id (closes adapter ∷ []) again packet sent t (force_close_session S R id t)
  close_current id adapter result again t packet sent current holds live =
      rw
        (
          close_session_connected id adapter result t live holds,
          force_close_session_connected id adapter t live holds,
        )
        (
          closed_with-Closed id (close_calls adapter result) again packet sent t current,
          closed_with-Closed id (closes adapter ∷ []) again packet sent t current,
        )

  -- An older session that is still connected is closed while the transport is on another one: the
  -- adapter of the current session is closed, and yet the transport stays connected, on that
  -- adapter and that session.
  pub close_older :
      (old id adapter : ℕ) (result : CloseResult) (t : Transport S R)
      → old ≢ id
      → t.session_id ≡ some id
      → t.connection_adapter ≡ some adapter
      → get t.state_manager old ≡ some connected
      → let (res, u) = close_session S R old result t in
        (res ≡ ok tt)
        × (u.calls ≡ close_calls adapter result ++ t.calls)
        × (is_connected S R u ≡ true)
        × (u.session_id ≡ some id)
        × (u.connection_adapter ≡ some adapter)
        × (get u.state_manager id ≡ get t.state_manager id)
  unfolding clean_up is_connected
  close_older old id adapter result t other current holds live =
      rw (close_session_connected old adapter result t live holds) (
        ground (
          arith,
          get-put_at old id closed (put_at old closing t.state_manager),
          get-put_at old id closing t.state_manager,
        ))
