-- ===== src/Transport/Coherence.antt =====
-- src/transport/transport.rs: the session, the adapter and the state of the session under every
-- method of Transport.
use msgtrans_rust.Base.{
  ℕ, ◌≡◌, ◌≢◌, inl, inr, refl, arith, List, [], ◌∷◌, none, some, ◌==◌, Result, sym, ap, ◌∙◌,
  Option-cases, Bool-cases,
}
use msgtrans_rust.Packet.Message.{Packet}
use msgtrans_rust.Packet.Compress.{Codecs}
use msgtrans_rust.TransportError.{TransportError}
use msgtrans_rust.Event.{TransportEvent}
use msgtrans_rust.Event
use msgtrans_rust.Lockfree.Interface.{Dictionary}
use msgtrans_rust.Session.States.{ConnectionState, connected, closed, closing, add_connection}
use msgtrans_rust.Transport.{
  Transport, AdapterCall, CloseResult, new, send, clean_up, close_session, force_close_session,
  disconnect, set_connection,
}
use msgtrans_rust.Transport.Messages.{register_and_send, start_request, on_event, emit}
use msgtrans_rust.Transport.Options.{
  TransportOptions, choose_id, send_with_options, start_request_with_options,
}
use msgtrans_rust.Transport.Closing.{closed_with, close_session_cases, disconnect_cases}

-- A call of a method of a transport, with the results of the adapter.
pub data Call : Type 0 where
  connects : ℕ → ℕ → Call
  sends_packet requests : Packet → Result (Unit {0}) TransportError → Call
  sends_bytes requests_bytes : List ℕ → TransportOptions → Result (Unit {0}) TransportError → Call
  closes_session : ℕ → CloseResult → Call
  forces_session : ℕ → Call
  disconnects : CloseResult → Call
  sees : TransportEvent → Call

module _ (S : Dictionary ConnectionState) (R : Dictionary ℕ) (c : Codecs) where
  open S use {get, put_at, get-put_at}

  unfoldable pub step : Call → Transport S R → Transport S R
  step (connects adapter id) t = set_connection S R adapter id t
  step (sends_packet p result) t = (send S R p result t).1
  step (requests p result) t = (start_request S R p result t).1
  step (sends_bytes bytes o result) t = (send_with_options S R c bytes o result t).1
  step (requests_bytes bytes o result) t = (start_request_with_options S R c bytes o result t).1
  step (closes_session id result) t = (close_session S R id result t).1
  step (forces_session id) t = (force_close_session S R id t).1
  step (disconnects result) t = (disconnect S R result t).1
  step (sees event) t = on_event S R c event t

  unfoldable pub run : List Call → Transport S R → Transport S R
  run [] t = t
  run (call ∷ calls) t = run calls (step call t)

  -- A current session is connected and has an adapter; without one there is no adapter.
  pub record IsCoherent (t : Transport S R) : Type 0 where
    pub absent : t.session_id ≡ none → t.connection_adapter ≡ none
    pub present : (id : ℕ) → t.session_id ≡ some id → t.connection_adapter ≢ none
    pub live : (id : ℕ) → t.session_id ≡ some id → get t.state_manager id ≡ some connected

  pub new-IsCoherent : IsCoherent (new S R)
  unfolding new
  new-IsCoherent = record { absent = λ e. refl; present = λ id e. cc; live = λ id e. cc }

  -- What a call may change without touching the connection.
  abbrev pub SameConnection : Transport S R → Transport S R → Type 0
  SameConnection t u =
      (u.session_id ≡ t.session_id)
      × (u.connection_adapter ≡ t.connection_adapter)
      × (u.state_manager ≡ t.state_manager)

  SameConnection-IsCoherent :
      (t u : Transport S R) → SameConnection t u → IsCoherent t → IsCoherent u
  SameConnection-IsCoherent t u (a, b, d) v = record {
    absent = λ e. b ∙ v.absent (sym a ∙ e);
    present = λ id e f. v.present id (sym a ∙ e) (sym b ∙ f);
    live = λ id e. ap (λ s. get s id) d ∙ v.live id (sym a ∙ e);
  }

  pub send-SameConnection :
      (p : Packet) (result : Result (Unit {0}) TransportError) (t : Transport S R)
      → SameConnection t (send S R p result t).1
  unfolding send
  send-SameConnection p result t = ground arith

  register_and_send-SameConnection :
      (id : ℕ) (p : Packet) (result : Result (Unit {0}) TransportError) (t : Transport S R)
      → SameConnection t (register_and_send S R id p result t).1
  unfolding register_and_send
  register_and_send-SameConnection id p result t = send-SameConnection p result _

  choose_id-SameConnection :
      (o : TransportOptions) (t : Transport S R) → SameConnection t (choose_id S R o t).1
  unfolding choose_id
  choose_id-SameConnection o t = ground arith

  on_event-SameConnection :
      (event : TransportEvent) (t : Transport S R) → SameConnection t (on_event S R c event t)
  unfolding on_event emit
  on_event-SameConnection (Event.message_received p) t = ground arith
  on_event-SameConnection event t = (refl, refl, refl)

  SameConnection-trans :
      (t u w : Transport S R) → SameConnection t u → SameConnection u w → SameConnection t w
  SameConnection-trans t u w (a, b, d) (e, f, g) = (e ∙ a, f ∙ b, g ∙ d)

  set_connection-IsCoherent :
      (adapter id : ℕ) (t : Transport S R) → IsCoherent (set_connection S R adapter id t)
  unfolding set_connection add_connection
  set_connection-IsCoherent adapter id t = record {
    absent = λ e. cc;
    present = λ j e f. cc;
    live = λ j e. ground (arith, get-put_at id j connected t.state_manager);
  }

  closed_with-IsCoherent :
      (id : ℕ) (calls : List AdapterCall) (t : Transport S R)
      → IsCoherent t
      → IsCoherent (closed_with S R id calls t)
  unfolding clean_up
  closed_with-IsCoherent id calls t v = elim (Option-cases t.session_id) [
    | inl e ↦ rw e (record { absent = λ f. v.absent e; present = λ j f. cc; live = λ j f. cc })
    | inr (current, e) ↦ elim (Bool-cases (current == id)) [
      | inl same ↦
          rw (e, same) (record { absent = λ f. refl; present = λ j f. cc; live = λ j f. cc })
      | inr other ↦
          rw (e, other)
            (record {
              absent = λ f. cc;
              present = λ j f. v.present current e;
              live = λ j f. ground (
                arith,
                v.live current e,
                get-put_at id j closed (put_at id closing t.state_manager),
                get-put_at id j closing t.state_manager,
              );
            })
    ]
  ]

  close_session-IsCoherent :
      (id : ℕ) (result : CloseResult) (t : Transport S R)
      → IsCoherent t
      → IsCoherent (close_session S R id result t).1 × IsCoherent (force_close_session S R id t).1
  close_session-IsCoherent id result t v = elim (close_session_cases S R id result t) [
    | inl (e, f) ↦ rw (e, f) (v, v)
    | inr (calls, forced, e, f) ↦
        rw (e, f) (closed_with-IsCoherent id calls t v, closed_with-IsCoherent id forced t v)
  ]

  disconnect-IsCoherent :
      (result : CloseResult) (t : Transport S R)
      → IsCoherent t
      → IsCoherent (disconnect S R result t).1
  disconnect-IsCoherent result t v = elim (disconnect_cases S R result t) [
    | inl e ↦ rw e v
    | inr (id, e) ↦ rw e (close_session-IsCoherent id result t v).0
  ]

  pub start_request-SameConnection :
      (p : Packet) (result : Result (Unit {0}) TransportError) (t : Transport S R)
      → SameConnection t (start_request S R p result t).1
  unfolding start_request
  start_request-SameConnection p result t =
      ground (arith, register_and_send-SameConnection p.header.message_id p result t)

  step-IsCoherent : (call : Call) (t : Transport S R) → IsCoherent t → IsCoherent (step call t)
  unfolding step send_with_options start_request_with_options
  step-IsCoherent (connects adapter id) t v = set_connection-IsCoherent adapter id t
  step-IsCoherent (sends_packet p result) t v =
      SameConnection-IsCoherent t _ (send-SameConnection p result t) v
  step-IsCoherent (requests p result) t v =
      SameConnection-IsCoherent t _ (start_request-SameConnection p result t) v
  step-IsCoherent (sends_bytes bytes o result) t v =
      let u = (choose_id S R o t).1 in
      SameConnection-IsCoherent u _ (send-SameConnection _ result u)
        (SameConnection-IsCoherent t u (choose_id-SameConnection o t) v)
  step-IsCoherent (requests_bytes bytes o result) t v =
      let u = (choose_id S R o t).1 in
      SameConnection-IsCoherent u _ (register_and_send-SameConnection _ _ result u)
        (SameConnection-IsCoherent t u (choose_id-SameConnection o t) v)
  step-IsCoherent (closes_session id result) t v = (close_session-IsCoherent id result t v).0
  step-IsCoherent (forces_session id) t v = (close_session-IsCoherent id CloseResult.done t v).1
  step-IsCoherent (disconnects result) t v = disconnect-IsCoherent result t v
  step-IsCoherent (sees event) t v =
      SameConnection-IsCoherent t _ (on_event-SameConnection event t) v

  -- From a coherent transport every history of connections, sends, requests, events and closes of
  -- any session leads to a coherent one: it has a current session exactly when it has an adapter,
  -- and the current session is in the state connected.
  pub run-IsCoherent :
      (calls : List Call) (t : Transport S R) → IsCoherent t → IsCoherent (run calls t)
  unfolding run
  run-IsCoherent [] t v = v
  run-IsCoherent (call ∷ calls) t v = run-IsCoherent calls (step call t) (step-IsCoherent call t v)
