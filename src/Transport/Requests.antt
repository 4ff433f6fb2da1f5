-- ===== src/Transport/Requests.antt =====
-- src/transport/transport.rs: which response ends which request.
use msgtrans_rust.Base.{
  ℕ, ◌≡◌, ◌≢◌, inl, inr, refl, arith, List, [], ◌∷◌, Option, none, some, ◌==◌, if◌then◌else◌,
  Result, ok, err, ◌∙◌, sym, ap,
}
use msgtrans_rust.Packet.Header
use msgtrans_rust.Packet.Message.{Packet}
use msgtrans_rust.Packet.Compress.{Codecs}
use msgtrans_rust.TransportError.{TransportError}
use msgtrans_rust.Event.{TransportEvent}
use msgtrans_rust.Event
use msgtrans_rust.Lockfree.Interface.{Dictionary}
use msgtrans_rust.Session.States.{ConnectionState}
use msgtrans_rust.Transport.Tracker.{RequestTracker, fetch_id, register_with_id, complete, received}
use msgtrans_rust.Transport.{
  Transport, AdapterCall, CloseResult, send, clean_up, close_session, force_close_session,
  disconnect, set_connection,
}
use msgtrans_rust.Transport.Messages.{
  Ended, awaited, register_and_send, start_request, on_event, emit,
}
use msgtrans_rust.Transport.Options.{
  TransportOptions, choose_id, options_packet, send_with_options, start_request_with_options,
}
use msgtrans_rust.Transport.Closing.{closed_with, close_session_cases, disconnect_cases}
use msgtrans_rust.Transport.Coherence.{
  Call, connects, sends_packet, requests, sends_bytes, requests_bytes, closes_session,
  forces_session, disconnects, sees, step, run,
}

-- The id of a response.
abbrev pub answered_id : Call → Option ℕ
answered_id (sees (Event.message_received p)) = elim p.header.packet_type [
  | Header.response ↦ some p.header.message_id
  | Header.request ↦ none
  | Header.one_way ↦ none
]
answered_id _ = none

module _ (S : Dictionary ConnectionState) (R : Dictionary ℕ) (c : Codecs) where
  open R use {get, put_at, get-put_at, get-drop_at}

  -- The id that a call registers.
  abbrev pub registered_id : Call → Transport S R → Option ℕ
  registered_id (requests p result) t = elim p.header.packet_type [
    | Header.request ↦ some p.header.message_id
    | Header.response ↦ none
    | Header.one_way ↦ none
  ]
  registered_id (requests_bytes bytes o result) t = some (choose_id S R o t).0
  registered_id _ t = none

  -- No call of the history registers or answers the id.
  abbrev pub Quiet : ℕ → List Call → Transport S R → Type 0
  Quiet id [] t = Unit
  Quiet id (call ∷ calls) t =
      (registered_id call t ≢ some id)
      × (answered_id call ≢ some id)
      × Quiet id calls (step S R c call t)

  -- The channel that waits for a response.
  abbrev pub waiting : Transport S R → ℕ → Option ℕ
  waiting t id = get t.request_tracker.pending id

  send_tracker :
      (p : Packet) (result : Result (Unit {0}) TransportError) (t : Transport S R)
      → (send S R p result t).1.request_tracker ≡ t.request_tracker
  unfolding send
  send_tracker p result t = ground arith

  register_and_send-waiting :
      (j : ℕ) (p : Packet) (result : Result (Unit {0}) TransportError) (t : Transport S R) (id : ℕ)
      → waiting (register_and_send S R j p result t).1 id
        ≡ (if j == id then some t.request_tracker.channels else waiting t id)
  unfolding register_and_send register_with_id
  register_and_send-waiting j p result t id =
      ap (λ r. get r.pending id) (send_tracker p result _)
      ∙ get-put_at j id t.request_tracker.channels t.request_tracker.pending

  choose_id-waiting :
      (o : TransportOptions) (t : Transport S R) (id : ℕ)
      → waiting (choose_id S R o t).1 id ≡ waiting t id
  unfolding choose_id fetch_id
  choose_id-waiting o t id = ground arith

  closed_with_tracker :
      (id : ℕ) (calls : List AdapterCall) (t : Transport S R)
      → (closed_with S R id calls t).request_tracker ≡ t.request_tracker
  unfolding clean_up
  closed_with_tracker id calls t = ground arith

  close_session_tracker :
      (id : ℕ) (result : CloseResult) (t : Transport S R)
      → ((close_session S R id result t).1.request_tracker ≡ t.request_tracker)
        × ((force_close_session S R id t).1.request_tracker ≡ t.request_tracker)
  close_session_tracker id result t = elim (close_session_cases S R id result t) [
    | inl (e, f) ↦ rw (e, f) (refl, refl)
    | inr (calls, forced, e, f) ↦
        rw (e, f) (closed_with_tracker id calls t, closed_with_tracker id forced t)
  ]

  disconnect_tracker :
      (result : CloseResult) (t : Transport S R)
      → (disconnect S R result t).1.request_tracker ≡ t.request_tracker
  disconnect_tracker result t = elim (disconnect_cases S R result t) [
    | inl e ↦ rw e refl
    | inr (id, e) ↦ rw e (close_session_tracker id result t).0
  ]

  complete-waiting :
      (j : ℕ) (p : Packet) (r : RequestTracker R) (id : ℕ)
      → j ≢ id
      → get (complete R j p r).1.pending id ≡ get r.pending id
  unfolding complete
  complete-waiting j p r id other = ground (arith, get-drop_at j id r.pending)

  on_event-waiting :
      (event : TransportEvent) (t : Transport S R) (id : ℕ)
      → answered_id (sees event) ≢ some id
      → waiting (on_event S R c event t) id ≡ waiting t id
  unfolding on_event emit
  on_event-waiting (Event.message_received p) t id h =
      ground (arith, complete-waiting p.header.message_id p t.request_tracker id)
  on_event-waiting event t id h = refl

  step-waiting :
      (call : Call) (t : Transport S R) (id : ℕ)
      → registered_id call t ≢ some id
      → answered_id call ≢ some id
      → waiting (step S R c call t) id ≡ waiting t id
  unfolding step set_connection start_request send_with_options start_request_with_options
  step-waiting (connects adapter j) t id h n = refl
  step-waiting (sends_packet p result) t id h n =
      ap (λ r. get r.pending id) (send_tracker p result t)
  step-waiting (requests p result) t id h n =
      ground (arith, register_and_send-waiting p.header.message_id p result t id)
  step-waiting (sends_bytes bytes o result) t id h n =
      ap (λ r. get r.pending id) (send_tracker _ result _) ∙ choose_id-waiting o t id
  step-waiting (requests_bytes bytes o result) t id h n = ground (
    arith,
    register_and_send-waiting (choose_id S R o t).0
        (options_packet c Header.request bytes o (choose_id S R o t).0) result (choose_id S R o t).1
        id,
    choose_id-waiting o t id,
  )
  step-waiting (closes_session j result) t id h n =
      ap (λ r. get r.pending id) (close_session_tracker j result t).0
  step-waiting (forces_session j) t id h n =
      ap (λ r. get r.pending id) (close_session_tracker j CloseResult.done t).1
  step-waiting (disconnects result) t id h n =
      ap (λ r. get r.pending id) (disconnect_tracker result t)
  step-waiting (sees event) t id h n = on_event-waiting event t id n

  run-waiting :
      (calls : List Call) (t : Transport S R) (id : ℕ)
      → Quiet id calls t
      → waiting (run S R c calls t) id ≡ waiting t id
  unfolding run
  run-waiting [] t id q = refl
  run-waiting (call ∷ calls) t id (h, n, q) =
      run-waiting calls (step S R c call t) id q ∙ step-waiting call t id h n

  on_event-received :
      (p : Packet) (t : Transport S R) (channel : ℕ)
      → p.header.packet_type ≡ Header.response
      → waiting t p.header.message_id ≡ some channel
      → let u = on_event S R c (Event.message_received p) t in
        (received channel u.request_tracker.sent ≡ some p)
        × (waiting u p.header.message_id ≡ none)
        × (u.events ≡ t.events)
  unfolding on_event complete
  on_event-received p t channel e w =
      ground (arith, get-drop_at p.header.message_id p.header.message_id t.request_tracker.pending)

  register_channel :
      (id : ℕ) (p : Packet) (result : Result (Unit {0}) TransportError) (t : Transport S R)
      (channel : ℕ)
      → (register_and_send S R id p result t).0 ≡ ok channel
      → waiting (register_and_send S R id p result t).1 id ≡ some channel
  unfolding register_and_send register_with_id send
  register_channel id p result t channel e =
      register_and_send-waiting id p result t id ∙ ground arith

  start_channel :
      (p : Packet) (result : Result (Unit {0}) TransportError) (t : Transport S R) (channel : ℕ)
      → (start_request S R p result t).0 ≡ ok channel
      → waiting (start_request S R p result t).1 p.header.message_id ≡ some channel
  unfolding start_request
  start_channel p result t channel e =
      ground (arith, register_channel p.header.message_id p result t channel)

  -- When `request` has sent its packet and waits on a channel, and the calls that follow neither
  -- register nor answer the packet's message id, then the first response with that id ends the wait
  -- on the channel with the response, takes the id out of the table, and reaches no subscriber.
  pub request_answered :
      (p : Packet) (result : Result (Unit {0}) TransportError) (t : Transport S R) (channel : ℕ)
      (calls : List Call) (response : Packet) (ended : Ended)
      → (start_request S R p result t).0 ≡ ok channel
      → Quiet p.header.message_id calls (start_request S R p result t).1
      → response.header.packet_type ≡ Header.response
      → response.header.message_id ≡ p.header.message_id
      → let u = run S R c calls (start_request S R p result t).1 in
        let v = on_event S R c (Event.message_received response) u in
        (awaited channel ended v.request_tracker.sent ≡ ok response)
        × (waiting v p.header.message_id ≡ none)
        × (v.events ≡ u.events)
  unfolding awaited
  request_answered p result t channel calls response ended started q is_response same =
      let u = run S R c calls (start_request S R p result t).1 in
      let v = on_event S R c (Event.message_received response) u in
      let w : waiting u response.header.message_id ≡ some channel =
        ap (waiting u) same
        ∙ run-waiting calls (start_request S R p result t).1 p.header.message_id q
        ∙ start_channel p result t channel started in
      let (got, gone, quiet) = on_event-received response u channel is_response w in
      (rw (awaited, got) refl, ap (waiting v) (sym same) ∙ gone, quiet)

  -- A request packet that cannot be sent stays registered all the same: the id still leads to the
  -- channel that nobody waits on.
  pub failed_request_pending :
      (p : Packet) (result : Result (Unit {0}) TransportError) (t : Transport S R)
      (e : TransportError)
      → p.header.packet_type ≡ Header.request
      → (start_request S R p result t).0 ≡ err e
      → waiting (start_request S R p result t).1 p.header.message_id
        ≡ some t.request_tracker.channels
  unfolding start_request
  failed_request_pending p result t e is_request failed =
      ground (arith, register_and_send-waiting p.header.message_id p result t p.header.message_id)
