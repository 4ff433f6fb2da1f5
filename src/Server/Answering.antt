-- ===== src/Server/Answering.antt =====
-- A request from a client's Transport (src/transport/transport.rs) over TransportServer
-- (src/transport/transport_server.rs) and the context of src/event.rs back to the client.
use msgtrans_rust.Base.{
  ℕ, ◌<◌, ◌-◌, ◌≡◌, refl, arith, Bool, true, false, List, [], ◌∷◌, ◌++◌, some, length, get_or-set,
  Result, ok, member,
}
use msgtrans_rust.Packet.Flags
use msgtrans_rust.Packet.Header
use msgtrans_rust.Packet.Message.{Packet, to_bytes, from_bytes}
use msgtrans_rust.Packet.Message.WellFormed.{IsWellFormed}
use msgtrans_rust.Packet.Message.RoundTrip.{from_bytes-to_bytes_packet}
use msgtrans_rust.Packet.Compress.{Codecs}
use msgtrans_rust.TransportError.{TransportError}
use msgtrans_rust.Event
use msgtrans_rust.Event.{Responder, to_session}
use msgtrans_rust.Event.Contexts
use msgtrans_rust.Event.Contexts.{
  TransportContext, Responses, respond, respond_once, new_request, set_primary, new_calls,
}
use msgtrans_rust.Event.Conversion.{ServerEvent, ext_header_of}
use msgtrans_rust.Lockfree.Interface.{Dictionary}
use msgtrans_rust.Session.States.{ConnectionState}
use msgtrans_rust.Transport.{Transport, sends, is_connected}
use msgtrans_rust.Transport
use msgtrans_rust.Transport.Messages.{Ended, awaited, start_request, on_event}
use msgtrans_rust.Transport.Coherence.{Call}
use msgtrans_rust.Transport.Coherence
use msgtrans_rust.Transport.Requests.{Quiet, request_answered}
use msgtrans_rust.Server.{Tables, TransportServer, Object, blank, emit, object, send_to_session}
use msgtrans_rust.Server.Events.{
  response_packet, handle_request, handle_transport_event, run_responder, run_calls, answer,
}

response_packet-IsWellFormed :
    (id : ℕ) (reply : List ℕ)
    → id < 4294967296
    → length reply < 4294967296
    → IsWellFormed (response_packet id reply)
unfolding response_packet Flags.new
response_packet-IsWellFormed id reply small fits = ground arith

response_packet_type :
    (id : ℕ) (reply : List ℕ)
    → ((response_packet id reply).header.packet_type ≡ Header.response)
      × ((response_packet id reply).header.message_id ≡ id)
      × ((response_packet id reply).payload ≡ reply)
unfolding response_packet
response_packet_type id reply = (refl, refl, refl)

module _ (D : Tables) (is_lost : TransportError → Bool) where
  open D use {by_state, by_object, by_channel}

  handle_request_lem :
      (id : ℕ) (p : Packet) (s : TransportServer D)
      → p.header.packet_type ≡ Header.request
      → handle_transport_event D id (Event.message_received p) s ≡ handle_request D id p s
  unfolding handle_transport_event handle_request ext_header_of
  handle_request_lem id p s e = rw (e, handle_transport_event) refl

  send_held :
      (j adapter : ℕ) (p : Packet) (t : Object D)
      → t.session_id ≡ some j
      → t.connection_adapter ≡ some adapter
      → (is_connected by_state by_channel t ≡ true)
        × ((Transport.send by_state by_channel p (ok tt) t).0 ≡ ok tt)
        × ((Transport.send by_state by_channel p (ok tt) t).1.calls ≡ sends adapter p ∷ t.calls)
  unfolding is_connected Transport.send
  send_held j adapter p t on held = ground arith

  send_held_session :
      (id o j adapter : ℕ) (p : Packet) (s : TransportServer D)
      → by_object.get s.transports id ≡ some o
      → o < length s.objects
      → (object D o s).session_id ≡ some j
      → (object D o s).connection_adapter ≡ some adapter
      → let (res, u) = send_to_session D is_lost id p (ok tt) s in
        (res ≡ ok tt)
        × ((object D o u).calls ≡ sends adapter p ∷ (object D o s).calls)
        × (u.responses ≡ s.responses)
  unfolding send_to_session
  send_held_session id o j adapter p s found made on held =
      let t = object D o s in
      let (up, sent, called) = send_held j adapter p t on held in
      rw (send_to_session, found, up, sent)
        (
          refl,
          ground (
            arith,
            get_or-set s.objects o o (Transport.send by_state by_channel p (ok tt) t).1 (blank D)
                made,
            called,
          ),
          refl,
        )

  respond_raises :
      (context : TransportContext) (responder : Responder) (flag : ℕ) (is_primary : Bool)
      (reply : List ℕ) (r : Responses)
      → context.kind ≡ Contexts.request responder flag is_primary
      → member flag (respond context reply r).raised ≡ true
  unfolding respond respond_once
  respond_raises context responder flag is_primary reply r e = ground arith

  -- Answering through a context whose flag has been raised changes nothing.
  answer_again :
      (context : TransportContext) (responder : Responder) (flag : ℕ) (is_primary : Bool)
      (reply : List ℕ) (s : TransportServer D)
      → context.kind ≡ Contexts.request responder flag is_primary
      → member flag s.responses.raised ≡ true
      → answer D is_lost context reply (ok tt) s ≡ s
  unfolding answer respond respond_once new_calls run_calls
  answer_again context responder flag is_primary reply s e up =
      let same : respond context reply s.responses ≡ s.responses = ground arith in
      let none_new : new_calls s.responses s.responses ≡ [] = ground arith in
      rw (answer, same, none_new) refl

  -- A first answer through a context of the server runs its closure, once.
  answer_first :
      (context : TransportContext) (id m flag : ℕ) (is_primary : Bool) (reply : List ℕ)
      (s : TransportServer D)
      → context.kind ≡ Contexts.request (to_session id m) flag is_primary
      → member flag s.responses.raised ≡ false
      → answer D is_lost context reply (ok tt) s
        ≡ (send_to_session D is_lost id
            (response_packet m reply)
            (ok tt)
            (record s { responses = respond context reply s.responses })).1
  unfolding answer respond respond_once new_calls run_calls run_responder
  answer_first context id m flag is_primary reply s e down =
      let calls = s.responses.calls in
      let one : length ((flag, to_session id m, reply) ∷ calls) - length calls ≡ 1 = omega arith in
      rw (answer, e, down, one) refl

  -- What the server's user is told of a request, and what answering it does: an event with the
  -- request's data in a context, whose first answer gives the session's adapter the response packet
  -- and whose further answers do nothing.
  abbrev pub Handled : ℕ → ℕ → ℕ → Packet → List ℕ → TransportServer D → Type 0
  Handled id o adapter p reply s =
      let u = handle_transport_event D id (Event.message_received p) s in
      (context : TransportContext) × (u.events ≡ ServerEvent.message_received id context ∷ s.events)
      × (context.bytes ≡ p.payload)
      × (let w = answer D is_lost context reply (ok tt) u in
          ((object D o w).calls
            ≡ sends adapter (response_packet p.header.message_id reply) ∷ (object D o s).calls)
          × ((again : List ℕ) → answer D is_lost context again (ok tt) w ≡ w))

  -- The whole way: what the server does, the packet on the wire, and what the client waits for.
  abbrev pub Answered :
      (c : Codecs) (S : Dictionary ConnectionState) (R : Dictionary ℕ) (t : Transport S R)
      (channel : ℕ) (calls : List Call) (ended : Ended) (id o adapter : ℕ) (p : Packet)
      (reply rest : List ℕ) (s : TransportServer D)
      → Type 0
  Answered c S R t channel calls ended id o adapter p reply rest s =
      let q = response_packet p.header.message_id reply in
      let v = on_event S R c (Event.message_received q) (Coherence.run S R c calls t) in
      Handled id o adapter p reply s
      × (from_bytes (to_bytes q ++ rest) ≡ ok q)
      × (awaited channel ended v.request_tracker.sent ≡ ok q)
      × (q.payload ≡ reply)

  handle_respond :
      (id o j adapter : ℕ) (p : Packet) (reply : List ℕ) (s : TransportServer D)
      → p.header.packet_type ≡ Header.request
      → by_object.get s.transports id ≡ some o
      → o < length s.objects
      → (object D o s).session_id ≡ some j
      → (object D o s).connection_adapter ≡ some adapter
      → member s.responses.flags s.responses.raised ≡ false
      → Handled id o adapter p reply s
  unfolding handle_request new_request set_primary emit
  handle_respond id o j adapter p reply s is_request found made on held fresh =
      let u = handle_request D id p s in
      let m = p.header.message_id in
      let context =
        set_primary
          (new_request (some id) m p.header.biz_type (ext_header_of p) p.payload (to_session id m)
            s.responses).0 in
      let first = answer_first context id m s.responses.flags true reply u refl fresh in
      let (res, sent, kept) =
        send_held_session id o j adapter (response_packet m reply)
          (record u { responses = respond context reply u.responses }) found made on held in
      let raised : member s.responses.flags
            (answer D is_lost context reply (ok tt) u).responses.raised
          ≡ true =
        rw (first, kept) (respond_raises context _ _ true reply u.responses refl) in
      rw (handle_request_lem id p s is_request) (
        context,
        refl,
        refl,
        (
          rw first sent,
          λ again.
              answer_again context (to_session id m) s.responses.flags true again _ refl raised,
        ),
      )

  -- A client's transport has sent the request `p` and waits on a channel; the server's session for
  -- it has a connected transport with an adapter, whose sends succeed; the server's next flag is not
  -- raised; the id is a u32 and the reply shorter than 2^32. Then the server's handling of `p` tells
  -- its users of the request's payload in a context; answering through the context runs its closure,
  -- which gives the session's adapter one packet more, and answering again changes nothing; that
  -- packet is read back from its bytes; and when the client's transport receives it, after calls that
  -- neither register nor answer the id, the wait ends with it, so that the client has the reply.
  pub request_response :
      (c : Codecs) (S : Dictionary ConnectionState) (R : Dictionary ℕ) (client : Transport S R)
      (result : Result (Unit {0}) TransportError) (channel : ℕ) (calls : List Call) (ended : Ended)
      (id o j adapter : ℕ) (p : Packet) (reply rest : List ℕ) (s : TransportServer D)
      → (start_request S R p result client).0 ≡ ok channel
      → Quiet S R c p.header.message_id calls (start_request S R p result client).1
      → p.header.packet_type ≡ Header.request
      → p.header.message_id < 4294967296
      → length reply < 4294967296
      → by_object.get s.transports id ≡ some o
      → o < length s.objects
      → (object D o s).session_id ≡ some j
      → (object D o s).connection_adapter ≡ some adapter
      → member s.responses.flags s.responses.raised ≡ false
      → Answered c S R
          (start_request S R p result client).1
          channel
          calls
          ended
          id
          o
          adapter
          p
          reply
          rest
          s
  request_response c S R client result channel calls ended id o j adapter p reply rest s started
        quiet is_request small fits found made on held fresh =
      let q = response_packet p.header.message_id reply in
      let (ended_with, gone, silent) =
        request_answered S R c p result client channel calls q ended started quiet
          (response_packet_type p.header.message_id reply).0
          (response_packet_type p.header.message_id reply).1 in
      (
        handle_respond id o j adapter p reply s is_request found made on held fresh,
        from_bytes-to_bytes_packet q rest
            (response_packet-IsWellFormed p.header.message_id reply small fits),
        ended_with,
        (response_packet_type p.header.message_id reply).2,
      )
