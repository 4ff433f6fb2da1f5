-- ===== src/Server/Events.antt =====
-- src/transport/transport_server.rs, handle_transport_event, and the closure that answers a request.
use msgtrans_rust.Base.{ℕ, ◌%◌, Bool, List, [], ◌∷◌, Result, some, if◌then◌else◌, length}
use msgtrans_rust.Packet.Flags
use msgtrans_rust.Packet.Header
use msgtrans_rust.Packet.Message.{Packet}
use msgtrans_rust.Event
use msgtrans_rust.TransportError.{TransportError}
use msgtrans_rust.Event.{TransportEvent, Responder, to_session, to_transport}
use msgtrans_rust.Event.Contexts.{TransportContext, new_request, set_primary, respond, new_calls}
use msgtrans_rust.Event.Conversion.{
  ServerEvent, ext_header_of, oneway_context, connection_closed, transport_error,
}
use msgtrans_rust.Transport.Tracker.{complete}
use msgtrans_rust.Server.{Tables, TransportServer, emit, remove_session, send_to_session}

-- The packet that the closure of a request sends.
unfoldable pub response_packet : ℕ → List ℕ → Packet
response_packet message_id response_data = record {
  header = record {
    version = 1;
    compression = Header.uncompressed;
    packet_type = Header.response;
    biz_type = 0;
    message_id = message_id;
    ext_header_len = 0;
    payload_len = length response_data % 4294967296;
    reserved = Flags.new;
  };
  ext_header = [];
  payload = response_data;
}

module _ (D : Tables) where
  unfoldable pub handle_request : ℕ → Packet → TransportServer D → TransportServer D
  handle_request id p s =
      let (context, responses) =
        new_request (some id) p.header.message_id p.header.biz_type (ext_header_of p) p.payload
          (to_session id p.header.message_id) s.responses in
      emit D (ServerEvent.message_received id (set_primary context))
        (record s { responses = responses })

  unfoldable pub handle_message : ℕ → Packet → TransportServer D → TransportServer D
  handle_message id p s = emit D (ServerEvent.message_received id (oneway_context (some id) p)) s

  unfoldable pub handle_response : ℕ → Packet → TransportServer D → TransportServer D
  handle_response id p s =
      let (completed, tracker) = complete D.by_channel p.header.message_id p s.request_tracker in
      let s' = record s { request_tracker = tracker } in
      if completed then s' else handle_message id p s'

  unfoldable pub handle_transport_event : ℕ → TransportEvent → TransportServer D → TransportServer D
  handle_transport_event id (Event.message_received p) s = elim p.header.packet_type [
    | Header.request ↦ handle_request id p s
    | Header.response ↦ handle_response id p s
    | Header.one_way ↦ handle_message id p s
  ]
  handle_transport_event id (Event.message_sent packet_id) s =
      emit D (ServerEvent.message_sent id packet_id) s
  handle_transport_event id (Event.connection_closed reason) s =
      remove_session D id (emit D (connection_closed id reason) s)
  handle_transport_event id (Event.transport_error e) s = emit D (transport_error (some id) e) s
  handle_transport_event id _ s = s

  -- A call of a closure spawns a task, which is run at once here; its result is dropped. The closures
  -- that handle_request makes are those of the first clause; the others are a client's.
  module _ (is_lost : TransportError → Bool) where
    unfoldable pub run_responder :
        Responder
        → List ℕ
        → Result (Unit {0}) TransportError
        → TransportServer D
        → TransportServer D
    run_responder (to_session id message_id) response_data result s =
        (send_to_session D is_lost id (response_packet message_id response_data) result s).1
    run_responder (to_transport message_id) response_data result s = s

    unfoldable pub run_calls :
        List (ℕ × Responder × List ℕ)
        → Result (Unit {0}) TransportError
        → TransportServer D
        → TransportServer D
    run_calls [] result s = s
    run_calls ((flag, responder, response_data) ∷ calls) result s =
        run_responder responder response_data result (run_calls calls result s)

    -- TransportContext::respond by a user of the server, with the tasks that it spawns; `result` is
    -- what the adapter says of a send.
    unfoldable pub answer :
        TransportContext
        → List ℕ
        → Result (Unit {0}) TransportError
        → TransportServer D
        → TransportServer D
    answer context response result s =
        let responses = respond context response s.responses in
        run_calls (new_calls s.responses responses) result (record s { responses = responses })
