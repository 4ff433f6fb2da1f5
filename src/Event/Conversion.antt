-- ===== src/Event/Conversion.antt =====
-- src/event.rs, ServerEvent and ClientEvent: what the users of a server and of a client see of a
-- transport's event.
use msgtrans_rust.Base.{
  ℕ, String, Bool, true, false, List, Option, none, some, ◌==◌, if◌then◌else◌, length,
}
use msgtrans_rust.Packet.Header
use msgtrans_rust.Packet.Message.{Packet}
use msgtrans_rust.TransportError.{TransportError}
use msgtrans_rust.Command.{ConnectionInfo}
use msgtrans_rust.Event
use msgtrans_rust.Event.{CloseReason, TransportEvent}
use msgtrans_rust.Event.Contexts.{TransportContext, Responses, new_oneway, new_request}

pub data ClientEvent : Type 0 where
  connected : ConnectionInfo → ClientEvent
  disconnected : CloseReason → ClientEvent
  message_received : TransportContext → ClientEvent
  message_sent : ℕ → ClientEvent
  error : TransportError → ClientEvent

pub data ServerEvent : Type 0 where
  connection_established : ℕ → ConnectionInfo → ServerEvent
  connection_closed : ℕ → CloseReason → ServerEvent
  message_received : ℕ → TransportContext → ServerEvent
  message_sent : ℕ → ℕ → ServerEvent
  transport_error : Option ℕ → TransportError → ServerEvent
  server_started : String → ServerEvent
  server_stopped : ServerEvent

-- The extended header of a context.
unfoldable pub ext_header_of : Packet → Option (List ℕ)
ext_header_of p = if length p.ext_header == 0 then none else some p.ext_header

-- The context of a packet that is not a request.
unfoldable pub oneway_context : Option ℕ → Packet → TransportContext
oneway_context peer p =
    new_oneway peer p.header.message_id p.header.biz_type (ext_header_of p) p.payload

unfoldable pub from_transport_event : TransportEvent → Option ServerEvent
from_transport_event (Event.server_started address) = some (server_started address)
from_transport_event Event.server_stopped = some server_stopped
from_transport_event _ = none

unfoldable pub from_transport_event_with_session :
    TransportEvent → ℕ → Responses → Option ServerEvent × Responses
from_transport_event_with_session (Event.connection_established info) id r =
    (some (connection_established id info), r)
from_transport_event_with_session (Event.connection_closed reason) id r =
    (some (connection_closed id reason), r)
from_transport_event_with_session (Event.message_received p) id r =
    (some (ServerEvent.message_received id (oneway_context (some id) p)), r)
from_transport_event_with_session (Event.message_sent packet_id) id r =
    (some (ServerEvent.message_sent id packet_id), r)
from_transport_event_with_session (Event.transport_error e) id r =
    (some (transport_error (some id) e), r)
from_transport_event_with_session (Event.request_received c) id r =
    let (context, r') = new_request (some id) c.request_id c.biz_type none c.bytes c.responder r in
    (some (ServerEvent.message_received id context), r')
from_transport_event_with_session (Event.server_started address) id r =
    (some (server_started address), r)
from_transport_event_with_session Event.server_stopped id r = (some server_stopped, r)
from_transport_event_with_session _ id r = (none, r)

unfoldable pub client_event_of : TransportEvent → Option ClientEvent
client_event_of (Event.connection_established info) = some (connected info)
client_event_of (Event.connection_closed reason) = some (disconnected reason)
client_event_of (Event.message_received p) = elim p.header.packet_type [
  | Header.one_way ↦ some (ClientEvent.message_received (oneway_context none p))
  | Header.request ↦ none
  | Header.response ↦ some (ClientEvent.message_received (oneway_context none p))
]
client_event_of (Event.message_sent packet_id) = some (ClientEvent.message_sent packet_id)
client_event_of (Event.transport_error e) = some (error e)
client_event_of _ = none

unfoldable pub client_is_connection_event : ClientEvent → Bool
client_is_connection_event (connected info) = true
client_is_connection_event (disconnected reason) = true
client_is_connection_event _ = false

unfoldable pub client_is_data_event : ClientEvent → Bool
client_is_data_event (ClientEvent.message_received c) = true
client_is_data_event (ClientEvent.message_sent id) = true
client_is_data_event _ = false

unfoldable pub client_is_error_event : ClientEvent → Bool
client_is_error_event (error e) = true
client_is_error_event _ = false
