-- ===== src/Event.antt =====
-- src/event.rs: the events of a transport, the contexts that messages arrive in, and the events that
-- the users of a client and of a server see. Time stamps, which nothing reads, are left out.
pub mod Protocols
pub mod Contexts
pub mod Conversion
pub mod Respond
pub mod Results
pub mod Tests
use msgtrans_rust.Base.{ℕ, String, Bool, true, false, List, Option, none, some}
use msgtrans_rust.Packet.Message.{Packet}
use msgtrans_rust.TransportError.{TransportError}
use msgtrans_rust.Command.{ConnectionInfo}

-- src/error.rs.
pub data CloseReason : Type 0 where
  normal timed_out forced : CloseReason
  error : String → CloseReason

-- The closure that answers a request: the one that a server makes for a session and a message, and
-- the one that a client makes for a message.
pub data Responder : Type 0 where
  to_session : ℕ → ℕ → Responder
  to_transport : ℕ → Responder

-- `responded` names an AtomicBool, which the clones of a context share.
pub record RequestContext : Type 0 where
  pub peer : Option ℕ
  pub bytes : List ℕ
  pub request_id : ℕ
  pub biz_type : ℕ
  pub responder : Responder
  pub responded : ℕ
  pub is_primary : Bool

pub data TransportEvent : Type 0 where
  connection_established : ConnectionInfo → TransportEvent
  connection_closed : CloseReason → TransportEvent
  message_received : Packet → TransportEvent
  message_sent : ℕ → TransportEvent
  transport_error : TransportError → TransportEvent
  server_started client_connected : String → TransportEvent
  server_stopped client_disconnected : TransportEvent
  request_received : RequestContext → TransportEvent

unfoldable pub session_id : TransportEvent → Option ℕ
session_id _ = none

unfoldable pub is_connection_event : TransportEvent → Bool
is_connection_event (connection_established info) = true
is_connection_event (connection_closed reason) = true
is_connection_event _ = false

unfoldable pub is_data_event : TransportEvent → Bool
is_data_event (message_received p) = true
is_data_event (request_received c) = true
is_data_event _ = false

unfoldable pub is_error_event : TransportEvent → Bool
is_error_event (transport_error e) = true
is_error_event _ = false

unfoldable pub is_server_event : TransportEvent → Bool
is_server_event (server_started address) = true
is_server_event server_stopped = true
is_server_event _ = false

unfoldable pub is_client_event : TransportEvent → Bool
is_client_event (client_connected address) = true
is_client_event client_disconnected = true
is_client_event _ = false
