-- ===== src/Event/Protocols.antt =====
-- src/event.rs, the events of the protocols and their conversion. A session id and the text of an
-- error stay; the time of a default ConnectionInfo is the argument `now`.
use msgtrans_rust.Base.{ℕ, String, Bool, true, false, Option, none, some}
use msgtrans_rust.TransportError.{TransportError}
use msgtrans_rust.Command.{default_info}
use msgtrans_rust.Event.{
  TransportEvent, connection_established, connection_closed, transport_error, server_started,
}
use msgtrans_rust.Event

pub data TcpEvent : Type 0 where
  listener_bound accept_error : String → TcpEvent
  connection_timeout : ℕ → TcpEvent

-- `io_error` is the text that `format!` makes of the error.
unfoldable pub tcp_transport_event : (String → String) → TcpEvent → TransportEvent
tcp_transport_event io_error (listener_bound addr) = server_started addr
tcp_transport_event io_error (accept_error e) =
    transport_error (TransportError.connection (io_error e) true)
tcp_transport_event io_error (connection_timeout id) = connection_closed Event.timed_out

unfoldable pub tcp_session_id : TcpEvent → Option ℕ
tcp_session_id (connection_timeout id) = some id
tcp_session_id _ = none

unfoldable pub tcp_is_error_event : TcpEvent → Bool
tcp_is_error_event (accept_error e) = true
tcp_is_error_event _ = false

pub data WebSocketEvent : Type 0 where
  handshake_completed ping_received pong_received : ℕ → WebSocketEvent
  invalid_frame : ℕ → String → WebSocketEvent

unfoldable pub websocket_transport_event : ℕ → WebSocketEvent → TransportEvent
websocket_transport_event now (handshake_completed id) = connection_established (default_info now)
websocket_transport_event now (invalid_frame id e) =
    transport_error (TransportError.protocol "generic" e)
websocket_transport_event now _ =
    transport_error (TransportError.protocol "generic" "Unhandled WebSocket event")

unfoldable pub websocket_session_id : WebSocketEvent → Option ℕ
websocket_session_id (handshake_completed id) = some id
websocket_session_id (ping_received id) = some id
websocket_session_id (pong_received id) = some id
websocket_session_id (invalid_frame id e) = some id

unfoldable pub websocket_is_data_event : WebSocketEvent → Bool
websocket_is_data_event (ping_received id) = true
websocket_is_data_event (pong_received id) = true
websocket_is_data_event _ = false

unfoldable pub websocket_is_error_event : WebSocketEvent → Bool
websocket_is_error_event (invalid_frame id e) = true
websocket_is_error_event _ = false

pub data QuicEvent : Type 0 where
  stream_opened stream_closed connection_id_retired : ℕ → ℕ → QuicEvent
  certificate_verified : ℕ → QuicEvent

unfoldable pub quic_transport_event : ℕ → QuicEvent → TransportEvent
quic_transport_event now (stream_opened id stream) = connection_established (default_info now)
quic_transport_event now (stream_closed id stream) = connection_closed Event.normal
quic_transport_event now _ =
    transport_error (TransportError.protocol "generic" "Unhandled QUIC event")

unfoldable pub quic_session_id : QuicEvent → Option ℕ
quic_session_id (stream_opened id stream) = some id
quic_session_id (stream_closed id stream) = some id
quic_session_id (certificate_verified id) = some id
quic_session_id (connection_id_retired id retired) = some id
