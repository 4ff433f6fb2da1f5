-- ===== src/Command.antt =====
-- src/command.rs: the statistics of a transport and of a connection. The time of a call is its
-- argument `now`; a plain u64 counter, which panics or wraps at 2^64, does not wrap here.
pub mod Laws
use msgtrans_rust.Base.{ℕ, ◌+◌, ◌-◌, String, List, [], ◌∷◌, Option, none, ltb, if◌then◌else◌}

pub record TransportStats : Type 0 where
  pub packets_sent : ℕ
  pub packets_received : ℕ
  pub bytes_sent : ℕ
  pub bytes_received : ℕ
  pub active_connections : ℕ
  pub total_connections : ℕ
  pub errors : ℕ
  pub start_time : ℕ
  pub last_activity : ℕ

unfoldable pub new_stats : ℕ → TransportStats
new_stats now = record {
  packets_sent = 0;
  packets_received = 0;
  bytes_sent = 0;
  bytes_received = 0;
  active_connections = 0;
  total_connections = 0;
  errors = 0;
  start_time = now;
  last_activity = now;
}

unfoldable pub update_activity : ℕ → TransportStats → TransportStats
update_activity now s = record s { last_activity = now }

unfoldable pub record_packet_sent : ℕ → ℕ → TransportStats → TransportStats
record_packet_sent now size s =
    update_activity now
      (record s { packets_sent = s.packets_sent + 1; bytes_sent = s.bytes_sent + size })

unfoldable pub record_packet_received : ℕ → ℕ → TransportStats → TransportStats
record_packet_received now size s = update_activity now (record s {
  packets_received = s.packets_received + 1;
  bytes_received = s.bytes_received + size;
})

unfoldable pub record_connection_opened : ℕ → TransportStats → TransportStats
record_connection_opened now s = update_activity now (record s {
  active_connections = s.active_connections + 1;
  total_connections = s.total_connections + 1;
})

unfoldable pub record_connection_closed : ℕ → TransportStats → TransportStats
record_connection_closed now s = update_activity now (
    if ltb 0 s.active_connections
    then record s { active_connections = s.active_connections - 1 }
    else s)

unfoldable pub record_error : ℕ → TransportStats → TransportStats
record_error now s = update_activity now (record s { errors = s.errors + 1 })

-- A method that changes the statistics, with its arguments.
pub data Recording : Type 0 where
  packet_sent packet_received : ℕ → Recording
  connection_opened connection_closed error_seen : Recording

unfoldable pub apply : ℕ → Recording → TransportStats → TransportStats
apply now (packet_sent size) s = record_packet_sent now size s
apply now (packet_received size) s = record_packet_received now size s
apply now connection_opened s = record_connection_opened now s
apply now connection_closed s = record_connection_closed now s
apply now error_seen s = record_error now s

unfoldable pub apply_all : List (ℕ × Recording) → TransportStats → TransportStats
apply_all [] s = s
apply_all ((now, r) ∷ rs) s = apply_all rs (apply now r s)

-- ConnectionState of this file.
pub data ConnectionState : Type 0 where
  connecting connected closing closed paused failed : ConnectionState

-- An address is kept as the text that it is parsed from.
pub record ConnectionInfo : Type 0 where
  pub session_id : ℕ
  pub local_addr : String
  pub peer_addr : String
  pub protocol : String
  pub state : ConnectionState
  pub established_at : ℕ
  pub closed_at : Option ℕ
  pub last_activity : ℕ
  pub packets_sent : ℕ
  pub packets_received : ℕ
  pub bytes_sent : ℕ
  pub bytes_received : ℕ

unfoldable pub default_info : ℕ → ConnectionInfo
default_info now = record {
  session_id = 0;
  local_addr = "0.0.0.0:0";
  peer_addr = "0.0.0.0:0";
  protocol = "tcp";
  state = connecting;
  established_at = now;
  closed_at = none;
  last_activity = now;
  packets_sent = 0;
  packets_received = 0;
  bytes_sent = 0;
  bytes_received = 0;
}
