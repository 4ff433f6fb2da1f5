-- ===== src/TransportError.antt =====
-- src/error.rs: the transport's error type, its classification and its statistics. Durations are in
-- milliseconds.
pub mod Laws
use msgtrans_rust.Base.{ℕ, ◌+◌, String, Bool, true, false, not, Option, none, some, if◌then◌else◌}

pub data TransportError : Type 0 where
  connection : String → Bool → TransportError
  protocol : String → String → TransportError
  configuration : String → String → TransportError
  resource : String → ℕ → ℕ → TransportError
  timeout : String → ℕ → TransportError

unfoldable pub is_retryable : TransportError → Bool
is_retryable (connection reason retryable) = retryable
is_retryable (protocol name reason) = true
is_retryable (configuration field reason) = false
is_retryable (resource name current limit) = true
is_retryable (timeout operation duration) = true

-- The match on an error that is retryable.
abbrev delay_of : TransportError → Option ℕ
delay_of (connection reason retryable) = some 1000
delay_of (protocol name reason) = some 100
delay_of (resource name current limit) = some 500
delay_of (timeout operation duration) = some 200
delay_of _ = none

unfoldable pub retry_delay : TransportError → Option ℕ
retry_delay e = if not (is_retryable e) then none else delay_of e

unfoldable pub error_code : TransportError → String
error_code (connection reason retryable) = "CONNECTION_ERROR"
error_code (protocol name reason) = "PROTOCOL_ERROR"
error_code (configuration field reason) = "CONFIG_ERROR"
error_code (resource name current limit) = "RESOURCE_ERROR"
error_code (timeout operation duration) = "TIMEOUT_ERROR"

pub record ErrorStats : Type 0 where
  pub total_errors : ℕ
  pub connection_errors : ℕ
  pub protocol_errors : ℕ
  pub config_errors : ℕ
  pub resource_errors : ℕ
  pub timeout_errors : ℕ
  pub retries : ℕ
  pub last_error : Option TransportError

unfoldable pub cleared : ErrorStats
cleared = record {
  total_errors = 0;
  connection_errors = 0;
  protocol_errors = 0;
  config_errors = 0;
  resource_errors = 0;
  timeout_errors = 0;
  retries = 0;
  last_error = none;
}

abbrev count_kind : TransportError → ErrorStats → ErrorStats
count_kind (connection reason retryable) s = record s {
  connection_errors = s.connection_errors + 1;
}
count_kind (protocol name reason) s = record s { protocol_errors = s.protocol_errors + 1 }
count_kind (configuration field reason) s = record s { config_errors = s.config_errors + 1 }
count_kind (resource name current limit) s = record s { resource_errors = s.resource_errors + 1 }
count_kind (timeout operation duration) s = record s { timeout_errors = s.timeout_errors + 1 }

unfoldable pub record_error : ErrorStats → TransportError → ErrorStats
record_error s e =
    let s' = count_kind e (record s { total_errors = s.total_errors + 1 }) in
    record s' { last_error = some e }

unfoldable pub record_retry : ErrorStats → ErrorStats
record_retry s = record s { retries = s.retries + 1 }
