-- ===== src/Config.antt =====
-- What the configurations of src/protocol/client_config.rs and src/protocol/server_config.rs share, and
-- ConfigError of src/protocol/adapter.rs. A Duration is a number of milliseconds. What std gives for addresses,
-- numbers as text and f64 literals is the record `Values`.
pub mod TcpClient
pub mod QuicClient
pub mod WebSocketClient
pub mod TcpServer
pub mod WebSocketServer
pub mod QuicServer
pub mod Laws
pub mod Tests
use Prim.Native.String.{◌++◌}
use msgtrans_rust.Base.{
  ℕ, String, Bool, true, false, Option, none, some, if◌then◌else◌, Result, ok, err,
}

-- `to_text` is the `to_string` of an address and `to_string` that of a number; `local` is the parse of
-- "127.0.0.1:" with a port; `parse` fails with the text of its error.
pub record Values : Type 1 where
  pub Address : Type 0
  pub port : Address → ℕ
  pub parse : String → Result Address String
  pub local : ℕ → Address
  pub to_text : Address → String
  pub to_string : ℕ → String
  pub Float : Type 0
  pub two : Float
  pub three_halves : Float

-- The source of an invalid address is left out.
pub data ConfigError : Type 0 where
  invalid_address : String → String → ConfigError
  invalid_port : ℕ → String → ConfigError
  missing_required_field : String → String → ConfigError
  invalid_value : String → String → String → String → ConfigError
  file_not_found : String → String → ConfigError
  io : String → ConfigError

-- `if set(other.field) { self.field = other.field }`.
abbrev pub overlay {ℓ} : {A : Type ℓ} → (A → Bool) → A → A → A
overlay set self other = if set other then other else self

abbrev pub is_some {ℓ} : {A : Type ℓ} → Option A → Bool
is_some none = false
is_some (some a) = true

-- `addr.parse().map_err(..)`.
unfoldable pub parse_target : (V : Values) → String → Result V.Address ConfigError
parse_target V address = elim (V.parse address) [
  | ok a ↦ ok a
  | err e ↦ err (invalid_address address ("Invalid target address: " ++ e))
]

unfoldable pub parse_bind : (V : Values) → String → Result V.Address ConfigError
parse_bind V address = elim (V.parse address) [
  | ok a ↦ ok a
  | err e ↦ err (invalid_address address ("Invalid bind address: " ++ e))
]

pub record RetryConfig (V : Values) : Type 0 where
  pub max_retries : ℕ
  pub retry_interval : ℕ
  pub backoff_multiplier : V.Float
  pub max_retry_interval : ℕ
  pub jitter : Bool

unfoldable pub default_retry : (V : Values) → RetryConfig V
default_retry V = record {
  max_retries = 3;
  retry_interval = 500;
  backoff_multiplier = V.two;
  max_retry_interval = 30000;
  jitter = true;
}
