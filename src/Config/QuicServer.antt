-- ===== src/Config/QuicServer.antt =====
-- src/protocol/server_config.rs, QuicServerConfig.
use msgtrans_rust.Base.{
  ℕ, String, not, Option, none, some, ◌==◌, if◌then◌else◌, Result, ok, err, map_ok, ◌>>=◌,
}
use text.Mathlib.Text
use msgtrans_rust.Config.{Values, ConfigError, invalid_value, overlay, is_some, parse_bind}

module _ (V : Values) where
  pub record QuicServerConfig : Type 0 where
    pub bind_address : V.Address
    pub cert_pem : Option String
    pub key_pem : Option String
    pub max_concurrent_streams : ℕ
    pub max_idle_timeout : ℕ
    pub keep_alive_interval : Option ℕ
    pub initial_rtt : ℕ
    pub max_connections : ℕ
    pub receive_window : ℕ
    pub send_window : ℕ

  unfoldable pub default : QuicServerConfig
  default = record {
    bind_address = V.local 8080;
    cert_pem = none;
    key_pem = none;
    max_concurrent_streams = 100;
    max_idle_timeout = 30000;
    keep_alive_interval = some 15000;
    initial_rtt = 100;
    max_connections = 1000;
    receive_window = 1048576;
    send_window = 1048576;
  }

  unfoldable pub validate : QuicServerConfig → Result (Unit {0}) ConfigError
  validate c =
      if c.max_connections == 0
      then err (invalid_value "max_connections" "0" "must be > 0" "set a positive value like 1000")
      else ok tt

  unfoldable pub merge : QuicServerConfig → QuicServerConfig → QuicServerConfig
  merge c other = record c {
    bind_address =
        overlay (λ a. not (Text.◌==◌ (V.to_text a) "127.0.0.1:8080")) c.bind_address
          other.bind_address;
    cert_pem = overlay is_some c.cert_pem other.cert_pem;
    key_pem = overlay is_some c.key_pem other.key_pem;
  }

  unfoldable pub new : String → Result QuicServerConfig ConfigError
  new bind_address = map_ok (λ a. record default { bind_address = a }) (parse_bind V bind_address)

  unfoldable pub with_bind_address : V.Address → QuicServerConfig → QuicServerConfig
  with_bind_address bind_address c = record c { bind_address = bind_address }

  unfoldable pub with_cert_pem : String → QuicServerConfig → QuicServerConfig
  with_cert_pem cert_pem c = record c { cert_pem = some cert_pem }

  unfoldable pub with_key_pem : String → QuicServerConfig → QuicServerConfig
  with_key_pem key_pem c = record c { key_pem = some key_pem }

  unfoldable pub with_max_concurrent_streams : ℕ → QuicServerConfig → QuicServerConfig
  with_max_concurrent_streams max_concurrent_streams c = record c {
    max_concurrent_streams = max_concurrent_streams;
  }

  unfoldable pub with_max_idle_timeout : ℕ → QuicServerConfig → QuicServerConfig
  with_max_idle_timeout max_idle_timeout c = record c { max_idle_timeout = max_idle_timeout }

  unfoldable pub with_keep_alive_interval : Option ℕ → QuicServerConfig → QuicServerConfig
  with_keep_alive_interval keep_alive_interval c = record c {
    keep_alive_interval = keep_alive_interval;
  }

  unfoldable pub with_initial_rtt : ℕ → QuicServerConfig → QuicServerConfig
  with_initial_rtt initial_rtt c = record c { initial_rtt = initial_rtt }

  unfoldable pub with_max_connections : ℕ → QuicServerConfig → QuicServerConfig
  with_max_connections max_connections c = record c { max_connections = max_connections }

  unfoldable pub with_receive_window : ℕ → QuicServerConfig → QuicServerConfig
  with_receive_window receive_window c = record c { receive_window = receive_window }

  unfoldable pub with_send_window : ℕ → QuicServerConfig → QuicServerConfig
  with_send_window send_window c = record c { send_window = send_window }

  unfoldable pub build : QuicServerConfig → Result QuicServerConfig ConfigError
  build c = do u ← validate c; ok c

  unfoldable pub insecure : String → Result QuicServerConfig ConfigError
  insecure bind_address = map_ok (λ c. with_key_pem "" (with_cert_pem "" c)) (new bind_address)
