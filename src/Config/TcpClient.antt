-- ===== src/Config/TcpClient.antt =====
-- src/protocol/client_config.rs, TcpClientConfig.
use msgtrans_rust.Base.{
  ℕ, String, Bool, true, not, Option, none, some, ◌==◌, ltb, if◌then◌else◌, Result, ok, err, map_ok,
  ◌>>=◌,
}
use msgtrans_rust.Config.{
  Values, ConfigError, invalid_value, overlay, is_some, parse_target, RetryConfig, default_retry,
}

module _ (V : Values) where
  pub record TcpClientConfig : Type 0 where
    pub target_address : V.Address
    pub connect_timeout : ℕ
    pub nodelay : Bool
    pub keepalive : Option ℕ
    pub read_buffer_size : ℕ
    pub write_buffer_size : ℕ
    pub read_timeout : Option ℕ
    pub write_timeout : Option ℕ
    pub retry_config : RetryConfig V
    pub local_bind_address : Option V.Address

  unfoldable pub default : TcpClientConfig
  default = record {
    target_address = V.local 80;
    connect_timeout = 10000;
    nodelay = true;
    keepalive = some 60000;
    read_buffer_size = 8192;
    write_buffer_size = 8192;
    read_timeout = some 30000;
    write_timeout = some 30000;
    retry_config = default_retry V;
    local_bind_address = none;
  }

  unfoldable pub validate : TcpClientConfig → Result (Unit {0}) ConfigError
  validate c =
      if c.read_buffer_size == 0
      then err (invalid_value "read_buffer_size" "0" "must be > 0" "set a positive value")
      else if c.write_buffer_size == 0
      then err (invalid_value "write_buffer_size" "0" "must be > 0" "set a positive value")
      else if ltb 100 c.retry_config.max_retries
      then err (
          invalid_value "max_retries" (V.to_string c.retry_config.max_retries)
            "excessive retry count may cause resource exhaustion" "use a reasonable value (< 100)")
      else ok tt

  unfoldable pub merge : TcpClientConfig → TcpClientConfig → TcpClientConfig
  merge c other = record {
    target_address = overlay (λ a. not (V.port a == 80)) c.target_address other.target_address;
    connect_timeout = overlay (λ t. not (t == 10000)) c.connect_timeout other.connect_timeout;
    nodelay = overlay not c.nodelay other.nodelay;
    keepalive = overlay is_some c.keepalive other.keepalive;
    read_buffer_size = overlay (λ n. not (n == 8192)) c.read_buffer_size other.read_buffer_size;
    write_buffer_size = overlay (λ n. not (n == 8192)) c.write_buffer_size other.write_buffer_size;
    read_timeout = overlay is_some c.read_timeout other.read_timeout;
    write_timeout = overlay is_some c.write_timeout other.write_timeout;
    retry_config = overlay (λ r. not (r.max_retries == 3)) c.retry_config other.retry_config;
    local_bind_address = overlay is_some c.local_bind_address other.local_bind_address;
  }

  unfoldable pub new : String → Result TcpClientConfig ConfigError
  new target_address =
      map_ok (λ a. record default { target_address = a }) (parse_target V target_address)

  unfoldable pub with_target_str : String → TcpClientConfig → Result TcpClientConfig ConfigError
  with_target_str address c = map_ok (λ a. record c { target_address = a }) (parse_target V address)

  unfoldable pub with_target_address : V.Address → TcpClientConfig → TcpClientConfig
  with_target_address addr c = record c { target_address = addr }

  unfoldable pub with_connect_timeout : ℕ → TcpClientConfig → TcpClientConfig
  with_connect_timeout timeout c = record c { connect_timeout = timeout }

  unfoldable pub with_nodelay : Bool → TcpClientConfig → TcpClientConfig
  with_nodelay nodelay c = record c { nodelay = nodelay }

  unfoldable pub with_keepalive : Option ℕ → TcpClientConfig → TcpClientConfig
  with_keepalive keepalive c = record c { keepalive = keepalive }

  unfoldable pub with_read_buffer_size : ℕ → TcpClientConfig → TcpClientConfig
  with_read_buffer_size size c = record c { read_buffer_size = size }

  unfoldable pub with_write_buffer_size : ℕ → TcpClientConfig → TcpClientConfig
  with_write_buffer_size size c = record c { write_buffer_size = size }

  unfoldable pub with_read_timeout : Option ℕ → TcpClientConfig → TcpClientConfig
  with_read_timeout timeout c = record c { read_timeout = timeout }

  unfoldable pub with_write_timeout : Option ℕ → TcpClientConfig → TcpClientConfig
  with_write_timeout timeout c = record c { write_timeout = timeout }

  unfoldable pub with_local_bind_address : Option V.Address → TcpClientConfig → TcpClientConfig
  with_local_bind_address addr c = record c { local_bind_address = addr }

  unfoldable pub with_retry_config : RetryConfig V → TcpClientConfig → TcpClientConfig
  with_retry_config config c = record c { retry_config = config }

  unfoldable pub build : TcpClientConfig → Result TcpClientConfig ConfigError
  build c = do u ← validate c; ok c

  unfoldable pub high_performance : String → Result TcpClientConfig ConfigError
  high_performance target_address =
      map_ok
        (λ c. with_keepalive (some 30000) (
          with_connect_timeout 5000
            (with_write_buffer_size 65536 (with_read_buffer_size 65536 (with_nodelay true c)))))
        (new target_address)

  unfoldable pub low_latency : String → Result TcpClientConfig ConfigError
  low_latency target_address =
      map_ok
        (λ c.
          with_connect_timeout 3000
            (with_write_buffer_size 4096 (with_read_buffer_size 4096 (with_nodelay true c))))
        (new target_address)

  unfoldable pub reliable : String → Result TcpClientConfig ConfigError
  reliable target_address =
      map_ok
        (λ c. with_keepalive (some 120000) (
          with_connect_timeout 30000 (
            with_retry_config
              (record {
                max_retries = 10;
                retry_interval = 1000;
                backoff_multiplier = V.three_halves;
                max_retry_interval = 60000;
                jitter = true;
              })
              c)))
        (new target_address)
