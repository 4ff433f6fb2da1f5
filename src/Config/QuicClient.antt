-- ===== src/Config/QuicClient.antt =====
-- src/protocol/client_config.rs, QuicClientConfig.
use msgtrans_rust.Base.{
  ℕ, String, Bool, false, not, Option, none, some, ◌==◌, if◌then◌else◌, Result, ok, err, map_ok,
  ◌>>=◌,
}
use msgtrans_rust.Config.{
  Values, ConfigError, invalid_value, overlay, is_some, parse_target, RetryConfig, default_retry,
}

module _ (V : Values) where
  pub record QuicClientConfig : Type 0 where
    pub target_address : V.Address
    pub server_name : Option String
    pub connect_timeout : ℕ
    pub verify_certificate : Bool
    pub ca_cert_pem : Option String
    pub max_concurrent_streams : ℕ
    pub max_idle_timeout : ℕ
    pub keep_alive_interval : Option ℕ
    pub initial_rtt : ℕ
    pub retry_config : RetryConfig V
    pub local_bind_address : Option V.Address

  unfoldable pub default : QuicClientConfig
  default = record {
    target_address = V.local 443;
    server_name = none;
    connect_timeout = 10000;
    verify_certificate = false;
    ca_cert_pem = none;
    max_concurrent_streams = 100;
    max_idle_timeout = 30000;
    keep_alive_interval = some 15000;
    initial_rtt = 100;
    retry_config = default_retry V;
    local_bind_address = none;
  }

  unfoldable pub validate : QuicClientConfig → Result (Unit {0}) ConfigError
  validate c =
      if c.max_concurrent_streams == 0
      then err (invalid_value "max_concurrent_streams" "0" "must be > 0" "set a positive value")
      else ok tt

  unfoldable pub merge : QuicClientConfig → QuicClientConfig → QuicClientConfig
  merge c other = record {
    target_address = overlay (λ a. not (V.port a == 443)) c.target_address other.target_address;
    server_name = overlay is_some c.server_name other.server_name;
    connect_timeout = overlay (λ t. not (t == 10000)) c.connect_timeout other.connect_timeout;
    verify_certificate = overlay not c.verify_certificate other.verify_certificate;
    ca_cert_pem = overlay is_some c.ca_cert_pem other.ca_cert_pem;
    max_concurrent_streams =
        overlay (λ n. not (n == 100)) c.max_concurrent_streams other.max_concurrent_streams;
    max_idle_timeout = overlay (λ t. not (t == 30000)) c.max_idle_timeout other.max_idle_timeout;
    keep_alive_interval = overlay is_some c.keep_alive_interval other.keep_alive_interval;
    initial_rtt = overlay (λ t. not (t == 100)) c.initial_rtt other.initial_rtt;
    retry_config = overlay (λ r. not (r.max_retries == 3)) c.retry_config other.retry_config;
    local_bind_address = overlay is_some c.local_bind_address other.local_bind_address;
  }

  unfoldable pub new : String → Result QuicClientConfig ConfigError
  new target_address =
      map_ok (λ a. record default { target_address = a }) (parse_target V target_address)

  unfoldable pub with_target_address : V.Address → QuicClientConfig → QuicClientConfig
  with_target_address addr c = record c { target_address = addr }

  unfoldable pub with_target_str : String → QuicClientConfig → Result QuicClientConfig ConfigError
  with_target_str address c = map_ok (λ a. record c { target_address = a }) (parse_target V address)

  unfoldable pub with_ca_cert_pem : String → QuicClientConfig → QuicClientConfig
  with_ca_cert_pem cert_pem c = record c { ca_cert_pem = some cert_pem }

  unfoldable pub with_retry_config : RetryConfig V → QuicClientConfig → QuicClientConfig
  with_retry_config config c = record c { retry_config = config }

  unfoldable pub with_local_bind_address : Option V.Address → QuicClientConfig → QuicClientConfig
  with_local_bind_address addr c = record c { local_bind_address = addr }

  unfoldable pub with_server_name : String → QuicClientConfig → QuicClientConfig
  with_server_name name c = record c { server_name = some name }

  unfoldable pub with_connect_timeout : ℕ → QuicClientConfig → QuicClientConfig
  with_connect_timeout timeout c = record c { connect_timeout = timeout }

  unfoldable pub with_verify_certificate : Bool → QuicClientConfig → QuicClientConfig
  with_verify_certificate verify c = record c { verify_certificate = verify }

  unfoldable pub with_max_concurrent_streams : ℕ → QuicClientConfig → QuicClientConfig
  with_max_concurrent_streams count c = record c { max_concurrent_streams = count }

  unfoldable pub with_max_idle_timeout : ℕ → QuicClientConfig → QuicClientConfig
  with_max_idle_timeout timeout c = record c { max_idle_timeout = timeout }

  unfoldable pub with_keep_alive_interval : Option ℕ → QuicClientConfig → QuicClientConfig
  with_keep_alive_interval interval c = record c { keep_alive_interval = interval }

  unfoldable pub with_initial_rtt : ℕ → QuicClientConfig → QuicClientConfig
  with_initial_rtt rtt c = record c { initial_rtt = rtt }

  unfoldable pub build : QuicClientConfig → Result QuicClientConfig ConfigError
  build c = do u ← validate c; ok c

  unfoldable pub high_performance : String → Result QuicClientConfig ConfigError
  high_performance target_address =
      map_ok
        (λ c. with_connect_timeout 5000 (with_initial_rtt 20 (with_max_concurrent_streams 1000 c)))
        (new target_address)

  unfoldable pub low_latency : String → Result QuicClientConfig ConfigError
  low_latency target_address =
      map_ok
        (λ c.
          with_max_idle_timeout 10000
            (with_keep_alive_interval (some 5000) (with_initial_rtt 10 c)))
        (new target_address)

  unfoldable pub insecure : String → Result QuicClientConfig ConfigError
  insecure target_address =
      map_ok (λ c. with_server_name "localhost" (with_verify_certificate false c))
        (new target_address)
