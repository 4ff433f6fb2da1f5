-- ===== src/Config/WebSocketClient.antt =====
-- src/protocol/client_config.rs, WebSocketClientConfig. The headers are an association list, of which
-- the first entry of a key counts.
use text.Mathlib.Text
use text.Mathlib.Text.{starts_with}
use msgtrans_rust.Base.{
  ℕ, String, Bool, true, false, not, ◌&&◌, List, [], ◌∷◌, Option, none, some, ◌==◌, if◌then◌else◌,
  Result, ok, err, map_ok, ◌>>=◌,
}
use msgtrans_rust.Config.{
  Values, ConfigError, invalid_value, overlay, is_some, RetryConfig, default_retry,
}

abbrev pub is_filled {ℓ} : {A : Type ℓ} → List A → Bool
is_filled [] = false
is_filled (a ∷ rest) = true

-- `!url.starts_with("ws://") && !url.starts_with("wss://")`.
abbrev pub is_foreign : String → Bool
is_foreign url = not (starts_with url "ws://") && not (starts_with url "wss://")

module _ (V : Values) where
  pub record WebSocketClientConfig : Type 0 where
    pub target_url : String
    pub connect_timeout : ℕ
    pub headers : List (String × String)
    pub subprotocols : List String
    pub max_frame_size : ℕ
    pub max_message_size : ℕ
    pub ping_interval : Option ℕ
    pub pong_timeout : ℕ
    pub retry_config : RetryConfig V
    pub verify_tls : Bool

  unfoldable pub default : WebSocketClientConfig
  default = record {
    target_url = "ws://localhost:80/";
    connect_timeout = 10000;
    headers = [];
    subprotocols = [];
    max_frame_size = 65536;
    max_message_size = 1048576;
    ping_interval = some 30000;
    pong_timeout = 10000;
    retry_config = default_retry V;
    verify_tls = true;
  }

  unfoldable pub validate : WebSocketClientConfig → Result (Unit {0}) ConfigError
  validate c =
      if is_foreign c.target_url
      then err (
          invalid_value "target_url" c.target_url "must start with 'ws://' or 'wss://'"
            "use a valid WebSocket URL")
      else if c.max_frame_size == 0
      then err (invalid_value "max_frame_size" "0" "must be > 0" "set a positive value")
      else if c.max_message_size == 0
      then err (invalid_value "max_message_size" "0" "must be > 0" "set a positive value")
      else ok tt

  unfoldable pub merge : WebSocketClientConfig → WebSocketClientConfig → WebSocketClientConfig
  merge c other = record {
    target_url =
        overlay (λ u. not (Text.◌==◌ u "ws://localhost:80/")) c.target_url other.target_url;
    connect_timeout = overlay (λ t. not (t == 10000)) c.connect_timeout other.connect_timeout;
    headers = overlay is_filled c.headers other.headers;
    subprotocols = overlay is_filled c.subprotocols other.subprotocols;
    max_frame_size = overlay (λ n. not (n == 65536)) c.max_frame_size other.max_frame_size;
    max_message_size = overlay (λ n. not (n == 1048576)) c.max_message_size other.max_message_size;
    ping_interval = overlay is_some c.ping_interval other.ping_interval;
    pong_timeout = overlay (λ t. not (t == 10000)) c.pong_timeout other.pong_timeout;
    retry_config = overlay (λ r. not (r.max_retries == 3)) c.retry_config other.retry_config;
    verify_tls = overlay not c.verify_tls other.verify_tls;
  }

  unfoldable pub new : String → Result WebSocketClientConfig ConfigError
  new target_url =
      if is_foreign target_url
      then err (
          invalid_value "target_url" target_url "must start with 'ws://' or 'wss://'"
            "use a valid WebSocket URL like 'ws://127.0.0.1:8080/path'")
      else ok (record default { target_url = target_url })

  unfoldable pub with_target_url : String → WebSocketClientConfig → WebSocketClientConfig
  with_target_url url c = record c { target_url = url }

  unfoldable pub with_connect_timeout : ℕ → WebSocketClientConfig → WebSocketClientConfig
  with_connect_timeout timeout c = record c { connect_timeout = timeout }

  unfoldable pub with_header : String → String → WebSocketClientConfig → WebSocketClientConfig
  with_header key value c = record c { headers = (key, value) ∷ c.headers }

  unfoldable pub with_headers :
      List (String × String) → WebSocketClientConfig → WebSocketClientConfig
  with_headers headers c = record c { headers = headers }

  unfoldable pub with_subprotocols : List String → WebSocketClientConfig → WebSocketClientConfig
  with_subprotocols subprotocols c = record c { subprotocols = subprotocols }

  unfoldable pub with_max_frame_size : ℕ → WebSocketClientConfig → WebSocketClientConfig
  with_max_frame_size size c = record c { max_frame_size = size }

  unfoldable pub with_max_message_size : ℕ → WebSocketClientConfig → WebSocketClientConfig
  with_max_message_size size c = record c { max_message_size = size }

  unfoldable pub with_ping_interval : Option ℕ → WebSocketClientConfig → WebSocketClientConfig
  with_ping_interval interval c = record c { ping_interval = interval }

  unfoldable pub with_pong_timeout : ℕ → WebSocketClientConfig → WebSocketClientConfig
  with_pong_timeout timeout c = record c { pong_timeout = timeout }

  unfoldable pub with_retry_config : RetryConfig V → WebSocketClientConfig → WebSocketClientConfig
  with_retry_config config c = record c { retry_config = config }

  unfoldable pub with_verify_tls : Bool → WebSocketClientConfig → WebSocketClientConfig
  with_verify_tls verify c = record c { verify_tls = verify }

  unfoldable pub build : WebSocketClientConfig → Result WebSocketClientConfig ConfigError
  build c = do u ← validate c; ok c

  unfoldable pub json_api : String → Result WebSocketClientConfig ConfigError
  json_api target_url =
      map_ok
        (λ c. with_max_message_size 524288 (
          with_max_frame_size 16384 (
            with_subprotocols ("json" ∷ [])
              (with_headers (("Content-Type", "application/json") ∷ []) c))))
        (new target_url)

  unfoldable pub realtime : String → Result WebSocketClientConfig ConfigError
  realtime target_url =
      map_ok
        (λ c.
          with_connect_timeout 5000
            (with_max_frame_size 8192 (with_pong_timeout 5000 (with_ping_interval (some 10000) c))))
        (new target_url)

  unfoldable pub file_transfer : String → Result WebSocketClientConfig ConfigError
  file_transfer target_url =
      map_ok
        (λ c. with_connect_timeout 30000 (
          with_ping_interval none
            (with_max_message_size 104857600 (with_max_frame_size 1048576 c))))
        (new target_url)
