-- ===== src/Config/WebSocketServer.antt =====
-- src/protocol/server_config.rs, WebSocketServerConfig.
use msgtrans_rust.Base.{
  ℕ, String, not, ◌++◌, List, [], ◌∷◌, Option, some, ◌==◌, if◌then◌else◌, Result, ok, err, map_ok,
  ◌>>=◌,
}
use text.Mathlib.Text
use msgtrans_rust.Config.{Values, ConfigError, invalid_value, overlay, parse_bind}
use msgtrans_rust.Config.WebSocketClient.{is_filled}

module _ (V : Values) where
  pub record WebSocketServerConfig : Type 0 where
    pub bind_address : V.Address
    pub path : String
    pub subprotocols : List String
    pub max_frame_size : ℕ
    pub max_message_size : ℕ
    pub ping_interval : Option ℕ
    pub pong_timeout : ℕ
    pub max_connections : ℕ
    pub idle_timeout : Option ℕ

  unfoldable pub default : WebSocketServerConfig
  default = record {
    bind_address = V.local 8080;
    path = "/";
    subprotocols = [];
    max_frame_size = 16777216;
    max_message_size = 67108864;
    ping_interval = some 30000;
    pong_timeout = 10000;
    max_connections = 1000;
    idle_timeout = some 300000;
  }

  unfoldable pub validate : WebSocketServerConfig → Result (Unit {0}) ConfigError
  validate c =
      if c.max_connections == 0
      then err (invalid_value "max_connections" "0" "must be > 0" "set a positive value like 1000")
      else ok tt

  unfoldable pub merge : WebSocketServerConfig → WebSocketServerConfig → WebSocketServerConfig
  merge c other = record c {
    bind_address =
        overlay (λ a. not (Text.◌==◌ (V.to_text a) "127.0.0.1:8080")) c.bind_address
          other.bind_address;
    path = overlay (λ p. not (Text.◌==◌ p "/")) c.path other.path;
    subprotocols = overlay is_filled c.subprotocols other.subprotocols;
  }

  unfoldable pub new : String → Result WebSocketServerConfig ConfigError
  new bind_address = map_ok (λ a. record default { bind_address = a }) (parse_bind V bind_address)

  unfoldable pub with_bind_address : V.Address → WebSocketServerConfig → WebSocketServerConfig
  with_bind_address bind_address c = record c { bind_address = bind_address }

  unfoldable pub with_path : String → WebSocketServerConfig → WebSocketServerConfig
  with_path path c = record c { path = path }

  unfoldable pub with_subprotocols : List String → WebSocketServerConfig → WebSocketServerConfig
  with_subprotocols protocols c = record c { subprotocols = protocols }

  unfoldable pub with_max_frame_size : ℕ → WebSocketServerConfig → WebSocketServerConfig
  with_max_frame_size max_frame_size c = record c { max_frame_size = max_frame_size }

  unfoldable pub with_max_message_size : ℕ → WebSocketServerConfig → WebSocketServerConfig
  with_max_message_size max_message_size c = record c { max_message_size = max_message_size }

  unfoldable pub with_ping_interval : Option ℕ → WebSocketServerConfig → WebSocketServerConfig
  with_ping_interval ping_interval c = record c { ping_interval = ping_interval }

  unfoldable pub with_pong_timeout : ℕ → WebSocketServerConfig → WebSocketServerConfig
  with_pong_timeout pong_timeout c = record c { pong_timeout = pong_timeout }

  unfoldable pub with_max_connections : ℕ → WebSocketServerConfig → WebSocketServerConfig
  with_max_connections max_connections c = record c { max_connections = max_connections }

  unfoldable pub with_idle_timeout : Option ℕ → WebSocketServerConfig → WebSocketServerConfig
  with_idle_timeout idle_timeout c = record c { idle_timeout = idle_timeout }

  unfoldable pub add_subprotocol : String → WebSocketServerConfig → WebSocketServerConfig
  add_subprotocol protocol c = record c { subprotocols = c.subprotocols ++ (protocol ∷ []) }

  unfoldable pub build : WebSocketServerConfig → Result WebSocketServerConfig ConfigError
  build c = do u ← validate c; ok c
