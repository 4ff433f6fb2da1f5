-- ===== src/Config/TcpServer.antt =====
-- src/protocol/server_config.rs, TcpServerConfig.
use msgtrans_rust.Base.{
  ℕ, String, Bool, true, false, not, Option, some, ◌==◌, if◌then◌else◌, Result, ok, err, map_ok,
  ◌>>=◌,
}
use text.Mathlib.Text
use msgtrans_rust.Config.{Values, ConfigError, invalid_value, overlay, is_some, parse_bind}

module _ (V : Values) where
  pub record TcpServerConfig : Type 0 where
    pub bind_address : V.Address
    pub max_connections : ℕ
    pub nodelay : Bool
    pub keepalive : Option ℕ
    pub read_buffer_size : ℕ
    pub write_buffer_size : ℕ
    pub accept_timeout : ℕ
    pub idle_timeout : Option ℕ
    pub reuse_port : Bool
    pub reuse_addr : Bool

  unfoldable pub default : TcpServerConfig
  default = record {
    bind_address = V.local 8080;
    max_connections = 1000;
    nodelay = true;
    keepalive = some 60000;
    read_buffer_size = 8192;
    write_buffer_size = 8192;
    accept_timeout = 30000;
    idle_timeout = some 300000;
    reuse_port = false;
    reuse_addr = true;
  }

  unfoldable pub validate : TcpServerConfig → Result (Unit {0}) ConfigError
  validate c =
      if c.max_connections == 0
      then err (invalid_value "max_connections" "0" "must be > 0" "set a positive value like 1000")
      else ok tt

  unfoldable pub merge : TcpServerConfig → TcpServerConfig → TcpServerConfig
  merge c other = record c {
    bind_address =
        overlay (λ a. not (Text.◌==◌ (V.to_text a) "127.0.0.1:8080")) c.bind_address
          other.bind_address;
    max_connections = overlay (λ n. not (n == 1000)) c.max_connections other.max_connections;
    nodelay = other.nodelay;
    keepalive = overlay is_some c.keepalive other.keepalive;
  }

  unfoldable pub new : String → Result TcpServerConfig ConfigError
  new bind_address = map_ok (λ a. record default { bind_address = a }) (parse_bind V bind_address)

  unfoldable pub with_bind_address : V.Address → TcpServerConfig → TcpServerConfig
  with_bind_address bind_address c = record c { bind_address = bind_address }

  unfoldable pub with_max_connections : ℕ → TcpServerConfig → TcpServerConfig
  with_max_connections max_connections c = record c { max_connections = max_connections }

  unfoldable pub with_nodelay : Bool → TcpServerConfig → TcpServerConfig
  with_nodelay nodelay c = record c { nodelay = nodelay }

  unfoldable pub with_keepalive : Option ℕ → TcpServerConfig → TcpServerConfig
  with_keepalive keepalive c = record c { keepalive = keepalive }

  unfoldable pub with_read_buffer_size : ℕ → TcpServerConfig → TcpServerConfig
  with_read_buffer_size read_buffer_size c = record c { read_buffer_size = read_buffer_size }

  unfoldable pub with_write_buffer_size : ℕ → TcpServerConfig → TcpServerConfig
  with_write_buffer_size write_buffer_size c = record c { write_buffer_size = write_buffer_size }

  unfoldable pub with_accept_timeout : ℕ → TcpServerConfig → TcpServerConfig
  with_accept_timeout accept_timeout c = record c { accept_timeout = accept_timeout }

  unfoldable pub with_idle_timeout : Option ℕ → TcpServerConfig → TcpServerConfig
  with_idle_timeout idle_timeout c = record c { idle_timeout = idle_timeout }

  unfoldable pub with_reuse_port : Bool → TcpServerConfig → TcpServerConfig
  with_reuse_port reuse_port c = record c { reuse_port = reuse_port }

  unfoldable pub with_reuse_addr : Bool → TcpServerConfig → TcpServerConfig
  with_reuse_addr reuse_addr c = record c { reuse_addr = reuse_addr }

  unfoldable pub build : TcpServerConfig → Result TcpServerConfig ConfigError
  build c = do u ← validate c; ok c
