-- ===== src/Config/Laws.antt =====
-- Merging and presets of configurations (src/protocol/client_config.rs, src/protocol/server_config.rs).
use msgtrans_rust.Base.{◌≡◌, refl, arith, String, Bool, false, not, some, ◌==◌, ok, ◌⊎◌}
use msgtrans_rust.Config.{Values, overlay, is_some, default_retry}
use msgtrans_rust.Config.TcpClient
use msgtrans_rust.Config.TcpClient.{TcpClientConfig}
use msgtrans_rust.Config.WebSocketClient
use msgtrans_rust.Config.WebSocketClient.{WebSocketClientConfig}
use msgtrans_rust.Config.TcpServer
use msgtrans_rust.Config.TcpServer.{TcpServerConfig}
use msgtrans_rust.Config.WebSocketServer
use msgtrans_rust.Config.WebSocketServer.{WebSocketServerConfig}
use msgtrans_rust.Config.QuicServer
use msgtrans_rust.Config.QuicServer.{QuicServerConfig}
use msgtrans_rust.Config.QuicClient
use msgtrans_rust.Config.QuicClient.{QuicClientConfig}

overlay_assoc {ℓ} :
    {A : Type ℓ} (set : A → Bool) (a b c : A)
    → overlay set (overlay set a b) c ≡ overlay set a (overlay set b c)
overlay_assoc set a b c = ground arith

module _ (V : Values) where
  -- Merging three configurations of a TCP client gives the same, whichever two are merged first.
  pub merge_assoc :
      (a b c : TcpClientConfig V)
      → TcpClient.merge V (TcpClient.merge V a b) c ≡ TcpClient.merge V a (TcpClient.merge V b c)
  unfolding TcpClient.merge
  merge_assoc a b c = λ i. record {
    target_address =
        overlay_assoc (λ a. not (V.port a == 80)) a.target_address b.target_address c.target_address
          i;
    connect_timeout =
        overlay_assoc (λ t. not (t == 10000)) a.connect_timeout b.connect_timeout c.connect_timeout
          i;
    nodelay = overlay_assoc not a.nodelay b.nodelay c.nodelay i;
    keepalive = overlay_assoc is_some a.keepalive b.keepalive c.keepalive i;
    read_buffer_size =
        overlay_assoc (λ n. not (n == 8192)) a.read_buffer_size b.read_buffer_size
          c.read_buffer_size i;
    write_buffer_size =
        overlay_assoc (λ n. not (n == 8192)) a.write_buffer_size b.write_buffer_size
          c.write_buffer_size i;
    read_timeout = overlay_assoc is_some a.read_timeout b.read_timeout c.read_timeout i;
    write_timeout = overlay_assoc is_some a.write_timeout b.write_timeout c.write_timeout i;
    retry_config =
        overlay_assoc (λ r. not (r.max_retries == 3)) a.retry_config b.retry_config c.retry_config
          i;
    local_bind_address =
        overlay_assoc is_some a.local_bind_address b.local_bind_address c.local_bind_address i;
  }

  -- Two valid configurations of a TCP client merge into a valid one, which `build` returns.
  pub merge-build :
      (a b : TcpClientConfig V)
      → TcpClient.validate V a ≡ ok tt
      → TcpClient.validate V b ≡ ok tt
      → TcpClient.build V (TcpClient.merge V a b) ≡ ok (TcpClient.merge V a b)
  unfolding TcpClient.merge TcpClient.build TcpClient.validate
  merge-build a b va vb = ground arith

  -- Merging a TCP configuration with the default one changes it: the keep-alive time and the read and
  -- write timeouts become those of the default; all else is kept. The default address has the port 80.
  pub merge-default :
      (c : TcpClientConfig V)
      → V.port (V.local 80) ≡ 80
      → TcpClient.merge V c (TcpClient.default V)
        ≡ record c { keepalive = some 60000; read_timeout = some 30000; write_timeout = some 30000 }
  unfolding TcpClient.merge TcpClient.default default_retry
  merge-default c h = ground arith

  -- Merging any QUIC configuration with one that `new` has made, in either order, gives one that does
  -- not verify certificates.
  pub merge_unverified :
      (c d : QuicClientConfig V) (address : String)
      → QuicClient.new V address ≡ ok d
      → ((QuicClient.merge V c d).verify_certificate ≡ false)
        × ((QuicClient.merge V d c).verify_certificate ≡ false)
  unfolding QuicClient.merge QuicClient.new QuicClient.default
  merge_unverified c d address h = ground arith

  -- What a preset of a WebSocket client gives is a valid configuration for the target it was given.
  pub presets_valid :
      (url : String) (c : WebSocketClientConfig V)
      → (WebSocketClient.json_api V url ≡ ok c)
        ⊎ ((WebSocketClient.realtime V url ≡ ok c) ⊎ (WebSocketClient.file_transfer V url ≡ ok c))
      → (WebSocketClient.build V c ≡ ok c) × (c.target_url ≡ url)
  unfolding WebSocketClient.build WebSocketClient.validate WebSocketClient.json_api
      WebSocketClient.realtime WebSocketClient.file_transfer WebSocketClient.new
      WebSocketClient.default WebSocketClient.with_max_message_size
      WebSocketClient.with_max_frame_size WebSocketClient.with_subprotocols
      WebSocketClient.with_headers WebSocketClient.with_connect_timeout
      WebSocketClient.with_pong_timeout WebSocketClient.with_ping_interval
  presets_valid url c h = ground arith

  -- Two valid configurations of a TCP server merge into a valid one.
  pub tcp_servers_valid :
      (a b : TcpServerConfig V)
      → TcpServer.validate V a ≡ ok tt
      → TcpServer.validate V b ≡ ok tt
      → TcpServer.build V (TcpServer.merge V a b) ≡ ok (TcpServer.merge V a b)
  unfolding TcpServer.merge TcpServer.build TcpServer.validate
  tcp_servers_valid a b va vb = ground arith

  -- Merging never changes the limits, the times and the connection bound of a WebSocket server, so
  -- that the merge is valid just when the first configuration is.
  pub websocket_limits_kept :
      (a b : WebSocketServerConfig V)
      → let c = WebSocketServer.merge V a b in
        (c.max_frame_size ≡ a.max_frame_size)
        × (c.max_message_size ≡ a.max_message_size)
        × (c.ping_interval ≡ a.ping_interval)
        × (c.pong_timeout ≡ a.pong_timeout)
        × (c.max_connections ≡ a.max_connections)
        × (c.idle_timeout ≡ a.idle_timeout)
        × (WebSocketServer.validate V c ≡ WebSocketServer.validate V a)
  unfolding WebSocketServer.merge WebSocketServer.validate
  websocket_limits_kept a b = (refl, refl, refl, refl, refl, refl, refl)

  -- What `insecure` gives has empty texts for the certificate and the key, and is valid.
  pub insecure-build :
      (address : String) (c : QuicServerConfig V)
      → QuicServer.insecure V address ≡ ok c
      → (QuicServer.build V c ≡ ok c) × (c.cert_pem ≡ some "") × (c.key_pem ≡ some "")
  unfolding QuicServer.insecure QuicServer.build QuicServer.validate QuicServer.new
      QuicServer.default QuicServer.with_cert_pem QuicServer.with_key_pem
  insecure-build address c h = ground arith
