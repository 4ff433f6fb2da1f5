-- ===== src/Tcp/Tests.antt =====
-- The TCP adapter at a concrete packet.
use msgtrans_rust.Base.{
  inl, ◌≤◌, ℕ, ◌+◌, ◌<◌, ◌≡◌, arith, refl, true, List, [], ◌∷◌, ◌++◌, take, none, some, ok, err,
}
use msgtrans_rust.Packet.Header
use msgtrans_rust.Packet.Header.{uncompressed}
use msgtrans_rust.Packet.Message.{Packet, to_bytes, total_len}
use msgtrans_rust.Tcp.Buffer.{
  OptimizedReadBuffer, BytesMutCapacity, no_stats, try_parse_next_packet,
}
use msgtrans_rust.Tcp.Buffer.Parse.{Fits, without, parse_complete, parse_partial}
use msgtrans_rust.Tcp.Loop.{
  EventLoop, message_received, normal, emit, close_with, readable, shutdown_signal, round, run,
}
use msgtrans_rust.Tcp.Loop.Receive.{round_received, round_partial_closes}
use msgtrans_rust.Tcp.Loop.Closing.{IsOrderly, run-IsOrderly}

-- A BytesMut that grows to what was asked for.
abbrev growing : BytesMutCapacity
growing = record {
  reserve = λ capacity length additional. length + additional;
  split_to = λ capacity at. capacity;
}

abbrev ping : Packet
ping = record {
  header = record {
    version = 1;
    compression = uncompressed;
    packet_type = Header.one_way;
    biz_type = 0;
    message_id = 1;
    ext_header_len = 0;
    payload_len = 1;
    reserved = record { bits = 0 };
  };
  ext_header = [];
  payload = 42 ∷ [];
}

ping_fits : Fits ping
ping_fits = ground arith

abbrev buffered : List ℕ → OptimizedReadBuffer
buffered bytes = record {
  buffer = bytes;
  capacity = 8192;
  target_capacity = 8192;
  stats = no_stats;
}

parse_complete_example : try_parse_next_packet growing (buffered (to_bytes ping ++ (7 ∷ []))) ≡ (
  without growing (buffered (to_bytes ping ++ (7 ∷ []))) ping ping_fits (7 ∷ []),
  ok (some ping),
)
parse_complete_example =
    parse_complete growing (buffered (to_bytes ping ++ (7 ∷ []))) ping ping_fits (7 ∷ []) refl

ten_short : 10 < total_len ping
unfolding total_len
ten_short = omega arith

parse_partial_example :
    try_parse_next_packet growing (buffered (take 10 (to_bytes ping)))
    ≡ (buffered (take 10 (to_bytes ping)), ok none)
parse_partial_example =
    parse_partial growing (buffered (take 10 (to_bytes ping))) ping ping_fits 10 ten_short refl

abbrev junk : OptimizedReadBuffer
junk = buffered (0 ∷ 1 ∷ 2 ∷ [])

abbrev started : EventLoop
started = record { running = true; events = []; written = [] }

ping_short : total_len ping ≤ 8192
unfolding total_len
ping_short = omega arith

round_received_example :
    round growing (readable (ok (to_bytes ping ++ to_bytes ping))) started
    ≡ emit started (message_received ping)
round_received_example = round_received growing started ping (to_bytes ping) ping_fits ping_short

round_partial_closes_example :
    round growing (readable (ok (take 10 (to_bytes ping)))) started ≡ close_with started normal
round_partial_closes_example =
    round_partial_closes growing started ping 10 ping_fits (inl ten_short)

started-IsOrderly : IsOrderly started
started-IsOrderly = ground arith

run-IsOrderly_example :
    IsOrderly
      (run growing (readable (err "reset") ∷ readable (ok []) ∷ shutdown_signal ∷ []) started)
run-IsOrderly_example =
    run-IsOrderly growing (readable (err "reset") ∷ readable (ok []) ∷ shutdown_signal ∷ []) started
      started-IsOrderly
