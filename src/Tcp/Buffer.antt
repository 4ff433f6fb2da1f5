-- ===== src/Tcp/Buffer.antt =====
-- src/adapters/tcp.rs, OptimizedReadBuffer. `bytes::BytesMut` is a parameter where its capacity
-- matters: what `reserve` and `split_to` leave of it. A read of the socket is an argument.
pub mod Parse
use msgtrans_rust.Base.{
  ℕ, ◌+◌, ◌-◌, ◌*◌, String, Bool, ◌||◌, List, [], ◌++◌, Option, none, some, ltb, if◌then◌else◌,
  length, take, drop, Result, ok, err,
}
use msgtrans_rust.Packet.Header.{PacketError, byte, of_be16, of_be32}
use msgtrans_rust.Packet.Message
use msgtrans_rust.Packet.Message.{Packet}

pub data TcpError : Type 0 where
  io : String → TcpError
  timeout connection_closed : TcpError
  packet : PacketError → TcpError
  buffer_overflow : TcpError
  config : String → TcpError

pub record ReadBufferStats : Type 0 where
  pub reads : ℕ
  pub packets_parsed : ℕ
  pub reallocations : ℕ
  pub bytes_read : ℕ

pub record OptimizedReadBuffer : Type 0 where
  pub buffer : List ℕ
  pub capacity : ℕ
  pub target_capacity : ℕ
  pub stats : ReadBufferStats

-- The capacity of a BytesMut after `reserve` (from capacity, length and the extra room asked for) and
-- after `split_to` (from capacity and position).
pub record BytesMutCapacity : Type 0 where
  pub reserve : ℕ → ℕ → ℕ → ℕ
  pub split_to : ℕ → ℕ → ℕ

abbrev pub no_stats : ReadBufferStats
no_stats = record { reads = 0; packets_parsed = 0; reallocations = 0; bytes_read = 0 }

unfoldable pub new : ℕ → OptimizedReadBuffer
new initial_capacity = record {
  buffer = [];
  capacity = initial_capacity;
  target_capacity = initial_capacity;
  stats = no_stats;
}

-- The two lengths that the header claims.
abbrev pub claimed_ext : List ℕ → ℕ
claimed_ext bytes = of_be16 (byte bytes 8) (byte bytes 9)

abbrev pub claimed_payload : List ℕ → ℕ
claimed_payload bytes = of_be32 (byte bytes 10) (byte bytes 11) (byte bytes 12) (byte bytes 13)

module _ (m : BytesMutCapacity) where
  -- The bytes leave the buffer before they are decoded.
  unfoldable pub split_packet :
      OptimizedReadBuffer → ℕ → OptimizedReadBuffer × Result (Option Packet) TcpError
  split_packet b total =
      let rest = record b {
        buffer = drop total b.buffer;
        capacity = m.split_to b.capacity total;
      } in
      elim (Message.from_bytes (take total b.buffer)) [
        | err e ↦ (rest, err (packet e))
        | ok p ↦ (
          record rest { stats = record (b.stats) { packets_parsed = b.stats.packets_parsed + 1 } },
          ok (some p),
        )
      ]

  unfoldable pub try_parse_next_packet :
      OptimizedReadBuffer → OptimizedReadBuffer × Result (Option Packet) TcpError
  try_parse_next_packet b =
      if ltb (length b.buffer) 16
      then (b, ok none)
      else (let ext_header_len = claimed_ext b.buffer in
          let payload_len = claimed_payload b.buffer in
          if ltb (1024 * 1024) payload_len || ltb (64 * 1024) ext_header_len
          then (b, err buffer_overflow)
          else (let total_packet_len = 16 + ext_header_len + payload_len in
              if ltb (length b.buffer) total_packet_len
              then (b, ok none)
              else split_packet b total_packet_len))

  -- The argument is what the socket has: an error, or bytes, of which a read takes as many as there
  -- is room for.
  unfoldable pub fill_from_stream :
      OptimizedReadBuffer → Result (List ℕ) String → OptimizedReadBuffer × Result ℕ TcpError
  fill_from_stream b read =
      let b' =
        if ltb (b.capacity - length b.buffer) 4096
        then record b {
          capacity = m.reserve b.capacity (length b.buffer) b.target_capacity;
          stats = record (b.stats) { reallocations = b.stats.reallocations + 1 };
        }
        else b in
      elim read [
        | err e ↦ (b', err (io e))
        | ok available ↦
            let bytes = take (b'.capacity - length b'.buffer) available in
            (
              record b' {
                buffer = b'.buffer ++ bytes;
                stats = record (b'.stats) {
                  reads = b'.stats.reads + 1;
                  bytes_read = b'.stats.bytes_read + length bytes;
                };
              },
              ok (length bytes),
            )
      ]

unfoldable pub clear : OptimizedReadBuffer → OptimizedReadBuffer
clear b = record b { buffer = [] }
