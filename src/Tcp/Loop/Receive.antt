-- ===== src/Tcp/Loop/Receive.antt =====
-- What the event loop of src/adapters/tcp.rs makes of the chunks that the socket gives.
use msgtrans_rust.Base.{
  ℕ, ◌<◌, ◌≤◌, ◌-◌, ◌≡◌, ◌⊎◌, ap, ◌∙◌, length-take, take-take, take-append, take_all, refl, arith,
  List, ◌++◌, length, length-append, take, false, some, none, ok, err, ◌==◌, String, if◌then◌else◌,
}
use native.Mathlib.Decide.{dec_lt}
use msgtrans_rust.Packet.Message.{Packet, to_bytes, total_len}
use msgtrans_rust.Packet.Message.RoundTrip.{length-to_bytes_packet}
use msgtrans_rust.Tcp.Buffer
use msgtrans_rust.Tcp.Buffer.{
  OptimizedReadBuffer, BytesMutCapacity, fill_from_stream, try_parse_next_packet, io,
}
use msgtrans_rust.Tcp.Buffer.Parse.{Fits, parse_complete, parse_partial}
use msgtrans_rust.Tcp.Loop.{
  EventLoop, message_received, normal, error, emit, close_with, read_once, round, readable,
}

-- The fresh buffer behind its one read of `bytes`.
filled : List ℕ → OptimizedReadBuffer
filled bytes = record {
  buffer = bytes;
  capacity = 8192;
  target_capacity = 8192;
  stats = record { reads = 1; packets_parsed = 0; reallocations = 0; bytes_read = length bytes };
}

not_zero : (n : ℕ) → 0 < n → (n == 0) ≡ false
not_zero n h = ground arith

module _ (m : BytesMutCapacity) where
  -- A round that reads parses what this one read gave, at most 8192 bytes, and nothing that came
  -- before it.
  read_once_fresh :
      (available : List ℕ)
      → let bytes = take 8192 available in
        read_once m (ok available)
        ≡ (if length bytes == 0 then ok none else (try_parse_next_packet m (filled bytes)).1)
  unfolding read_once fill_from_stream Buffer.new filled
  read_once_fresh available = ground arith

  read_packet :
      (p : Packet) (available more : List ℕ)
      → Fits p
      → take 8192 available ≡ to_bytes p ++ more
      → read_once m (ok available) ≡ ok (some p)
  unfolding total_len filled
  read_packet p available more f same =
      let some_bytes =
        not_zero (length (to_bytes p ++ more))
          (omega (arith, length-append (to_bytes p) more, length-to_bytes_packet p)) in
      let parsed = parse_complete m (filled (to_bytes p ++ more)) p f more refl in
      read_once_fresh available ∙ rw (same, some_bytes) (ap (λ r. r.1) parsed)

  -- When the socket has the bytes of a well-formed packet of at most 8192 bytes, and possibly more
  -- behind them, a round does nothing but report that packet: the state after it is the same
  -- whatever those further bytes are.
  pub round_received :
      (l : EventLoop) (p : Packet) (rest : List ℕ)
      → Fits p
      → total_len p ≤ 8192
      → round m (readable (ok (to_bytes p ++ rest))) l ≡ emit l (message_received p)
  unfolding round
  round_received l p rest f small =
      let more = take (8192 - length (to_bytes p)) rest in
      let same : take 8192 (to_bytes p ++ rest) ≡ to_bytes p ++ more =
        take-append 8192 (to_bytes p) rest (omega (arith, length-to_bytes_packet p)) in
      let parsed = read_packet p (to_bytes p ++ rest) more f same in ground (arith, parsed)

  -- When the socket has a proper prefix of the bytes of a well-formed packet of at most 1 MiB of
  -- payload, or the packet is longer than 8192 bytes and the socket has any prefix of it, a round
  -- reports a normal close of the connection and ends the loop.
  pub round_partial_closes :
      (l : EventLoop) (p : Packet) (n : ℕ)
      → Fits p
      → (n < total_len p) ⊎ (8192 < total_len p)
      → round m (readable (ok (take n (to_bytes p)))) l ≡ close_with l normal
  unfolding round filled
  round_partial_closes l p n f short = elim (dec_lt n 8192) [
    | yes less ↦ ground (
      arith,
      read_once_fresh (take n (to_bytes p)),
      take_all 8192 (take n (to_bytes p)) (omega (arith, length-take n (to_bytes p))),
      parse_partial m (filled (take n (to_bytes p))) p f n (ground arith) refl,
    )
    | no more ↦ ground (
      arith,
      read_once_fresh (take n (to_bytes p)),
      take-take 8192 n (to_bytes p) (omega arith),
      parse_partial m (filled (take 8192 (to_bytes p))) p f 8192 (ground arith) refl,
    )
  ]

  -- A failed read is reported with its error, and ends the loop.
  pub round_failed :
      (l : EventLoop) (e : String) → round m (readable (err e)) l ≡ close_with l (error (io e))
  unfolding round read_once fill_from_stream
  round_failed l e = ground arith
