-- ===== src/Tcp/Loop.antt =====
-- src/adapters/tcp.rs, TcpAdapter::start_event_loop: one round of the `select!` for each input that
-- the runtime may deliver. Each round that reads makes a read buffer of its own.
pub mod Receive
pub mod Closing
use msgtrans_rust.Base.{
  ℕ, String, Bool, true, false, List, [], ◌∷◌, ◌++◌, Option, none, some, ◌==◌, if◌then◌else◌,
  Result, ok, err,
}
use msgtrans_rust.Packet.Message
use msgtrans_rust.Packet.Message.{Packet}
use msgtrans_rust.Tcp.Buffer
use msgtrans_rust.Tcp.Buffer.{
  TcpError, io, OptimizedReadBuffer, BytesMutCapacity, fill_from_stream, try_parse_next_packet,
}

-- `Debug` of an error, which the close reason carries, is kept as the error.
pub data CloseReason : Type 0 where
  normal timed_out forced : CloseReason
  error : TcpError → CloseReason

-- The transport events that the loop sends.
pub data TransportEvent : Type 0 where
  message_received : Packet → TransportEvent
  message_sent : ℕ → TransportEvent
  connection_closed : CloseReason → TransportEvent

-- What one round of the loop is given: what the socket has for one read; an entry of the send
-- queue with the result of writing it, or the queue's end; the shutdown signal.
pub data Input : Type 0 where
  readable : Result (List ℕ) String → Input
  queued : Packet → Result (Unit {0}) String → Input
  queue_ended : Input
  shutdown_signal : Input

-- `written` is what went to the socket, `events` what went to the subscribers, oldest first.
pub record EventLoop : Type 0 where
  pub running : Bool
  pub events : List TransportEvent
  pub written : List ℕ

abbrev pub emit : EventLoop → TransportEvent → EventLoop
emit l e = record l { events = l.events ++ (e ∷ []) }

-- The event, then `break`.
abbrev pub close_with : EventLoop → CloseReason → EventLoop
close_with l reason = record l {
  running = false;
  events = l.events ++ (connection_closed reason ∷ []);
}

-- The arms on the result of a read.
unfoldable pub on_parsed : Result (Option Packet) TcpError → EventLoop → EventLoop
on_parsed (ok (some p)) l = emit l (message_received p)
on_parsed (ok none) l = close_with l normal
on_parsed (err e) l = close_with l (error e)

-- write_packet_to_stream, then the event; the bytes of a failed write are not counted.
unfoldable pub on_queued : Packet → Result (Unit {0}) String → EventLoop → EventLoop
on_queued p (ok u) l =
    emit (record l { written = l.written ++ Message.to_bytes p }) (message_sent p.header.message_id)
on_queued p (err e) l = close_with l (error (io e))

-- The block of the read branch: a fresh buffer, one read, one attempt to parse.
module _ (m : BytesMutCapacity) where
  unfoldable pub read_once : Result (List ℕ) String → Result (Option Packet) TcpError
  read_once read =
      let (b, filled) = fill_from_stream m (Buffer.new 8192) read in
      elim filled [
        | err e ↦ err e
        | ok n ↦ if n == 0 then ok none else (try_parse_next_packet m b).1
      ]

  unfoldable pub on_read : Result (List ℕ) String → EventLoop → EventLoop
  unfolding on_parsed
  on_read read l = on_parsed (read_once read) l

  unfoldable pub round : Input → EventLoop → EventLoop
  unfolding on_read on_queued
  round (readable read) l = on_read read l
  round (queued p result) l = on_queued p result l
  round queue_ended l = l
  round shutdown_signal l = record l { running = false }

  -- The loop over the inputs, until a `break`.
  unfoldable pub run : List Input → EventLoop → EventLoop
  run [] l = l
  run (i ∷ is) l = let rest = run is (round i l) in if l.running then rest else l
