-- ===== src/Tcp/Loop/Closing.antt =====
-- How the event loop of src/adapters/tcp.rs ends, over any sequence of inputs.
use msgtrans_rust.Base.{
  ℕ, suc, ◌+◌, ◌≤◌, ◌≡◌, ◌⊎◌, arith, true, false, List, [], ◌∷◌, ◌++◌, Result, ok, err, Option,
  some, none, String,
}
use msgtrans_rust.Packet.Message.{Packet}
use msgtrans_rust.Tcp.Buffer.{BytesMutCapacity, TcpError, io}
use msgtrans_rust.Tcp.Loop.{
  EventLoop, TransportEvent, Input, message_received, message_sent, connection_closed, normal,
  error, readable, queued, queue_ended, shutdown_signal, read_once, on_parsed, on_queued, round,
  run,
}

abbrev pub closings : List TransportEvent → ℕ
closings [] = 0
closings (connection_closed r ∷ es) = suc (closings es)
closings (_ ∷ es) = closings es

closings-append : (es fs : List TransportEvent) → closings (es ++ fs) ≡ closings es + closings fs
closings-append [] fs = omega arith
closings-append (connection_closed r ∷ es) fs = omega (arith, closings-append es fs)
closings-append (message_received p ∷ es) fs = omega (arith, closings-append es fs)
closings-append (message_sent n ∷ es) fs = omega (arith, closings-append es fs)

-- A running loop has reported no end, and a loop that has ended has reported at most one.
pub record IsOrderly (l : EventLoop) : Type 0 where
  pub at_most_one : closings l.events ≤ 1
  pub none_while_running : (l.running ≡ false) ⊎ (closings l.events ≡ 0)

on_parsed-IsOrderly :
    (r : Result (Option Packet) TcpError) (l : EventLoop)
    → l.running ≡ true
    → IsOrderly l
    → IsOrderly (on_parsed r l)
unfolding on_parsed
on_parsed-IsOrderly (ok (some p)) l on v =
    ground (arith, closings-append l.events (message_received p ∷ []))
on_parsed-IsOrderly (ok none) l on v =
    ground (arith, closings-append l.events (connection_closed normal ∷ []))
on_parsed-IsOrderly (err e) l on v =
    ground (arith, closings-append l.events (connection_closed (error e) ∷ []))

on_queued-IsOrderly :
    (p : Packet) (result : Result (Unit {0}) String) (l : EventLoop)
    → l.running ≡ true
    → IsOrderly l
    → IsOrderly (on_queued p result l)
unfolding on_queued
on_queued-IsOrderly p (ok u) l on v =
    ground (arith, closings-append l.events (message_sent p.header.message_id ∷ []))
on_queued-IsOrderly p (err e) l on v =
    ground (arith, closings-append l.events (connection_closed (error (io e)) ∷ []))

module _ (m : BytesMutCapacity) where
  round-IsOrderly :
      (i : Input) (l : EventLoop) → l.running ≡ true → IsOrderly l → IsOrderly (round m i l)
  unfolding round
  round-IsOrderly (readable read) l on v = on_parsed-IsOrderly (read_once m read) l on v
  round-IsOrderly (queued p result) l on v = on_queued-IsOrderly p result l on v
  round-IsOrderly queue_ended l on v = v
  round-IsOrderly shutdown_signal l on v = ground arith

  -- From a loop that has reported at most one close, and none if it is running, every sequence of
  -- inputs leads to such a loop.
  pub run-IsOrderly : (is : List Input) (l : EventLoop) → IsOrderly l → IsOrderly (run m is l)
  unfolding run
  run-IsOrderly [] l v = v
  run-IsOrderly (i ∷ is) l v = ground (arith, round-IsOrderly i l, run-IsOrderly is (round m i l))

  -- The shutdown signal ends the loop with no further event and no further byte written, whatever
  -- inputs are still to come.
  pub run_shutdown :
      (is : List Input) (l : EventLoop)
      → run m (shutdown_signal ∷ is) l ≡ record l { running = false }
  unfolding run round
  run_shutdown [] l = ground arith
  run_shutdown (i ∷ is) l = ground arith
