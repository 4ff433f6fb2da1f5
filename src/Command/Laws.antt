-- ===== src/Command/Laws.antt =====
-- TransportStats (src/command.rs) against sums over the history of calls.
use msgtrans_rust.Base.{ℕ, ◌+◌, ◌≤◌, ◌≡◌, arith, List, [], ◌∷◌}
use msgtrans_rust.Command.{
  TransportStats, update_activity, record_packet_sent, record_packet_received,
  record_connection_opened, record_connection_closed, record_error, Recording, packet_sent,
  packet_received, connection_opened, connection_closed, error_seen, apply, apply_all,
}

-- A sum over a history.
abbrev pub sum_of : (Recording → ℕ) → List (ℕ × Recording) → ℕ
sum_of w [] = 0
sum_of w ((now, r) ∷ rs) = w r + sum_of w rs

abbrev pub sent_packets : Recording → ℕ
sent_packets (packet_sent size) = 1
sent_packets _ = 0

abbrev pub sent_bytes : Recording → ℕ
sent_bytes (packet_sent size) = size
sent_bytes _ = 0

abbrev pub received_packets : Recording → ℕ
received_packets (packet_received size) = 1
received_packets _ = 0

abbrev pub received_bytes : Recording → ℕ
received_bytes (packet_received size) = size
received_bytes _ = 0

abbrev pub opened : Recording → ℕ
opened connection_opened = 1
opened _ = 0

abbrev pub closings : Recording → ℕ
closings connection_closed = 1
closings _ = 0

abbrev pub errors_seen : Recording → ℕ
errors_seen error_seen = 1
errors_seen _ = 0

-- The counters are those of `s` and what the history adds.
abbrev pub Counts : List (ℕ × Recording) → TransportStats → TransportStats → Type 0
Counts rs s t =
    (t.packets_sent ≡ s.packets_sent + sum_of sent_packets rs)
    × (t.bytes_sent ≡ s.bytes_sent + sum_of sent_bytes rs)
    × (t.packets_received ≡ s.packets_received + sum_of received_packets rs)
    × (t.bytes_received ≡ s.bytes_received + sum_of received_bytes rs)
    × (t.total_connections ≡ s.total_connections + sum_of opened rs)
    × (t.errors ≡ s.errors + sum_of errors_seen rs)

Counts-step :
    (now : ℕ) (r : Recording) (rs : List (ℕ × Recording)) (s t : TransportStats)
    → Counts rs (apply now r s) t
    → Counts ((now, r) ∷ rs) s t
unfolding apply update_activity record_packet_sent record_packet_received record_connection_opened
    record_connection_closed record_error
Counts-step now (packet_sent size) rs s t h = ground arith
Counts-step now (packet_received size) rs s t h = ground arith
Counts-step now connection_opened rs s t h = ground arith
Counts-step now connection_closed rs s t h = ground arith
Counts-step now error_seen rs s t h = ground arith

-- After any history of calls the counters of packets, bytes, connections opened and errors are the
-- sums over the history, added to what they were.
pub apply_all-Counts :
    (rs : List (ℕ × Recording)) (s : TransportStats) → Counts rs s (apply_all rs s)
unfolding apply_all
apply_all-Counts [] s = ground arith
apply_all-Counts ((now, r) ∷ rs) s =
    Counts-step now r rs s (apply_all rs (apply now r s)) (apply_all-Counts rs (apply now r s))

-- The open connections never outnumber those ever opened.
pub apply_all_active-le :
    (rs : List (ℕ × Recording)) (s : TransportStats)
    → s.active_connections ≤ s.total_connections
    → let t = apply_all rs s in t.active_connections ≤ t.total_connections
unfolding apply_all apply update_activity record_packet_sent record_packet_received
    record_connection_opened record_connection_closed record_error
apply_all_active-le [] s h = h
apply_all_active-le ((now, packet_sent size) ∷ rs) s h = apply_all_active-le rs _ h
apply_all_active-le ((now, packet_received size) ∷ rs) s h = apply_all_active-le rs _ h
apply_all_active-le ((now, connection_opened) ∷ rs) s h = apply_all_active-le rs _ (omega arith)
apply_all_active-le ((now, connection_closed) ∷ rs) s h =
    apply_all_active-le rs (record_connection_closed now s) (ground arith)
apply_all_active-le ((now, error_seen) ∷ rs) s h = apply_all_active-le rs _ h
