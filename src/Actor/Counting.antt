-- ===== src/Actor/Counting.antt =====
-- src/transport/actor.rs: the statistics, the events and the order of the packets that are sent.
use msgtrans_rust.Base.{
  ℕ, ◌+◌, ◌%◌, ◌≡◌, ◌≢◌, refl, arith, true, false, List, [], ◌∷◌, ◌++◌, append-nil, append_assoc,
  map, length, length-append, take, drop, sym, ap, ◌∙◌, List-cases, inl, inr,
}
use mathlib.Core.Path.{subst}
use msgtrans_rust.Packet.Message.{Packet}
use msgtrans_rust.Event.{TransportEvent}
use msgtrans_rust.Event
use msgtrans_rust.Actor.{
  send, close, get_connection_info, pause_session, resume_session, force_disconnect, configure,
  get_stats, get_active_sessions, record_packet_sent, record_error, record_batch_operation,
  new_stats, Actor, new, on_send, on_close, on_pause, on_info, adapt, process_command, Outcome,
  unconnected, delivered, failed, process_packet, batch_size, take_batch, end_batch, take_command,
  process_data, Step, receives, drops_commands, pushes, drops_data, runs_command, runs_data, polls,
  joins, step, run,
}
use msgtrans_rust.Actor.Conservation.Run.{either_branch}

abbrev pub payload_bytes : List Packet → ℕ
payload_bytes [] = 0
payload_bytes (p ∷ ps) = length p.payload + payload_bytes ps

payload_bytes-append :
    (ps qs : List Packet) → payload_bytes (ps ++ qs) ≡ payload_bytes ps + payload_bytes qs
payload_bytes-append [] qs = omega arith
payload_bytes-append (p ∷ ps) qs = omega (arith, payload_bytes-append ps qs)

-- The ids of the MessageSent events, oldest first.
abbrev pub sent_ids : List TransportEvent → List ℕ
sent_ids [] = []
sent_ids (Event.message_sent id ∷ events) = sent_ids events ++ (id ∷ [])
sent_ids (event ∷ events) = sent_ids events

abbrev pub ids_of : List Packet → List ℕ
ids_of = map (λ p. p.header.message_id)

ids_of-append : (ps qs : List Packet) → ids_of (ps ++ qs) ≡ ids_of ps ++ ids_of qs
ids_of-append [] qs = refl
ids_of-append (p ∷ ps) qs = ap (◌∷◌ p.header.message_id) (ids_of-append ps qs)

-- Some of the packets, in their order.
pub data Sublist : List Packet → List Packet → Type 0 where
  none_left : Sublist [] []
  kept : {p : Packet} {ps qs : List Packet} → Sublist ps qs → Sublist (p ∷ ps) (p ∷ qs)
  skipped : {q : Packet} {ps qs : List Packet} → Sublist ps qs → Sublist ps (q ∷ qs)

Sublist-nil : (qs : List Packet) → Sublist [] qs
Sublist-nil [] = none_left
Sublist-nil (q ∷ qs) = skipped (Sublist-nil qs)

Sublist-append :
    {ps qs rs ss : List Packet} → Sublist ps qs → Sublist rs ss → Sublist (ps ++ rs) (qs ++ ss)
Sublist-append none_left h = h
Sublist-append (kept s) h = kept (Sublist-append s h)
Sublist-append (skipped s) h = skipped (Sublist-append s h)

Sublist_refl : (ps : List Packet) → Sublist ps ps
Sublist_refl [] = none_left
Sublist_refl (p ∷ ps) = kept (Sublist_refl ps)

Sublist_trans : {ps qs rs : List Packet} → Sublist ps qs → Sublist qs rs → Sublist ps rs
Sublist_trans h none_left = h
Sublist_trans (kept h) (kept k) = kept (Sublist_trans h k)
Sublist_trans (skipped h) (kept k) = skipped (Sublist_trans h k)
Sublist_trans h (skipped k) = skipped (Sublist_trans h k)

-- Fewer packets behind those that were sent.
fewer :
    (sent : List Packet) {ps qs rs : List Packet}
    → Sublist ps qs
    → Sublist (sent ++ qs) rs
    → Sublist (sent ++ ps) rs
fewer sent h k = Sublist_trans (Sublist-append (Sublist_refl sent) h) k

-- The counters and the events tell of the packets that were sent.
pub record Tells (a : Actor) : Type 0 where
  pub packets : a.stats.packets_sent ≡ length a.sent % 18446744073709551616
  pub bytes : a.stats.bytes_sent ≡ payload_bytes a.sent % 18446744073709551616
  pub told : sent_ids a.events ≡ ids_of a.sent

-- And those are packets taken off the data queue, in their order, before those left of the batch.
pub record IsCounted (a : Actor) : Type 0 where
  pub tells : Tells a
  pub in_order : Sublist a.sent a.taken
  pub in_flight : Sublist (a.sent ++ a.batch) a.taken

pub new-IsCounted : (id n : ℕ) → IsCounted (new id n)
unfolding new new_stats
new-IsCounted id n = record {
  tells = record { packets = omega arith; bytes = omega arith; told = refl };
  in_order = none_left;
  in_flight = none_left;
}

sent-Tells :
    (p : Packet) (a : Actor)
    → Tells a
    → Tells (record a {
      stats = record_packet_sent (length p.payload) a.stats;
      events = Event.message_sent p.header.message_id ∷ a.events;
      sent = a.sent ++ (p ∷ []);
    })
unfolding record_packet_sent
sent-Tells p a t = record {
  packets = omega (arith, t.packets, length-append a.sent (p ∷ []));
  bytes = omega (arith, t.bytes, payload_bytes-append a.sent (p ∷ []));
  told = ap (λ ids. ids ++ (p.header.message_id ∷ [])) t.told ∙ sym (ids_of-append a.sent (p ∷ []));
}

-- A change that counts and tells of nothing sent.
abbrev SameSent : Actor → Actor → Type 0
SameSent a b =
    (b.sent ≡ a.sent)
    × (b.stats.packets_sent ≡ a.stats.packets_sent)
    × (b.stats.bytes_sent ≡ a.stats.bytes_sent)
    × (sent_ids b.events ≡ sent_ids a.events)

SameSent-Tells : (a b : Actor) → SameSent a b → Tells a → Tells b
SameSent-Tells a b (e, f, g, h) t = record {
  packets = f ∙ t.packets ∙ ap (λ ps. length ps % 18446744073709551616) (sym e);
  bytes = g ∙ t.bytes ∙ ap (λ ps. payload_bytes ps % 18446744073709551616) (sym e);
  told = h ∙ t.told ∙ ap ids_of (sym e);
}

-- A step that leaves the packets where they are, too.
abbrev SamePlaces : Actor → Actor → Type 0
SamePlaces a b = SameSent a b × (b.taken ≡ a.taken) × (b.batch ≡ a.batch)

SamePlaces-IsCounted : (a b : Actor) → SamePlaces a b → IsCounted a → IsCounted b
SamePlaces-IsCounted a b (same, taken, batch) v = record {
  tells = SameSent-Tells a b same v.tells;
  in_order = rw (same.0, taken) v.in_order;
  in_flight = rw (same.0, taken, batch) v.in_flight;
}

step-SamePlaces :
    (s : Step) (a : Actor) → ((outcome : Outcome) → s ≢ runs_data outcome) → SamePlaces a (step s a)
unfolding step adapt on_send on_close on_pause on_info process_command take_command
step-SamePlaces (receives stats info (send id p)) a h = ground arith
step-SamePlaces (receives stats info (close id)) a h = ground arith
step-SamePlaces (receives stats info (get_connection_info id)) a h = ground arith
step-SamePlaces (receives stats info (pause_session id)) a h = ground arith
step-SamePlaces (receives stats info (resume_session id)) a h = ground arith
step-SamePlaces (receives stats info (force_disconnect id reason)) a h = ground arith
step-SamePlaces (receives stats info configure) a h = ground arith
step-SamePlaces (receives stats info get_stats) a h = ground arith
step-SamePlaces (receives stats info get_active_sessions) a h = ground arith
step-SamePlaces drops_commands a h = ((refl, refl, refl, refl), refl, refl)
step-SamePlaces (pushes p) a h = ground arith
step-SamePlaces drops_data a h = ((refl, refl, refl, refl), refl, refl)
step-SamePlaces runs_command a h = ground arith
step-SamePlaces (runs_data outcome) a h = absurd (h outcome refl)
step-SamePlaces (polls up) a h = ground arith
step-SamePlaces joins a h = ground arith

-- A packet of the batch is sent, or dropped, alone or with all behind it.
process_packet-IsCounted :
    (o : Outcome) (p : Packet) (ps : List Packet) (a : Actor)
    → a.batch ≡ p ∷ ps
    → IsCounted a
    → IsCounted (process_packet o p ps a)
unfolding process_packet record_error
process_packet-IsCounted unconnected p ps a e v = record {
  tells = SameSent-Tells a _ (refl, refl, refl, refl) v.tells;
  in_order = v.in_order;
  in_flight = fewer a.sent (Sublist-nil a.batch) v.in_flight;
}
process_packet-IsCounted delivered p ps a e v =
    let moved : Sublist ((a.sent ++ (p ∷ [])) ++ ps) a.taken =
      subst (λ qs. Sublist qs a.taken)
        (ap (λ qs. a.sent ++ qs) e ∙ sym (append_assoc a.sent (p ∷ []) ps)) v.in_flight in
    record {
      tells = SameSent-Tells _ _ (refl, refl, refl, refl) (sent-Tells p a v.tells);
      in_order =
          subst (λ qs. Sublist qs a.taken) (append-nil (a.sent ++ (p ∷ [])))
            (fewer (a.sent ++ (p ∷ [])) (Sublist-nil ps) moved);
      in_flight = moved;
    }
process_packet-IsCounted (failed reason true) p ps a e v = record {
  tells = SameSent-Tells a _ (refl, refl, refl, refl) v.tells;
  in_order = v.in_order;
  in_flight =
      fewer a.sent (skipped (Sublist_refl ps))
        (subst (λ qs. Sublist (a.sent ++ qs) a.taken) e v.in_flight);
}
process_packet-IsCounted (failed reason false) p ps a e v = record {
  tells = SameSent-Tells a _ (refl, refl, refl, refl) v.tells;
  in_order = v.in_order;
  in_flight = fewer a.sent (Sublist-nil a.batch) v.in_flight;
}

take_batch-IsCounted : (a : Actor) → IsCounted a → IsCounted (take_batch a)
unfolding take_batch
take_batch-IsCounted a v = elim (List-cases a.data_queue) [
  | inl e ↦ SamePlaces-IsCounted a _ (ground arith) v
  | inr (q, qs, e) ↦
      let batch = take (batch_size a) a.data_queue in
      let b : Actor = record a {
        data_queue = drop (batch_size a) a.data_queue;
        taken = a.taken ++ batch;
        in_batch = true;
        batch_count = length batch;
        batch = batch;
      } in
      let w : IsCounted b = record {
        tells = SameSent-Tells a b (refl, refl, refl, refl) v.tells;
        in_order =
            subst (λ ps. Sublist ps (a.taken ++ batch)) (append-nil a.sent)
              (Sublist-append v.in_order (Sublist-nil batch));
        in_flight = Sublist-append v.in_order (Sublist_refl batch);
      } in
      let taken : take_batch a ≡ b = ground arith in rw taken w
]

batch-IsCounted :
    (o : Outcome) (packets : List Packet) (a : Actor)
    → a.batch ≡ packets
    → IsCounted a
    → IsCounted
        (elim packets as (λ _. Actor) [ [] ↦ end_batch a | p ∷ ps ↦ process_packet o p ps a ])
unfolding end_batch record_batch_operation
batch-IsCounted o [] a e v = SamePlaces-IsCounted a _ ((refl, refl, refl, refl), refl, refl) v
batch-IsCounted o (p ∷ ps) a e v = process_packet-IsCounted o p ps a e v

data-IsCounted : (o : Outcome) (a : Actor) → IsCounted a → IsCounted (process_data o a)
unfolding process_data
data-IsCounted o a v =
    either_branch IsCounted a.in_batch _ _ (λ e. batch-IsCounted o a.batch a refl v)
      (λ e. take_batch-IsCounted a v)

step-IsCounted : (s : Step) (a : Actor) → IsCounted a → IsCounted (step s a)
unfolding step
step-IsCounted (receives stats info command) a v =
    SamePlaces-IsCounted a _ (step-SamePlaces (receives stats info command) a (λ o e. cc)) v
step-IsCounted drops_commands a v =
    SamePlaces-IsCounted a _ (step-SamePlaces drops_commands a (λ o e. cc)) v
step-IsCounted (pushes p) a v =
    SamePlaces-IsCounted a _ (step-SamePlaces (pushes p) a (λ o e. cc)) v
step-IsCounted drops_data a v =
    SamePlaces-IsCounted a _ (step-SamePlaces drops_data a (λ o e. cc)) v
step-IsCounted runs_command a v =
    SamePlaces-IsCounted a _ (step-SamePlaces runs_command a (λ o e. cc)) v
step-IsCounted (runs_data o) a v =
    either_branch IsCounted a.data_running _ _ (λ e. data-IsCounted o a v) (λ e. v)
step-IsCounted (polls up) a v =
    SamePlaces-IsCounted a _ (step-SamePlaces (polls up) a (λ o e. cc)) v
step-IsCounted joins a v = SamePlaces-IsCounted a _ (step-SamePlaces joins a (λ o e. cc)) v

-- In every schedule of an actor's tasks, from a state where it holds: the counters of packets and
-- of bytes are those of the packets that the adapter has sent, modulo 2^64; the MessageSent events
-- tell of just these packets, in their order; and they are packets taken off the data queue, none
-- twice and none out of order, and in front of those that are left of the batch in hand.
pub run-IsCounted : (steps : List Step) (a : Actor) → IsCounted a → IsCounted (run steps a)
unfolding run
run-IsCounted [] a v = v
run-IsCounted (s ∷ steps) a v = run-IsCounted steps (step s a) (step-IsCounted s a v)
