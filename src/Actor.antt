-- ===== src/Actor.antt =====
-- src/transport/actor.rs, OptimizedActor::run_dual_pipeline: its four tasks, each a loop whose rounds
-- are steps on the queues that they share, the join, and the ends of the channels, with the commands
-- of src/command.rs. Every internal queue is unbounded. A queue is closed when no sender of it is
-- left; the actor's own senders and receivers live until run_dual_pipeline returns, so that a send
-- between its tasks never fails while they run.
pub mod Conservation
pub mod Counting
pub mod Waiting
pub mod Tests
use msgtrans_rust.Base.{
  ℕ, ◌+◌, ◌%◌, String, Bool, true, false, List, [], ◌∷◌, ◌++◌, ◌==◌, not, ◌||◌, if◌then◌else◌,
  length, take, drop, Result, ok,
}
use msgtrans_rust.Packet.Message.{Packet}
use msgtrans_rust.TransportError.{TransportError}
use msgtrans_rust.TransportError
use msgtrans_rust.Command.{TransportStats, ConnectionInfo}
use msgtrans_rust.Event.{TransportEvent}
use msgtrans_rust.Event
use msgtrans_rust.Transport.{refused}

-- src/command.rs; the payload of Configure is not read.
pub data TransportCommand : Type 0 where
  send : ℕ → Packet → TransportCommand
  close get_connection_info pause_session resume_session : ℕ → TransportCommand
  force_disconnect : ℕ → String → TransportCommand
  configure get_stats get_active_sessions : TransportCommand

pub data ActorCommand : Type 0 where
  send_packet : Packet → ActorCommand
  query_stats health_check shutdown : ActorCommand

-- `stopped` is the source's Shutdown, `checked` its HealthCheck.
pub data ActorEvent : Type 0 where
  connected : ActorEvent
  packet_sent packet_received : ℕ → ℕ → ActorEvent
  batch_completed : ℕ → ActorEvent
  error : String → ActorEvent
  stopped checked : ActorEvent

-- What a command's response channel is sent.
pub data Reply : Type 0 where
  result : Result (Unit {0}) TransportError → Reply
  stats_reply : TransportStats → Reply
  info_reply : Result ConnectionInfo TransportError → Reply
  sessions : List ℕ → Reply

-- The AtomicU64 counters; the start time is left out.
pub record LockFreeActorStats : Type 0 where
  pub packets_sent : ℕ
  pub packets_received : ℕ
  pub bytes_sent : ℕ
  pub bytes_received : ℕ
  pub batch_operations : ℕ
  pub total_batch_packets : ℕ
  pub error_count : ℕ

unfoldable pub new_stats : LockFreeActorStats
new_stats = record {
  packets_sent = 0;
  packets_received = 0;
  bytes_sent = 0;
  bytes_received = 0;
  batch_operations = 0;
  total_batch_packets = 0;
  error_count = 0;
}

-- `fetch_add` on an AtomicU64.
abbrev pub plus : ℕ → ℕ → ℕ
plus a b = (a + b) % 18446744073709551616

unfoldable pub record_packet_sent : ℕ → LockFreeActorStats → LockFreeActorStats
record_packet_sent size s = record s {
  packets_sent = plus s.packets_sent 1;
  bytes_sent = plus s.bytes_sent size;
}

unfoldable pub record_packet_received : ℕ → LockFreeActorStats → LockFreeActorStats
record_packet_received size s = record s {
  packets_received = plus s.packets_received 1;
  bytes_received = plus s.bytes_received size;
}

unfoldable pub record_batch_operation : ℕ → LockFreeActorStats → LockFreeActorStats
record_batch_operation packet_count s = record s {
  batch_operations = plus s.batch_operations 1;
  total_batch_packets = plus s.total_batch_packets packet_count;
}

unfoldable pub record_error : LockFreeActorStats → LockFreeActorStats
record_error s = record s { error_count = plus s.error_count 1 }

-- The data pipeline is in a batch of `batch_count` packets, of which `batch` are left, or waits for a
-- packet. `outside_sends` is whether the data sender that was given out is alive, `returned` whether
-- the join is over. `accepted` are the packets whose Send was answered with Ok, `taken` those that
-- left the data queue, `sent` those that the adapter has sent, oldest first; replies and events are
-- newest first.
pub record Actor : Type 0 where
  pub session_id : ℕ
  pub max_batch_size : ℕ
  pub commands : List ActorCommand
  pub data_queue : List Packet
  pub adapter_running : Bool
  pub command_running : Bool
  pub data_running : Bool
  pub receive_running : Bool
  pub returned : Bool
  pub outside_sends : Bool
  pub in_batch : Bool
  pub batch_count : ℕ
  pub batch : List Packet
  pub stats : LockFreeActorStats
  pub replies : List Reply
  pub actor_events : List ActorEvent
  pub events : List TransportEvent
  pub accepted : List Packet
  pub taken : List Packet
  pub sent : List Packet

unfoldable pub new : ℕ → ℕ → Actor
new session_id max_batch_size = record {
  session_id = session_id;
  max_batch_size = max_batch_size;
  commands = [];
  data_queue = [];
  adapter_running = true;
  command_running = true;
  data_running = true;
  receive_running = true;
  returned = false;
  outside_sends = true;
  in_batch = false;
  batch_count = 0;
  batch = [];
  stats = new_stats;
  replies = [];
  actor_events = [];
  events = [];
  accepted = [];
  taken = [];
  sent = [];
}

abbrev pub reply : Reply → Actor → Actor
reply r a = record a { replies = r ∷ a.replies }

-- Send, to the internal queue, which is closed once the command pipeline has ended.
unfoldable pub on_send : ℕ → Packet → Actor → Actor
on_send id packet a =
    if id == a.session_id
    then (if a.command_running
        then reply (result (ok tt)) (record a {
          commands = a.commands ++ (send_packet packet ∷ []);
          accepted = a.accepted ++ (packet ∷ []);
        })
        else reply (result (refused "Internal channel closed"))
            (record a { adapter_running = false }))
    else reply (result (refused "Invalid session")) a

-- Close and ForceDisconnect.
unfoldable pub on_close : ℕ → Actor → Actor
on_close id a =
    if id == a.session_id
    then (if a.command_running
        then reply (result (ok tt))
            (record a { commands = a.commands ++ (shutdown ∷ []); adapter_running = false })
        else reply (result (refused "Internal channel closed"))
            (record a { adapter_running = false }))
    else reply (result (refused "Invalid session")) a

-- PauseSession and ResumeSession, which do nothing.
unfoldable pub on_pause : ℕ → Actor → Actor
on_pause id a =
    if id == a.session_id
    then reply (result (ok tt)) a
    else reply (result (refused "Invalid session")) a

unfoldable pub on_info : ConnectionInfo → ℕ → Actor → Actor
on_info info id a =
    if id == a.session_id
    then reply (info_reply (ok info)) a
    else reply (info_reply (refused "Invalid session")) a

-- One round of the command adapter, with the default statistics and connection info of that time.
unfoldable pub adapt : TransportStats → ConnectionInfo → TransportCommand → Actor → Actor
adapt stats info (send id packet) a = on_send id packet a
adapt stats info (close id) a = on_close id a
adapt stats info (force_disconnect id reason) a = on_close id a
adapt stats info get_stats a = reply (stats_reply stats) a
adapt stats info (get_connection_info id) a = on_info info id a
adapt stats info configure a = a
adapt stats info get_active_sessions a = reply (sessions (a.session_id ∷ [])) a
adapt stats info (pause_session id) a = on_pause id a
adapt stats info (resume_session id) a = on_pause id a

-- One command of the command pipeline.
unfoldable pub process_command : ActorCommand → Actor → Actor
process_command (send_packet packet) a = record a { data_queue = a.data_queue ++ (packet ∷ []) }
process_command query_stats a = a
process_command health_check a = record a { actor_events = checked ∷ a.actor_events }
process_command shutdown a = record a {
  command_running = false;
  actor_events = stopped ∷ a.actor_events;
  events = Event.connection_closed Event.normal ∷ a.events;
}

-- What the adapter does with one packet: it is not connected, it sends, or it fails and is or is not
-- connected then; with the Debug text of the error.
pub data Outcome : Type 0 where
  unconnected delivered : Outcome
  failed : String → Bool → Outcome

-- One packet of a batch, in front of the packets that are left. A connection that is lost ends the
-- pipeline and drops the rest.
unfoldable pub process_packet : Outcome → Packet → List Packet → Actor → Actor
process_packet unconnected p ps a = record a { data_running = false; in_batch = false; batch = [] }
process_packet delivered p ps a = record a {
  batch = ps;
  stats = record_packet_sent (length p.payload) a.stats;
  events = Event.message_sent p.header.message_id ∷ a.events;
  sent = a.sent ++ (p ∷ []);
}
process_packet (failed reason still_connected) p ps a =
    let a' = record a { stats = record_error a.stats } in
    if still_connected
    then record a' {
      batch = ps;
      events = Event.transport_error (TransportError.connection reason false) ∷ a'.events;
    }
    else record a' { data_running = false; in_batch = false; batch = [] }

-- The first packet and those that `try_recv` gives, up to `max_batch_size`.
unfoldable pub batch_size : Actor → ℕ
batch_size a = if a.max_batch_size == 0 then 1 else a.max_batch_size

-- The actor has one sender of the data queue, the command pipeline a clone, the outside another.
unfoldable pub data_queue_open : Actor → Bool
data_queue_open a = not a.returned || a.command_running || a.outside_sends

-- The actor has one sender of the internal queue and the command adapter a clone.
unfoldable pub commands_open : Actor → Bool
commands_open a = not a.returned || a.adapter_running

-- The wait for a first packet: a batch, the end of the pipeline when the queue is empty and closed, or
-- a longer wait.
unfoldable pub take_batch : Actor → Actor
take_batch a = elim a.data_queue [
  | [] ↦ if data_queue_open a then a else record a { data_running = false }
  | p ∷ ps ↦ record a {
    data_queue = drop (batch_size a) a.data_queue;
    taken = a.taken ++ take (batch_size a) a.data_queue;
    in_batch = true;
    batch_count = length (take (batch_size a) a.data_queue);
    batch = take (batch_size a) a.data_queue;
  }
]

-- Behind the last packet of a batch.
unfoldable pub end_batch : Actor → Actor
end_batch a = record a {
  in_batch = false;
  stats = record_batch_operation a.batch_count a.stats;
  actor_events = batch_completed a.batch_count ∷ a.actor_events;
}

-- One step of the data pipeline; `outcome` is what the adapter does with the next packet, if any.
unfoldable pub process_data : Outcome → Actor → Actor
process_data outcome a =
    if a.in_batch
    then elim a.batch [ [] ↦ end_batch a | p ∷ ps ↦ process_packet outcome p ps a ]
    else take_batch a

-- One step of the command pipeline, which ends when its queue is empty and closed.
unfoldable pub take_command : Actor → Actor
take_command a = elim a.commands [
  | [] ↦ if commands_open a then a else record a { command_running = false }
  | command ∷ commands ↦ process_command command (record a { commands = commands })
]

-- What the scheduler and the outside do next: a command comes, or the outside drops its sender of
-- commands; a packet comes from the outside, or the outside drops its sender of packets; a task makes a
-- step; the receive task looks whether the connection is up; the join looks whether all have ended.
pub data Step : Type 0 where
  receives : TransportStats → ConnectionInfo → TransportCommand → Step
  drops_commands : Step
  pushes : Packet → Step
  drops_data : Step
  runs_command : Step
  runs_data : Outcome → Step
  polls : Bool → Step
  joins : Step

-- A task that has ended does nothing.
unfoldable pub step : Step → Actor → Actor
step (receives stats info command) a = if a.adapter_running then adapt stats info command a else a
step drops_commands a = record a { adapter_running = false }
step (pushes packet) a =
    if a.outside_sends then record a { data_queue = a.data_queue ++ (packet ∷ []) } else a
step drops_data a = record a { outside_sends = false }
step runs_command a = if a.command_running then take_command a else a
step (runs_data outcome) a = if a.data_running then process_data outcome a else a
step (polls up) a = if up then a else record a { receive_running = false }
step joins a =
    if a.adapter_running || a.data_running || a.receive_running || a.command_running
    then a
    else record a { returned = true }

unfoldable pub run : List Step → Actor → Actor
run [] a = a
run (s ∷ steps) a = run steps (step s a)
