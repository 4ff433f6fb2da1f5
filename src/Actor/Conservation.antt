-- ===== src/Actor/Conservation.antt =====
-- src/transport/actor.rs: where an accepted packet is, between its Send command and the adapter.
pub mod Run
use msgtrans_rust.Base.{
  ℕ, ◌+◌, ◌≡◌, ◌≢◌, refl, arith, ◌⊎◌, String, Bool, true, false, ◌||◌, List, [], ◌∷◌, ◌++◌,
  append-nil, append_assoc, ◌==◌, if◌then◌else◌, length, take, drop, take-append-drop, Result, ok,
  sym, ap, ◌∙◌, Bool-cases, List-cases, inl, inr,
}
use mathlib.Core.Path.{subst}
use msgtrans_rust.Packet.Message.{Packet}
use msgtrans_rust.Command.{TransportStats, ConnectionInfo}
use msgtrans_rust.Actor.{
  TransportCommand, send, close, get_connection_info, pause_session, resume_session,
  force_disconnect, configure, get_stats, get_active_sessions, ActorCommand, send_packet,
  query_stats, health_check, shutdown, Actor, new, on_send, on_close, on_pause, on_info, adapt,
  process_command,
}

-- The packets in the internal queue.
abbrev pub packets_of : List ActorCommand → List Packet
packets_of [] = []
packets_of (send_packet p ∷ commands) = p ∷ packets_of commands
packets_of (command ∷ commands) = packets_of commands

abbrev pub has_shutdown : List ActorCommand → Bool
has_shutdown [] = false
has_shutdown (shutdown ∷ commands) = true
has_shutdown (command ∷ commands) = has_shutdown commands

-- Nothing stands behind a shutdown.
abbrev pub EndsShut : List ActorCommand → Type 0
EndsShut [] = Unit
EndsShut (shutdown ∷ commands) = commands ≡ []
EndsShut (command ∷ commands) = EndsShut commands

pub packets_of-append :
    (commands : List ActorCommand) (p : Packet)
    → packets_of (commands ++ (send_packet p ∷ [])) ≡ packets_of commands ++ (p ∷ [])
packets_of-append [] p = refl
packets_of-append (send_packet q ∷ commands) p = ap (◌∷◌ q) (packets_of-append commands p)
packets_of-append (query_stats ∷ commands) p = packets_of-append commands p
packets_of-append (health_check ∷ commands) p = packets_of-append commands p
packets_of-append (shutdown ∷ commands) p = packets_of-append commands p

packets_of_shut :
    (commands : List ActorCommand) → packets_of (commands ++ (shutdown ∷ [])) ≡ packets_of commands
packets_of_shut [] = refl
packets_of_shut (send_packet q ∷ commands) = ap (◌∷◌ q) (packets_of_shut commands)
packets_of_shut (query_stats ∷ commands) = packets_of_shut commands
packets_of_shut (health_check ∷ commands) = packets_of_shut commands
packets_of_shut (shutdown ∷ commands) = packets_of_shut commands

-- A queue without a shutdown may be given any one command more.
pub append_packet :
    (commands : List ActorCommand) (p : Packet)
    → has_shutdown commands ≡ false
    → (has_shutdown (commands ++ (send_packet p ∷ [])) ≡ false)
      × EndsShut (commands ++ (send_packet p ∷ []))
append_packet [] p h = (refl, tt)
append_packet (send_packet q ∷ commands) p h = append_packet commands p h
append_packet (query_stats ∷ commands) p h = append_packet commands p h
append_packet (health_check ∷ commands) p h = append_packet commands p h
append_packet (shutdown ∷ commands) p h = absurd (cc h)

append_shutdown :
    (commands : List ActorCommand)
    → has_shutdown commands ≡ false
    → EndsShut (commands ++ (shutdown ∷ []))
append_shutdown [] h = refl
append_shutdown (send_packet q ∷ commands) h = append_shutdown commands h
append_shutdown (query_stats ∷ commands) h = append_shutdown commands h
append_shutdown (health_check ∷ commands) h = append_shutdown commands h
append_shutdown (shutdown ∷ commands) h = absurd (cc h)

-- Every accepted packet has been taken by the data pipeline, waits in the data queue or stands in
-- the internal queue, in the order of acceptance; while the command adapter runs so does the command
-- pipeline, with no shutdown queued; a shutdown stands last; and a command pipeline that has ended
-- has left nothing behind.
pub record IsConserved (a : Actor) : Type 0 where
  pub conserved : a.accepted ≡ a.taken ++ (a.data_queue ++ packets_of a.commands)
  pub adapter_last : a.adapter_running ≡ true → a.command_running ≡ true
  pub unshut : a.adapter_running ≡ true → has_shutdown a.commands ≡ false
  pub shut_last : EndsShut a.commands
  pub handed_over : a.command_running ≡ false → a.commands ≡ []

pub new-IsConserved : (id n : ℕ) → IsConserved (new id n)
unfolding new
new-IsConserved id n = record {
  conserved = refl;
  adapter_last = λ e. refl;
  unshut = λ e. refl;
  shut_last = tt;
  handed_over = λ e. refl;
}

-- What replies and events do not touch.
abbrev pub SameQueues : Actor → Actor → Type 0
SameQueues a b =
    (b.accepted ≡ a.accepted)
    × (b.taken ≡ a.taken)
    × (b.data_queue ≡ a.data_queue)
    × (b.commands ≡ a.commands)
    × (b.adapter_running ≡ a.adapter_running)
    × (b.command_running ≡ a.command_running)

pub SameQueues-IsConserved : (a b : Actor) → SameQueues a b → IsConserved a → IsConserved b
SameQueues-IsConserved a b (e, f, g, h, i, j) v = record {
  conserved = rw (e, f, g, h) v.conserved;
  adapter_last = rw (i, j) v.adapter_last;
  unshut = rw (h, i) v.unshut;
  shut_last = rw h v.shut_last;
  handed_over = rw (h, j) v.handed_over;
}

pub accept_packet :
    (a : Actor) (p : Packet)
    → IsConserved a
    → a.adapter_running ≡ true
    → IsConserved (record a {
      commands = a.commands ++ (send_packet p ∷ []);
      accepted = a.accepted ++ (p ∷ []);
    })
accept_packet a p v running =
    let (open', ends) = append_packet a.commands p (v.unshut running) in
    record {
      conserved =
          ap (λ ps. ps ++ (p ∷ [])) v.conserved
          ∙ append_assoc a.taken (a.data_queue ++ packets_of a.commands) (p ∷ [])
          ∙ ap (λ ps. a.taken ++ ps) (append_assoc a.data_queue (packets_of a.commands) (p ∷ []))
          ∙ ap (λ ps. a.taken ++ (a.data_queue ++ ps)) (sym (packets_of-append a.commands p));
      adapter_last = v.adapter_last;
      unshut = λ e. open';
      shut_last = ends;
      handed_over = λ e. absurd (cc (v.adapter_last running));
    }

pub accept_shutdown :
    (a : Actor)
    → IsConserved a
    → a.adapter_running ≡ true
    → IsConserved (record a { commands = a.commands ++ (shutdown ∷ []); adapter_running = false })
accept_shutdown a v running = record {
  conserved =
      v.conserved ∙ ap (λ ps. a.taken ++ (a.data_queue ++ ps)) (sym (packets_of_shut a.commands));
  adapter_last = λ e. cc;
  unshut = λ e. cc;
  shut_last = append_shutdown a.commands (v.unshut running);
  handed_over = λ e. absurd (cc (v.adapter_last running));
}
