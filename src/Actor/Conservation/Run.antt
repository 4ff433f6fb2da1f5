-- ===== src/Actor/Conservation/Run.antt =====
-- src/transport/actor.rs: every step of the tasks conserves the packets.
use msgtrans_rust.Base.{
  ℕ, ◌≡◌, refl, arith, ◌⊎◌, String, Bool, true, false, if◌then◌else◌, List, [], ◌∷◌, ◌++◌,
  append_assoc, ◌==◌, take, drop, take-append-drop, sym, ap, ◌∙◌, Bool-cases, List-cases, inl, inr,
}
use mathlib.Core.Path.{subst}
use msgtrans_rust.Packet.Message.{Packet}
use msgtrans_rust.Command.{TransportStats, ConnectionInfo}
use msgtrans_rust.Actor.{
  TransportCommand, send, close, get_connection_info, pause_session, resume_session,
  force_disconnect, configure, get_stats, get_active_sessions, ActorCommand, send_packet,
  query_stats, health_check, shutdown, Actor, on_send, on_close, on_pause, on_info, adapt,
  process_command, Outcome, unconnected, delivered, failed, process_packet, batch_size,
  commands_open, take_batch, end_batch, take_command, process_data, Step, receives, drops_commands,
  pushes, drops_data, runs_command, runs_data, polls, joins, step, run,
}
use msgtrans_rust.Actor.Conservation.{
  packets_of, has_shutdown, EndsShut, IsConserved, SameQueues, SameQueues-IsConserved,
  accept_packet, accept_shutdown,
}

on_send-IsConserved :
    (id : ℕ) (p : Packet) (a : Actor)
    → a.adapter_running ≡ true
    → IsConserved a
    → IsConserved (on_send id p a)
unfolding on_send
on_send-IsConserved id p a running v =
    let up = v.adapter_last running in
    elim (Bool-cases (id == a.session_id)) [
      | inr e ↦ rw (on_send, e) (SameQueues-IsConserved a _ (refl, refl, refl, refl, refl, refl) v)
      | inl e ↦
          let b : Actor = record a {
            commands = a.commands ++ (send_packet p ∷ []);
            accepted = a.accepted ++ (p ∷ []);
          } in
          rw (on_send, e, up)
            (SameQueues-IsConserved b _ (refl, refl, refl, refl, refl, sym up)
              (accept_packet a p v running))
    ]

on_close-IsConserved :
    (id : ℕ) (a : Actor) → a.adapter_running ≡ true → IsConserved a → IsConserved (on_close id a)
unfolding on_close
on_close-IsConserved id a running v =
    let up = v.adapter_last running in
    elim (Bool-cases (id == a.session_id)) [
      | inr e ↦ rw (on_close, e) (SameQueues-IsConserved a _ (refl, refl, refl, refl, refl, refl) v)
      | inl e ↦
          let b : Actor = record a {
            commands = a.commands ++ (shutdown ∷ []);
            adapter_running = false;
          } in
          rw (on_close, e, up)
            (SameQueues-IsConserved b _ (refl, refl, refl, refl, refl, sym up)
              (accept_shutdown a v running))
    ]

on_pause-SameQueues : (id : ℕ) (a : Actor) → SameQueues a (on_pause id a)
unfolding on_pause
on_pause-SameQueues id a = ground arith

on_info-SameQueues : (info : ConnectionInfo) (id : ℕ) (a : Actor) → SameQueues a (on_info info id a)
unfolding on_info
on_info-SameQueues info id a = ground arith

adapt-IsConserved :
    (stats : TransportStats) (info : ConnectionInfo) (command : TransportCommand) (a : Actor)
    → a.adapter_running ≡ true
    → IsConserved a
    → IsConserved (adapt stats info command a)
unfolding adapt
adapt-IsConserved stats info (send id p) a running v = on_send-IsConserved id p a running v
adapt-IsConserved stats info (close id) a running v = on_close-IsConserved id a running v
adapt-IsConserved stats info (force_disconnect id reason) a running v =
    on_close-IsConserved id a running v
adapt-IsConserved stats info get_stats a running v =
    SameQueues-IsConserved a _ (refl, refl, refl, refl, refl, refl) v
adapt-IsConserved stats info (get_connection_info id) a running v =
    SameQueues-IsConserved a _ (on_info-SameQueues info id a) v
adapt-IsConserved stats info configure a running v = v
adapt-IsConserved stats info get_active_sessions a running v =
    SameQueues-IsConserved a _ (refl, refl, refl, refl, refl, refl) v
adapt-IsConserved stats info (pause_session id) a running v =
    SameQueues-IsConserved a _ (on_pause-SameQueues id a) v
adapt-IsConserved stats info (resume_session id) a running v =
    SameQueues-IsConserved a _ (on_pause-SameQueues id a) v

command-IsConserved :
    (command : ActorCommand) (commands : List ActorCommand) (a : Actor)
    → a.commands ≡ command ∷ commands
    → a.command_running ≡ true
    → IsConserved a
    → IsConserved (process_command command (record a { commands = commands }))
unfolding process_command
command-IsConserved (send_packet p) commands a e r v = record {
  conserved =
      v.conserved
      ∙ ap (λ cs. a.taken ++ (a.data_queue ++ packets_of cs)) e
      ∙ ap (λ ps. a.taken ++ ps) (sym (append_assoc a.data_queue (p ∷ []) (packets_of commands)));
  adapter_last = v.adapter_last;
  unshut = λ h. ap has_shutdown (sym e) ∙ v.unshut h;
  shut_last = subst EndsShut e v.shut_last;
  handed_over = λ h. absurd (cc h);
}
command-IsConserved query_stats commands a e r v = record {
  conserved = v.conserved ∙ ap (λ cs. a.taken ++ (a.data_queue ++ packets_of cs)) e;
  adapter_last = v.adapter_last;
  unshut = λ h. ap has_shutdown (sym e) ∙ v.unshut h;
  shut_last = subst EndsShut e v.shut_last;
  handed_over = λ h. absurd (cc h);
}
command-IsConserved health_check commands a e r v = record {
  conserved = v.conserved ∙ ap (λ cs. a.taken ++ (a.data_queue ++ packets_of cs)) e;
  adapter_last = v.adapter_last;
  unshut = λ h. ap has_shutdown (sym e) ∙ v.unshut h;
  shut_last = subst EndsShut e v.shut_last;
  handed_over = λ h. absurd (cc h);
}
command-IsConserved shutdown commands a e r v =
    let last : commands ≡ [] = subst EndsShut e v.shut_last in
    record {
      conserved = v.conserved ∙ ap (λ cs. a.taken ++ (a.data_queue ++ packets_of cs)) e;
      adapter_last = λ h. absurd (cc (ap has_shutdown (sym e) ∙ v.unshut h));
      unshut = λ h. absurd (cc (ap has_shutdown (sym e) ∙ v.unshut h));
      shut_last = subst EndsShut (sym last) tt;
      handed_over = λ h. last;
    }

-- The four ways in which a packet may fare.
pub Outcome-cases :
    (o : Outcome)
    → (o ≡ unconnected)
      ⊎ (o ≡ delivered)
      ⊎ ((reason : String) × ((o ≡ failed reason true) ⊎ (o ≡ failed reason false)))
Outcome-cases unconnected = inl refl
Outcome-cases delivered = inr (inl refl)
Outcome-cases (failed reason true) = inr (inr (reason, inl refl))
Outcome-cases (failed reason false) = inr (inr (reason, inr refl))

process_packet-SameQueues :
    (o : Outcome) (p : Packet) (ps : List Packet) (a : Actor)
    → SameQueues a (process_packet o p ps a)
unfolding process_packet
process_packet-SameQueues unconnected p ps a = (refl, refl, refl, refl, refl, refl)
process_packet-SameQueues delivered p ps a = (refl, refl, refl, refl, refl, refl)
process_packet-SameQueues (failed reason true) p ps a = (refl, refl, refl, refl, refl, refl)
process_packet-SameQueues (failed reason false) p ps a = (refl, refl, refl, refl, refl, refl)

take_batch-IsConserved : (a : Actor) → IsConserved a → IsConserved (take_batch a)
unfolding take_batch
take_batch-IsConserved a v = elim (List-cases a.data_queue) [
  | inl e ↦ SameQueues-IsConserved a _ (ground arith) v
  | inr (p, ps, e) ↦
      let n = batch_size a in
      let b : Actor = record a {
        data_queue = drop n a.data_queue;
        taken = a.taken ++ take n a.data_queue;
      } in
      let w : IsConserved b = record {
        conserved =
            v.conserved
            ∙ ap (λ ps. a.taken ++ (ps ++ packets_of a.commands))
                (sym (take-append-drop n a.data_queue))
            ∙ ap (λ ps. a.taken ++ ps)
                (append_assoc (take n a.data_queue) (drop n a.data_queue) (packets_of a.commands))
            ∙ sym (
                append_assoc a.taken (take n a.data_queue)
                  (drop n a.data_queue ++ packets_of a.commands));
        adapter_last = v.adapter_last;
        unshut = v.unshut;
        shut_last = v.shut_last;
        handed_over = v.handed_over;
      } in
      SameQueues-IsConserved b _ (ground arith) w
]

-- What holds of both branches of a test.
pub either_branch {ℓ} :
    (P : Actor → Type ℓ) (b : Bool) (x y : Actor)
    → (b ≡ true → P x)
    → (b ≡ false → P y)
    → P (if b then x else y)
either_branch P true x y h k = h refl
either_branch P false x y h k = k refl

batch-IsConserved :
    (o : Outcome) (packets : List Packet) (a : Actor)
    → IsConserved a
    → IsConserved
        (elim packets as (λ _. Actor) [ [] ↦ end_batch a | p ∷ ps ↦ process_packet o p ps a ])
unfolding end_batch
batch-IsConserved o [] a v = SameQueues-IsConserved a _ (refl, refl, refl, refl, refl, refl) v
batch-IsConserved o (p ∷ ps) a v = SameQueues-IsConserved a _ (process_packet-SameQueues o p ps a) v

data-IsConserved : (o : Outcome) (a : Actor) → IsConserved a → IsConserved (process_data o a)
unfolding process_data
data-IsConserved o a v =
    either_branch IsConserved a.in_batch _ _ (λ e. batch-IsConserved o a.batch a v)
      (λ e. take_batch-IsConserved a v)

-- The pipeline ends at an empty queue that is closed.
ended-IsConserved :
    (a : Actor)
    → a.commands ≡ []
    → commands_open a ≡ false
    → IsConserved a
    → IsConserved (record a { command_running = false })
unfolding commands_open
ended-IsConserved a e o v = record {
  conserved = v.conserved;
  adapter_last = λ h. absurd (ground arith);
  unshut = v.unshut;
  shut_last = v.shut_last;
  handed_over = λ h. e;
}

take_command-IsConserved :
    (a : Actor) → a.command_running ≡ true → IsConserved a → IsConserved (take_command a)
unfolding take_command
take_command-IsConserved a r v = elim (List-cases a.commands) [
  | inr (command, commands, e) ↦
      let taken : take_command a ≡ process_command command (record a { commands = commands }) =
        ground arith in
      rw taken (command-IsConserved command commands a e r v)
  | inl e ↦
      let waits : take_command a
          ≡ (if commands_open a then a else record a { command_running = false }) =
        ground arith in
      rw waits (
        either_branch IsConserved (commands_open a) a (record a { command_running = false })
          (λ o. v) (λ o. ended-IsConserved a e o v))
]

-- Nothing is put into the data queue but by the command pipeline.
abbrev pub NoPushes : List Step → Type 0
NoPushes [] = Unit
NoPushes (pushes p ∷ steps) = ⊥
NoPushes (s ∷ steps) = NoPushes steps

step-IsConserved :
    (s : Step) (a : Actor) → NoPushes (s ∷ []) → IsConserved a → IsConserved (step s a)
unfolding step
step-IsConserved (receives stats info command) a h v =
    either_branch IsConserved a.adapter_running _ _
      (λ e. adapt-IsConserved stats info command a e v) (λ e. v)
step-IsConserved drops_commands a h v = record {
  conserved = v.conserved;
  adapter_last = λ e. absurd (cc e);
  unshut = λ e. absurd (cc e);
  shut_last = v.shut_last;
  handed_over = v.handed_over;
}
step-IsConserved (pushes p) a h v = absurd h
step-IsConserved drops_data a h v =
    SameQueues-IsConserved a _ (refl, refl, refl, refl, refl, refl) v
step-IsConserved runs_command a h v =
    either_branch IsConserved a.command_running _ _ (λ e. take_command-IsConserved a e v) (λ e. v)
step-IsConserved (runs_data o) a h v =
    either_branch IsConserved a.data_running _ _ (λ e. data-IsConserved o a v) (λ e. v)
step-IsConserved (polls up) a h v = SameQueues-IsConserved a _ (ground arith) v
step-IsConserved joins a h v = SameQueues-IsConserved a _ (ground arith) v

pub NoPushes-split :
    (s : Step) (steps : List Step) → NoPushes (s ∷ steps) → NoPushes (s ∷ []) × NoPushes steps
NoPushes-split (receives stats info command) steps h = (tt, h)
NoPushes-split drops_commands steps h = (tt, h)
NoPushes-split (pushes p) steps h = absurd h
NoPushes-split drops_data steps h = (tt, h)
NoPushes-split runs_command steps h = (tt, h)
NoPushes-split (runs_data o) steps h = (tt, h)
NoPushes-split (polls up) steps h = (tt, h)
NoPushes-split joins steps h = (tt, h)

-- While packets come from Send commands alone, every schedule of an actor whose packets are conserved
-- conserves them, whenever the tasks make their steps, the outside drops its senders and the connection
-- is lost: each accepted packet has been taken by the data pipeline, waits in the data queue or stands
-- in the internal queue, all in the order of acceptance; the command adapter does not outlive the
-- command pipeline; nothing stands behind a shutdown; and once the command pipeline has ended, every
-- accepted packet has reached the data pipeline's queue.
pub run-IsConserved :
    (steps : List Step) (a : Actor) → NoPushes steps → IsConserved a → IsConserved (run steps a)
unfolding run
run-IsConserved [] a h v = v
run-IsConserved (s ∷ steps) a h v =
    let (first, rest) = NoPushes-split s steps h in
    run-IsConserved steps (step s a) rest (step-IsConserved s a first v)
