-- ===== src/Actor/Waiting.antt =====
-- src/transport/actor.rs: what is left running behind a Close.
use msgtrans_rust.Base.{◌≡◌, arith, true, false, List, [], ◌∷◌}
use msgtrans_rust.Actor.{
  ActorCommand, shutdown, Actor, process_command, data_queue_open, take_batch, take_command,
  process_data, Step, receives, drops_commands, pushes, drops_data, runs_command, runs_data, polls,
  joins, step, run,
}
use msgtrans_rust.Actor.Conservation.Run.{NoPushes, NoPushes-split}

-- The command tasks have ended and the data queue is empty, but the data pipeline runs, with no batch
-- in hand, and the actor has not returned.
abbrev pub Waits : Actor → Type 0
Waits a =
    (a.adapter_running ≡ false)
    × (a.command_running ≡ false)
    × (a.data_queue ≡ [])
    × (a.in_batch ≡ false)
    × (a.data_running ≡ true)
    × (a.returned ≡ false)

step-Waits : (s : Step) (a : Actor) → NoPushes (s ∷ []) → Waits a → Waits (step s a)
unfolding step process_data take_batch data_queue_open
step-Waits (receives stats info command) a h w = ground arith
step-Waits drops_commands a h w = ground arith
step-Waits (pushes p) a h w = absurd h
step-Waits drops_data a h w = ground arith
step-Waits runs_command a h w = ground arith
step-Waits (runs_data outcome) a h w = ground arith
step-Waits (polls up) a h w = ground arith
step-Waits joins a h w = ground arith

run-Waits : (steps : List Step) (a : Actor) → NoPushes steps → Waits a → Waits (run steps a)
unfolding run
run-Waits [] a h w = w
run-Waits (s ∷ steps) a h w =
    let (first, rest) = NoPushes-split s steps h in
    run-Waits steps (step s a) rest (step-Waits s a first w)

shut_down :
    (commands : List ActorCommand) (a : Actor)
    → a.adapter_running ≡ false
    → a.command_running ≡ true
    → a.data_queue ≡ []
    → a.in_batch ≡ false
    → a.data_running ≡ true
    → a.returned ≡ false
    → a.commands ≡ shutdown ∷ commands
    → Waits (step runs_command a)
unfolding step take_command process_command
shut_down commands a ended up empty idle running out e = ground arith

-- An actor has been told to shut down, its data queue is empty, its data pipeline runs with no batch in
-- hand, and it has not returned. It processes the shutdown. From then on, while the outside pushes no
-- packet, whatever the tasks do, even when the outside has dropped its senders and the receive task
-- has seen that the connection is lost, both command tasks have ended, the data queue is empty, the
-- data pipeline runs on, and run_dual_pipeline has not returned.
pub shutdown-Waits :
    (steps : List Step) (commands : List ActorCommand) (a : Actor)
    → NoPushes steps
    → a.adapter_running ≡ false
    → a.command_running ≡ true
    → a.data_queue ≡ []
    → a.in_batch ≡ false
    → a.data_running ≡ true
    → a.returned ≡ false
    → a.commands ≡ shutdown ∷ commands
    → Waits (run (runs_command ∷ steps) a)
unfolding run
shutdown-Waits steps commands a h ended up empty idle running out e =
    run-Waits steps (step runs_command a) h (shut_down commands a ended up empty idle running out e)
