-- ===== src/Actor/Tests.antt =====
-- An actor under concrete schedules.
use msgtrans_rust.Base.{refl, false, List, [], ◌∷◌}
use msgtrans_rust.Packet.Message
use msgtrans_rust.Packet.Message.{Packet}
use msgtrans_rust.Command.{new_stats, default_info}
use msgtrans_rust.Actor
use msgtrans_rust.Actor.{
  send, close, shutdown, Actor, delivered, Step, receives, runs_command, runs_data, run,
  drops_commands, drops_data, polls, joins,
}
use msgtrans_rust.Actor.Conservation.{IsConserved, new-IsConserved}
use msgtrans_rust.Actor.Conservation.Run.{run-IsConserved}
use msgtrans_rust.Actor.Counting.{IsCounted, new-IsCounted, run-IsCounted}
use msgtrans_rust.Actor.Waiting.{Waits, shutdown-Waits}

-- Session 5 with batches of two.
abbrev actor : Actor
actor = Actor.new 5 2

abbrev first : Packet
first = Message.one_way 1 (7 ∷ [])

-- A packet is sent, then the session is closed.
abbrev schedule : List Step
schedule =
    receives (new_stats 0) (default_info 0) (send 5 first)
    ∷ runs_command
    ∷ runs_data delivered
    ∷ runs_data delivered
    ∷ runs_data delivered
    ∷ receives (new_stats 0) (default_info 0) (close 5)
    ∷ runs_command
    ∷ []

run-IsConserved_example : IsConserved (run schedule actor)
run-IsConserved_example = run-IsConserved schedule actor tt (new-IsConserved 5 2)

run-IsCounted_example : IsCounted (run schedule actor)
run-IsCounted_example = run-IsCounted schedule actor (new-IsCounted 5 2)

-- Closed, with nothing to send.
abbrev closing : Actor
closing = record actor { adapter_running = false; commands = shutdown ∷ [] }

-- The outside lets go, the connection is lost, and every task has its turn.
abbrev farewell : List Step
farewell =
    drops_commands ∷ drops_data ∷ polls false ∷ runs_data delivered ∷ runs_command ∷ joins ∷ []

shutdown-Waits_example : Waits (run (runs_command ∷ farewell) closing)
unfolding Actor.new
shutdown-Waits_example = shutdown-Waits farewell [] closing tt refl refl refl refl refl refl refl
