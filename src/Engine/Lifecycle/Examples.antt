-- ===== src/Engine/Lifecycle/Examples.antt =====
-- engine.go: a start with the default configuration, and a close while packets are queued.
use go_pass.Base.{ℕ, ◌≡◌, refl, Bool, true, false, [], ◌∷◌, none, some, ℤ, pos, Text, codes}
use go_pass.Config.{default_config}
use go_pass.Engine.Batch.{push, new_send_queue}
use go_pass.Engine.Intercept.Examples.{world0, packet_with, address0}
use go_pass.Engine.Capture.{Loop, Round, receive_round, running}
use go_pass.Engine.Capture.Examples.{one_packet}
use go_pass.Engine.Control.{Engine}
use go_pass.Engine.Control.Examples.{system, system-IsReader}
use go_pass.Engine.Lifecycle.{Machine, new, start, close_interceptor}
use go_pass.Engine.Lifecycle.Starting.{Outcome, start_lem}
use go_pass.Engine.Lifecycle.Stopping.{Returns, receive_round-close_interceptor}

abbrev pub machine : Machine
machine = record {
  host = system;
  split_host_port = λ t. some (codes "127.0.0.1", codes "9192");
  atoi = λ t. some (pos 9192);
  listens = λ port. true;
  elevated = true;
  opens = true;
}

abbrev fresh : Engine Text
fresh = (new default_config).0

machine_started : (start machine (new {S = Text} default_config).1 fresh).1 ≡ (none, true)
unfolding start new default_config go_pass.Base.Text-discrete go_pass.Base.ℕ_discrete
machine_started = refl

start_lem_example : Outcome system fresh (start machine (new {S = Text} default_config).1 fresh)
start_lem_example = start_lem Text machine default_config system-IsReader

-- A packet is queued when the driver is given up.
abbrev queued : Loop
queued = record {
  world = record world0 { queue = some (push new_send_queue (packet_with 2) address0) };
  fails = 0;
  errored = false;
  state = running;
}

abbrev closing : Round
closing = record one_packet { meanwhile = close_interceptor; closes = true }

receive_round-close_interceptor_example : Returns queued (receive_round true closing queued)
receive_round-close_interceptor_example = receive_round-close_interceptor true closing queued refl
