-- ===== src/Agentgw/Tests.antt =====
-- The gateway of the agents at concrete rows (internal/logic/agentgw): two agents with four commands.
mod Handing
mod Results
mod Delivered
use iflygo.Prelude.{ℕ, Option, none, some, List, [], ◌∷◌, String, Bool}
use iflygo.Prelude.Int.{pos}
use iflygo.Text.{Text, text}
use iflygo.Task.Rows.{CommandStatus, HostStatus}
use iflygo.Agentgw.Rows.{Command, CommandType, TaskHost, AgentRow, HostRow, GatewayDb, Env}

abbrev pub an_env : ℕ → Env
an_env now = record { now = now; stamp = text "2024-01-01 00:00:00" }

abbrev pub a_command : ℕ → String → CommandStatus → ℕ → Option ℕ → Command
a_command id agent status attempts lease = record {
  id = id;
  task_host = some id;
  agent = agent;
  type = CommandType.upgrade_component;
  payload_version = text "1.2";
  status = status;
  attempts = attempts;
  created_at = 1;
  dispatched_at = none;
  started_at = none;
  finished_at = none;
  lease_expire_at = lease;
  expire_at = none;
  last_stage = [];
  last_stage_at = none;
  result = none;
  log = [];
}

abbrev pub a_host : ℕ → HostStatus → TaskHost
a_host id status = record {
  id = id;
  status = status;
  stage = [];
  to_version = [];
  exit_code = pos 0;
  started_at = none;
  finished_at = none;
  log = [];
}

abbrev pub an_agent : String → AgentRow
an_agent agent = record { agent = agent; token_hash = []; signature_modes = text "id" }

abbrev pub its_host : String → HostRow
its_host agent = record {
  agent = agent;
  ip = text "10.0.0.1";
  agent_status = "upgrading";
  maintenance_until = none;
  maintenance_reason = "upgrading";
  last_stage = [];
}

-- Agent a has two waiting commands and one in hand; b has one that is canceled.
abbrev pub in_hand_command : Command
in_hand_command = a_command 1 "a" CommandStatus.dispatched 1 (some 5)

abbrev pub canceled_command : Command
canceled_command = a_command 3 "b" CommandStatus.canceled 1 (some 5)

abbrev pub some_rows : GatewayDb
some_rows = record {
  commands =
      in_hand_command
      ∷ a_command 2 "a" CommandStatus.pending 0 none
      ∷ canceled_command
      ∷ a_command 4 "a" CommandStatus.pending 0 none
      ∷ [];
  task_hosts =
      a_host 1 HostStatus.running
      ∷ a_host 2 HostStatus.pending
      ∷ a_host 3 HostStatus.canceled
      ∷ a_host 4 HostStatus.pending
      ∷ [];
  agents = an_agent "a" ∷ an_agent "b" ∷ [];
  hosts = its_host "a" ∷ its_host "b" ∷ [];
}

-- A command that has ended, and a newer one for the same host.
abbrev pub ended_command : Command
ended_command = a_command 1 "a" CommandStatus.success 1 none

abbrev pub run_again : GatewayDb
run_again = record {
  commands =
      ended_command
      ∷ record (a_command 2 "a" CommandStatus.running 1 none) { task_host = some 1 }
      ∷ [];
  task_hosts = a_host 1 HostStatus.running ∷ [];
  agents = an_agent "a" ∷ [];
  hosts = its_host "a" ∷ [];
}
