-- ===== src/Agentgw/Keeps.antt =====
-- What the gateway's requests keep (internal/logic/agentgw): an invariant of the rows that each of
-- their writes keeps is kept by each request as a whole, whatever statements fail.
pub mod Requests
pub mod Stages
pub mod Reports
pub mod Reconcile
use iflygo.Prelude.{ℕ, ◌≡◌, Bool, true, Option, none, some, String, find_first, leb}
use iflygo.Text.{Text}
use iflygo.Task.Rows.{CommandStatus}
use iflygo.Agentgw.Rows.{
  Command, TaskHost, AgentRow, HostRow, GatewayDb, Env, owned, update_commands, update_task_hosts,
  update_agents, update_hosts, is_final,
}
use iflygo.Agentgw.Dequeue.{is_due, dispatch}
use iflygo.Agentgw.Ack.{by_id, is_dispatched, accept, requeue, refuse}
use iflygo.Agentgw.Stage.{open_owned, open_host, progress, finalize}
use iflygo.Agentgw.Report.{Cleaned, open_by_id, command_write}

-- A report says that the command runs, or names a final status.
abbrev pub IsOutcome : Option CommandStatus → Type 0
IsOutcome none = Unit
IsOutcome (some st) = is_final st ≡ true

-- Each write of a request of one agent keeps `I`. Where a write's condition is the id alone, the
-- command has been read before, and `found` says so.
pub record KeepsWrites (I : GatewayDb → Type 0) (env : Env) (agent : String) : Type 0 where
  pub hosts :
      (p : HostRow → Bool) (f : HostRow → HostRow) (d : GatewayDb) → I d → I (update_hosts p f d)
  pub agents :
      (p : AgentRow → Bool) (f : AgentRow → AgentRow) (d : GatewayDb)
      → I d
      → I (update_agents p f d)
  pub task_hosts :
      (th : Option ℕ) (f : TaskHost → TaskHost) (d : GatewayDb)
      → I d
      → I (update_task_hosts (open_host th) f d)
  pub dispatched :
      (c : Command) (d : GatewayDb)
      → find_first (is_due env.now agent) d.commands ≡ some c
      → I d
      → I (update_commands (by_id c.id) (dispatch env.now) d)
  pub accepted :
      (cmd : ℕ) (c : Command) (d : GatewayDb)
      → find_first (owned cmd agent) d.commands ≡ some c
      → is_dispatched c.status ≡ true
      → I d
      → I (update_commands (by_id cmd) accept d)
  pub refused :
      (cmd : ℕ) (reason : Text) (c : Command) (d : GatewayDb)
      → find_first (owned cmd agent) d.commands ≡ some c
      → is_dispatched c.status ≡ true
      → I d
      → I (update_commands (by_id cmd) (refuse env reason) d)
  pub requeued :
      (cmd : ℕ) (line : Text) (c : Command) (d : GatewayDb)
      → find_first (owned cmd agent) d.commands ≡ some c
      → is_dispatched c.status ≡ true
      → leb c.attempts 1 ≡ true
      → I d
      → I (update_commands (by_id cmd) (requeue line) d)
  pub progressed :
      (cmd : ℕ) (stage line : Text) (d : GatewayDb)
      → I d
      → I (update_commands (open_owned cmd agent) (progress env stage line) d)
  pub finalized :
      (cmd : ℕ) (st : CommandStatus) (stage version : Text) (d : GatewayDb)
      → is_final st ≡ true
      → I d
      → I (update_commands (open_owned cmd agent) (finalize env st stage version) d)
  pub reported :
      (cmd : ℕ) (st : Option CommandStatus) (r : Cleaned) (c : Command) (d : GatewayDb)
      → find_first (owned cmd agent) d.commands ≡ some c
      → IsOutcome st
      → I d
      → I (update_commands (open_by_id cmd) (command_write env st r) d)
