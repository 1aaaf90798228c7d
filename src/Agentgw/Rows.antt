-- ===== src/Agentgw/Rows.antt =====
-- The rows that the gateway works on (internal/logic/agentgw): the tables commands, task_hosts,
-- agents and hosts. Times are in nanoseconds, and commands stand in the order of their id.
use iflygo.Prelude.{
  ℕ, max, Bool, true, false, Option, none, some, List, [], ◌∷◌, map, String, if◌then◌else◌, ◌==◌,
  ◌&&◌, str_eq,
}
use iflygo.Prelude.Int.{ℤ}
use iflygo.Text.{Text}
use iflygo.Task.Rows.{CommandStatus, HostStatus}

pub data CommandType : Type 0 where
  upgrade_component rollback_component self_update uninstall_component run_command resync :
      CommandType
  health_check restart_agent : CommandType

-- The column `result` of a command, a JSON object.
pub record ResultDoc : Type 0 where
  pub status : CommandStatus
  pub stage : Text
  pub to_version : Text
  pub exit_code : Option ℤ
  pub auto_finalized : Bool

pub record Command : Type 0 where
  pub id : ℕ
  pub task_host : Option ℕ
  pub agent : String
  pub type : CommandType
  pub payload_version : Text
  pub status : CommandStatus
  pub attempts : ℕ
  pub created_at : ℕ
  pub dispatched_at : Option ℕ
  pub started_at : Option ℕ
  pub finished_at : Option ℕ
  pub lease_expire_at : Option ℕ
  pub expire_at : Option ℕ
  pub last_stage : Text
  pub last_stage_at : Option ℕ
  pub result : Option ResultDoc
  pub log : Text

pub record TaskHost : Type 0 where
  pub id : ℕ
  pub status : HostStatus
  pub stage : Text
  pub to_version : Text
  pub exit_code : ℤ
  pub started_at : Option ℕ
  pub finished_at : Option ℕ
  pub log : Text

pub record AgentRow : Type 0 where
  pub agent : String
  pub token_hash : Text
  pub signature_modes : Text

pub record HostRow : Type 0 where
  pub agent : String
  pub ip : Text
  pub agent_status : String
  pub maintenance_until : Option ℕ
  pub maintenance_reason : String
  pub last_stage : Text

pub record GatewayDb : Type 0 where
  pub commands : List Command
  pub task_hosts : List TaskHost
  pub agents : List AgentRow
  pub hosts : List HostRow

-- What a request reads beside the rows: the clock, and the clock as a text.
pub record Env : Type 0 where
  pub now : ℕ
  pub stamp : Text

abbrev pub second : ℕ
second = 1000000000

abbrev pub minute : ℕ
minute = 60000000000

-- `UPDATE ... WHERE`
abbrev pub set_where : {A : Type 0} → (A → Bool) → (A → A) → List A → List A
set_where p f = map (λ x. if p x then f x else x)

abbrev pub update_commands : (Command → Bool) → (Command → Command) → GatewayDb → GatewayDb
update_commands p f d = record d { commands = set_where p f d.commands }

abbrev pub update_task_hosts : (TaskHost → Bool) → (TaskHost → TaskHost) → GatewayDb → GatewayDb
update_task_hosts p f d = record d { task_hosts = set_where p f d.task_hosts }

abbrev pub update_agents : (AgentRow → Bool) → (AgentRow → AgentRow) → GatewayDb → GatewayDb
update_agents p f d = record d { agents = set_where p f d.agents }

abbrev pub update_hosts : (HostRow → Bool) → (HostRow → HostRow) → GatewayDb → GatewayDb
update_hosts p f d = record d { hosts = set_where p f d.hosts }

-- `id=$1 AND agent_id=$2`
abbrev pub owned : ℕ → String → Command → Bool
owned id agent c = c.id == id && str_eq c.agent agent

abbrev pub of_agent : String → HostRow → Bool
of_agent agent h = str_eq h.agent agent

-- `status IN ('dispatched','accepted','running')`
abbrev pub in_hand : CommandStatus → Bool
in_hand CommandStatus.dispatched = true
in_hand CommandStatus.accepted = true
in_hand CommandStatus.running = true
in_hand _ = false

-- `isFinalStatus`
abbrev pub is_final : CommandStatus → Bool
is_final CommandStatus.success = true
is_final CommandStatus.failed = true
is_final CommandStatus.rolled_back = true
is_final CommandStatus.timeout = true
is_final _ = false

-- `status NOT IN ('success','failed','rolled_back','timeout','canceled')`, of a task's host
abbrev pub host_is_unsettled : HostStatus → Bool
host_is_unsettled HostStatus.pending = true
host_is_unsettled HostStatus.running = true
host_is_unsettled HostStatus.skipped = true
host_is_unsettled _ = false

-- `status IN ('pending','running')`, of a task's host
abbrev pub host_is_waiting : HostStatus → Bool
host_is_waiting HostStatus.pending = true
host_is_waiting HostStatus.running = true
host_is_waiting _ = false

-- The status of a host that corresponds to a final one of its command; `expired` is a timeout.
abbrev pub host_status_of : CommandStatus → HostStatus
host_status_of CommandStatus.success = HostStatus.success
host_status_of CommandStatus.rolled_back = HostStatus.rolled_back
host_status_of CommandStatus.timeout = HostStatus.timeout
host_status_of CommandStatus.expired = HostStatus.timeout
host_status_of CommandStatus.canceled = HostStatus.canceled
host_status_of _ = HostStatus.failed

-- The host of the task that a command is for, if any.
abbrev pub hosts_command : Option ℕ → TaskHost → Bool
hosts_command none h = false
hosts_command (some id) h = h.id == id

-- `GREATEST(lease_expire_at, $1)`, of a lease that is not NULL
abbrev pub extended : ℕ → Option ℕ → Option ℕ
extended t none = none
extended t (some l) = some (max l t)

-- The first of two times that is not NULL.
abbrev pub or_else : Option ℕ → Option ℕ → Option ℕ
or_else none t = t
or_else (some t) u = some t

-- `COALESCE(NULLIF($1,''), ...)`
abbrev pub unless_empty : Text → Text → Text
unless_empty [] old = old
unless_empty (c ∷ s) old = c ∷ s

-- A host that leaves its maintenance, and one that is at a stage.
abbrev pub back_online : Text → HostRow → HostRow
back_online stage h = record h {
  maintenance_until = none;
  maintenance_reason = "";
  agent_status = "online";
  last_stage = stage;
}

abbrev pub at_stage : Text → HostRow → HostRow
at_stage stage h = record h { last_stage = stage }
