-- ===== src/Task/Orchestrator/Dispatch.antt =====
-- `dispatchBatch` and `dispatchHost` of internal/logic/task/orchestrator.go: the hosts of a batch get
-- their commands, or are skipped with a reason.
use iflygo.Prelude.{
  ℕ, ◌+◌, ◌-◌, ◌*◌, Bool, true, false, Option, none, some, List, [], ◌∷◌, ◌++◌, map, not, ◌&&◌, ltb,
  ◌==◌, if◌then◌else◌, count_if, any_of, find_first, keep_if, String, str_eq,
}
use iflygo.Task.Rows.{
  HostStatus, BatchStatus, CommandStatus, Kind, upgrade, command, LogLine, HostRow, CommandRow,
  TaskDb, TaskRow, host_is_pending, is_active, task_is_running, coalesce,
}
use iflygo.Task.Db.{
  Error, changed, exec_forbidden, no_component, bad_command, Db, pure, fail, query, exec, statement,
  or_default, ◌>>=◌, ◌>>◌, Outcome, commit, rollback, transaction,
}
use iflygo.Task.Orchestrator.{mark_batch}

pub data Os : Type 0 where
  linux windows : Os

pub data DeployMode : Type 0 where
  replace exec_only replace_exec script : DeployMode

pub record Component : Type 0 where
  pub deploy_mode : DeployMode
  pub has_script_url : Bool

-- A row of the table hosts, as far as the dispatch reads it. `os` is `hostOS(os_family)`, `none`
-- where it is unknown.
pub record HostInfo : Type 0 where
  pub agent_id : String
  pub os : Option Os
  pub arch : String
  pub last_seen : Option ℕ

-- What the dispatch reads outside the rows of the task: the clock, the settings, the component (or
-- that the command parses), the target system, and the tables hosts, agents and artifacts.
pub record Env : Type 0 where
  pub now : ℕ
  pub offline_after : ℕ
  pub exec_allowed : Bool
  pub component : Option Component
  pub command_parses : Bool
  pub target_os : Option Os
  pub host_info : ℕ → Option HostInfo
  pub supports_command : String → Bool
  pub has_artifact : HostInfo → Bool

abbrev same_os : Os → Os → Bool
same_os linux linux = true
same_os windows windows = true
same_os _ _ = false

-- `osMismatch`
unfoldable pub os_differs : Option Os → Option Os → Bool
os_differs none host = false
os_differs (some t) none = false
os_differs (some t) (some h) = not (same_os h t)

abbrev pub second : ℕ
second = 1000000000

-- The threshold, with its lower bound: below a second it is a minute.
unfoldable pub offline_threshold : ℕ → ℕ
offline_threshold setting = if ltb setting second then 60 * second else setting

unfoldable pub is_offline : Env → HostInfo → Bool
unfolding offline_threshold
is_offline env h = elim h.last_seen [
  | none ↦ true
  | some t ↦ ltb (offline_threshold env.offline_after) (env.now - t)
]

-- `scriptArtifact`: is there an address of its own for the script?
unfoldable pub custom_script : Component → Bool
custom_script c = elim c.deploy_mode [
  | script ↦ c.has_script_url
  | exec_only ↦ c.has_script_url
  | _ ↦ false
]

abbrev runs_commands : DeployMode → Bool
runs_commands replace = false
runs_commands _ = true

abbrev pub is_exec_only : DeployMode → Bool
is_exec_only exec_only = true
is_exec_only _ = false

-- The checks before any host is looked at: the component is there and its mode is allowed, or the
-- command parses.
unfoldable pub check_spec : Env → Kind → Option Error
check_spec env command = if env.command_parses then none else some bad_command
check_spec env upgrade = elim env.component [
  | none ↦ some no_component
  | some c ↦
      if not env.exec_allowed && runs_commands c.deploy_mode then some exec_forbidden else none
]

-- `markHostSkipped` and `markHostSkippedWithLog`; their errors are ignored.
abbrev pub skip_row : ℕ → ℕ → List LogLine → HostRow → HostRow
skip_row now id lines h =
    if h.id == id && host_is_pending h.status
    then record h { status = HostStatus.skipped; finished_at = some now; log = h.log ++ lines }
    else h

unfoldable pub mark_host_skipped : ℕ → ℕ → List LogLine → Db (Unit {0})
mark_host_skipped now id lines =
    or_default tt (exec (λ d. record d { hosts = map (skip_row now id lines) d.hosts }))

abbrev pub run_row : ℕ → ℕ → HostRow → HostRow
run_row now id h =
    if h.id == id && host_is_pending h.status
    then record h { status = HostStatus.running; started_at = coalesce h.started_at now }
    else h

unfoldable pub host_status : ℕ → List HostRow → Option HostStatus
host_status id hosts = elim (find_first (λ h. h.id == id) hosts) [
  | none ↦ none
  | some h ↦ some h.status
]

unfoldable pub has_active_command : ℕ → List CommandRow → Bool
has_active_command id = any_of (λ c. c.task_host == id && is_active c.status)

abbrev pub new_command : ℕ → ℕ → String → Kind → CommandRow
new_command now id agent kind = record {
  task_host = id;
  agent = agent;
  type = kind;
  status = CommandStatus.pending;
  lease_expire_at = none;
  expire_at = now + 7200 * second;
  finished_at = none;
}

abbrev pub host_waits : Option HostStatus → Bool
host_waits none = false
host_waits (some s) = host_is_pending s

abbrev pub task_runs : Option TaskRow → Bool
task_runs none = false
task_runs (some t) = task_is_running t.status

-- The row is marked as running; how many rows were.
abbrev pub run_host : ℕ → ℕ → TaskDb → ℕ × TaskDb
run_host now id d = (
  count_if (λ h. h.id == id && host_is_pending h.status) d.hosts,
  record d { hosts = map (run_row now id) d.hosts },
)

-- The writes for a host that has no command yet.
abbrev pub send_command : ℕ → ℕ → String → Kind → Db (Outcome Bool)
send_command now id agent kind = do
  exec (λ d. record d { commands = d.commands ++ (new_command now id agent kind ∷ []) })
  n ← statement (run_host now id)
  if n == 1 then pure (commit true) else fail changed

abbrev pub take_over : ℕ → ℕ → Db (Outcome Bool)
take_over now id = do exec (λ d. (run_host now id d).1); pure (commit false)

-- `dispatchHostWithType`: was a command made for the host?
unfoldable pub dispatch_host : ℕ → ℕ → String → Kind → Db Bool
dispatch_host now id agent kind = transaction do
  waits ← query (λ d. host_waits (host_status id d.hosts))
  if not waits then pure (rollback false) else do
    runs ← query (λ d. task_runs d.task)
    if not runs then pure (rollback false) else do
      existing ← query (λ d. has_active_command id d.commands)
      if existing then take_over now id else send_command now id agent kind

-- A command task's host, once it is known to be of the right system and online.
abbrev pub dispatch_command : Env → HostRow → HostInfo → Db (Unit {0})
dispatch_command env h info =
    if not env.exec_allowed
    then mark_host_skipped env.now h.id (LogLine.exec_disabled env.now ∷ [])
    else do
      supported ← or_default false (query (λ d. env.supports_command info.agent_id))
      if not supported
          then mark_host_skipped env.now h.id (LogLine.agent_too_old env.now ∷ [])
          else (dispatch_host env.now h.id info.agent_id command >>= λ sent. pure tt)

-- An upgrade's host: it wants an artifact, or a script's address, or a mode that needs neither.
abbrev pub dispatch_upgrade : Env → Component → HostRow → HostInfo → Db (Unit {0})
dispatch_upgrade env c h info =
    if custom_script c
    then (dispatch_host env.now h.id info.agent_id upgrade >>= λ sent. pure tt)
    else do
      found ← or_default false (query (λ d. env.has_artifact info))
      if not found && not (is_exec_only c.deploy_mode)
          then mark_host_skipped env.now h.id []
          else (dispatch_host env.now h.id info.agent_id upgrade >>= λ sent. pure tt)

abbrev pub dispatch_kind : Env → Kind → HostRow → HostInfo → Db (Unit {0})
dispatch_kind env command h info = dispatch_command env h info
dispatch_kind env upgrade h info = elim env.component [
  | none ↦ pure tt
  | some c ↦ dispatch_upgrade env c h info
]

-- A row without a host in the table is not in the join.
abbrev pub dispatch_info : Env → Kind → HostRow → Option HostInfo → Db (Unit {0})
dispatch_info env kind h none = pure tt
dispatch_info env kind h (some info) =
    if str_eq info.agent_id ""
    then mark_host_skipped env.now h.id []
    else if os_differs env.target_os info.os
    then mark_host_skipped env.now h.id (LogLine.os_mismatch env.now ∷ [])
    else if is_offline env info
    then mark_host_skipped env.now h.id (LogLine.offline env.now ∷ [])
    else dispatch_kind env kind h info

-- The body of the loop over the hosts.
unfoldable pub dispatch_row : Env → Kind → HostRow → Db (Unit {0})
unfolding is_offline os_differs
dispatch_row env kind h = dispatch_info env kind h (env.host_info h.host_id)

unfoldable pub dispatch_rows : Env → Kind → List HostRow → Db (Unit {0})
dispatch_rows env kind [] = pure tt
dispatch_rows env kind (h ∷ hs) = dispatch_row env kind h >> dispatch_rows env kind hs

abbrev pub is_waiting_in : ℕ → HostRow → Bool
is_waiting_in index h = h.batch == index && host_is_pending h.status

abbrev pub dispatch_checked : Env → Kind → ℕ → Option Error → Db (Unit {0})
dispatch_checked env kind index (some e) = fail e
dispatch_checked env kind index none = do
  rows ← query (λ d. keep_if (is_waiting_in index) d.hosts)
  dispatch_rows env kind rows
  left ← query (λ d. count_if (is_waiting_in index) d.hosts)
  if ltb 0 left then pure tt else mark_batch env.now index BatchStatus.running

-- `dispatchBatch`
unfoldable pub dispatch_batch : Env → Kind → ℕ → Db (Unit {0})
dispatch_batch env kind index = dispatch_checked env kind index (check_spec env kind)
