-- ===== src/Task/Rows.antt =====
-- The rows of one task (internal/logic/task), as the tables upgrade_tasks, task_batches, task_hosts
-- and commands hold them, and the tests on their statuses. Times are in nanoseconds.
use iflygo.Prelude.{ℕ, Bool, true, false, Option, none, some, List, String}
use iflygo.Prelude.Int.{ℤ}

pub data TaskStatus : Type 0 where
  draft running paused success failed canceled rolled_back : TaskStatus

pub data BatchStatus : Type 0 where
  pending running success failed skipped canceled : BatchStatus

pub data HostStatus : Type 0 where
  pending running success failed rolled_back timeout skipped canceled : HostStatus

pub data CommandStatus : Type 0 where
  pending dispatched accepted running success failed rolled_back timeout expired canceled :
      CommandStatus

pub data Kind : Type 0 where
  upgrade command : Kind

-- A line that the server adds to a host's log.
pub data LogLine : Type 0 where
  os_mismatch offline exec_disabled agent_too_old reset : ℕ → LogLine

pub record TaskRow : Type 0 where
  pub id : ℕ
  pub status : TaskStatus
  pub kind : Kind
  pub component : Option ℕ
  pub tenant : ℤ
  pub created_by : String
  pub updated_by : String
  pub updated_at : ℕ

pub record BatchRow : Type 0 where
  pub index : ℕ
  pub status : BatchStatus
  pub total : ℕ
  pub started_at : Option ℕ
  pub finished_at : Option ℕ

pub record HostRow : Type 0 where
  pub id : ℕ
  pub host_id : ℕ
  pub batch : ℕ
  pub status : HostStatus
  pub started_at : Option ℕ
  pub finished_at : Option ℕ
  pub attempts : ℕ
  pub stage : String
  pub exit_code : ℤ
  pub log : List LogLine

pub record CommandRow : Type 0 where
  pub task_host : ℕ
  pub agent : String
  pub type : Kind
  pub status : CommandStatus
  pub lease_expire_at : Option ℕ
  pub expire_at : ℕ
  pub finished_at : Option ℕ

-- The rows of one task; `none` where the task is gone. The batches stand in the order of their
-- index, the hosts and commands in the order of their id.
pub record TaskDb : Type 0 where
  pub task : Option TaskRow
  pub batches : List BatchRow
  pub hosts : List HostRow
  pub commands : List CommandRow

-- `status NOT IN ('success','skipped','canceled')`, of a batch.
abbrev pub is_open : BatchStatus → Bool
is_open BatchStatus.success = false
is_open BatchStatus.skipped = false
is_open BatchStatus.canceled = false
is_open _ = true

abbrev pub batch_is_pending : BatchStatus → Bool
batch_is_pending BatchStatus.pending = true
batch_is_pending _ = false

abbrev pub host_is_pending : HostStatus → Bool
host_is_pending HostStatus.pending = true
host_is_pending _ = false

abbrev pub host_is_success : HostStatus → Bool
host_is_success HostStatus.success = true
host_is_success _ = false

-- `status IN ('success','failed','rolled_back','timeout','skipped','canceled')`
abbrev pub host_is_done : HostStatus → Bool
host_is_done HostStatus.pending = false
host_is_done HostStatus.running = false
host_is_done _ = true

-- `status IN ('failed','timeout','canceled')`
abbrev pub host_is_failed : HostStatus → Bool
host_is_failed HostStatus.failed = true
host_is_failed HostStatus.timeout = true
host_is_failed HostStatus.canceled = true
host_is_failed _ = false

-- `activeCommandStatuses`: 'pending','dispatched','accepted','running'
abbrev pub is_active : CommandStatus → Bool
is_active CommandStatus.pending = true
is_active CommandStatus.dispatched = true
is_active CommandStatus.accepted = true
is_active CommandStatus.running = true
is_active _ = false

abbrev pub task_is_running : TaskStatus → Bool
task_is_running TaskStatus.running = true
task_is_running _ = false

abbrev pub task_is_paused : TaskStatus → Bool
task_is_paused TaskStatus.paused = true
task_is_paused _ = false

-- `status IN ('running','paused')`
abbrev pub task_is_under_way : TaskStatus → Bool
task_is_under_way TaskStatus.running = true
task_is_under_way TaskStatus.paused = true
task_is_under_way _ = false

-- `status IN ('draft','paused')`
abbrev pub task_can_start : TaskStatus → Bool
task_can_start TaskStatus.draft = true
task_can_start TaskStatus.paused = true
task_can_start _ = false

-- `status IN ('draft','running','paused')`
abbrev pub task_can_cancel : TaskStatus → Bool
task_can_cancel TaskStatus.draft = true
task_can_cancel TaskStatus.running = true
task_can_cancel TaskStatus.paused = true
task_can_cancel _ = false

-- `COALESCE(started_at, NOW())`
abbrev pub coalesce : Option ℕ → ℕ → Option ℕ
coalesce none now = some now
coalesce (some t) now = some t
