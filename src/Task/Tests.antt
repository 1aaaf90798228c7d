-- ===== src/Task/Tests.antt =====
-- Examples of internal/logic/task: an upgrade of two hosts in two batches.
mod Advancing
mod Requests
use iflygo.Prelude.{
  ℕ, ◌≡◌, refl, String, Bool, true, false, Option, none, some, List, [], ◌∷◌, arith, ltb, ◌==◌, ◌*◌,
  ◌<◌,
}
use iflygo.Prelude.Int.{ℤ, pos}
use iflygo.Access.{User, Scope}
use iflygo.Task.Rows.{
  TaskStatus, BatchStatus, HostStatus, CommandStatus, Kind, TaskRow, BatchRow, HostRow, CommandRow,
  TaskDb,
}
use iflygo.Task.Owner.{Service}
use iflygo.Task.Api.{Request}
use iflygo.Task.Orchestrator.{Strategy}
use iflygo.Task.Orchestrator.Dispatch.{Env, HostInfo, Os, linux, Component, DeployMode, replace}

abbrev pub a_task : TaskStatus → TaskRow
a_task status = record {
  id = 5;
  status = status;
  kind = Kind.upgrade;
  component = some 7;
  tenant = pos 2;
  created_by = "ann";
  updated_by = "ann";
  updated_at = 0;
}

abbrev pub a_batch : ℕ → BatchStatus → BatchRow
a_batch index status = record {
  index = index;
  status = status;
  total = 1;
  started_at = none;
  finished_at = none;
}

abbrev pub a_host : ℕ → ℕ → HostStatus → HostRow
a_host id batch status = record {
  id = id;
  host_id = id;
  batch = batch;
  status = status;
  started_at = none;
  finished_at = none;
  attempts = 0;
  stage = "";
  exit_code = pos 0;
  log = [];
}

abbrev pub a_command : ℕ → CommandStatus → CommandRow
a_command id status = record {
  task_host = id;
  agent = "agent";
  type = Kind.upgrade;
  status = status;
  lease_expire_at = none;
  expire_at = 9;
  finished_at = none;
}

-- Running; the first batch waits.
abbrev pub fresh : TaskDb
fresh = record {
  task = some (a_task TaskStatus.running);
  batches = a_batch 0 BatchStatus.pending ∷ a_batch 1 BatchStatus.pending ∷ [];
  hosts = a_host 1 0 HostStatus.pending ∷ a_host 2 1 HostStatus.pending ∷ [];
  commands = [];
}

-- The first batch runs, and its host has this status.
abbrev pub in_first : HostStatus → TaskDb
in_first status = record {
  task = some (a_task TaskStatus.running);
  batches = a_batch 0 BatchStatus.running ∷ a_batch 1 BatchStatus.pending ∷ [];
  hosts = a_host 1 0 status ∷ a_host 2 1 HostStatus.pending ∷ [];
  commands = a_command 1 CommandStatus.failed ∷ [];
}

-- The last batch runs, and its host has failed.
abbrev pub in_last : TaskDb
in_last = record {
  task = some (a_task TaskStatus.running);
  batches = a_batch 0 BatchStatus.success ∷ a_batch 1 BatchStatus.running ∷ [];
  hosts = a_host 1 0 HostStatus.success ∷ a_host 2 1 HostStatus.failed ∷ [];
  commands = a_command 2 CommandStatus.failed ∷ [];
}

-- The task has been canceled.
abbrev pub over : TaskDb
over = record {
  task = some (a_task TaskStatus.canceled);
  batches = a_batch 0 BatchStatus.canceled ∷ [];
  hosts = a_host 1 0 HostStatus.canceled ∷ [];
  commands = a_command 1 CommandStatus.canceled ∷ [];
}

abbrev pub an_env : Env
an_env = record {
  now = 100;
  offline_after = 0;
  exec_allowed = true;
  component = some (record { deploy_mode = replace; has_script_url = false });
  command_parses = true;
  target_os = some linux;
  host_info =
      λ id. some (record { agent_id = "agent"; os = some linux; arch = ""; last_seen = some 99 });
  supports_command = λ agent. true;
  has_artifact = λ h. true;
}

-- A batch fails if more than half of its hosts do.
abbrev pub halves : Bool → Strategy
halves roll_back = record {
  auto_promote = false;
  auto_rollback = roll_back;
  exceeds = λ failed total. ltb total (2 * failed);
}

abbrev pub a_user : String → User
a_user name = record { username = name; is_admin = false; tenant_id = pos 2; roles = "user" ∷ [] }

abbrev pub a_request : String → Request
a_request name = record {
  now = 100;
  scope = record { tenant_id = pos 2; cross_tenant = false };
  actor = some (a_user name);
  operator = name;
}

-- Only the creator and the creator's team work on a task; everybody may deploy.
abbrev pub a_service : Service
a_service = record {
  owner_only = some true;
  owner_policy = some (λ name. some "off");
  share_allowed = some (λ name creator. some false);
  authorize = none;
  component_name = λ sc id. some "component";
  takes_extra_args = false;
}

abbrev pub any_host : ℕ → Bool
any_host id = true
