-- ===== src/Agentgw/Report.antt =====
-- `Report`: an agent reports the result of a command (internal/logic/agentgw/gateway.go).
pub mod Incoming
pub mod Newer
use iflygo.Prelude.{
  ℕ, ◌+◌, ◌*◌, Bool, true, false, Option, none, some, List, [], ◌∷◌, ◌++◌, String, ◌&&◌, ◌||◌, ◌==◌,
  if◌then◌else◌, find_first, any_of, not, ltb, str_eq, zero,
}
use iflygo.Prelude.Int.{ℤ, pos, negsuc}
use iflygo.Text.{Text, text, text_eq, is_empty, trim_space}
use iflygo.Task.Rows.{CommandStatus, is_active}
use iflygo.Db.{
  Db, no_rows, no_command, no_id, Outcome, commit, transaction, query, exec, exec_if, pure, fail,
  or_default, ◌>>=◌, ◌>>◌,
}
use iflygo.Agentgw.Sanitize.{
  sanitize_and_truncate, normalize_stage, normalize_version, append_log, max_report_log_bytes,
}
use iflygo.Agentgw.Rows.{
  Command, CommandType, run_command, TaskHost, HostRow, ResultDoc, GatewayDb, Env, owned, of_agent,
  update_commands, update_task_hosts, update_hosts, is_final, host_status_of, hosts_command,
  extended, or_else, unless_empty, minute, back_online,
}
use iflygo.Agentgw.Stage.{open_host, has_ended, is_some, lock_exists}
pub use iflygo.Agentgw.Report.Incoming.{
  ReportRequest, Cleaned, is_given, or_failed, is_running_text, code_or_none,
}
unfoldable pub use iflygo.Agentgw.Report.Incoming.{final_of, reported, reported_log, cleaned}

abbrev pub open_by_id : ℕ → Command → Bool
open_by_id cmd c = c.id == cmd && not (has_ended c.status)

unfoldable pub report_final : Env → CommandStatus → Cleaned → Command → Command
report_final env st r c = record c {
  status = st;
  result = some (record {
    status = st;
    stage = r.stage;
    to_version = r.to_version;
    exit_code = code_or_none r.exit_code;
    auto_finalized = false;
  });
  last_stage = unless_empty r.stage c.last_stage;
  last_stage_at = some env.now;
  log = c.log ++ r.log;
  finished_at = some env.now;
}

unfoldable pub report_running : Env → Cleaned → Command → Command
report_running env r c = record c {
  status = CommandStatus.running;
  last_stage = unless_empty r.stage c.last_stage;
  last_stage_at = some env.now;
  lease_expire_at = extended (env.now + 30 * minute) c.lease_expire_at;
  log = c.log ++ r.log;
}

abbrev pub host_report : Env → CommandStatus → Cleaned → TaskHost → TaskHost
host_report env st r h = record h {
  status = host_status_of st;
  stage = unless_empty r.stage h.stage;
  to_version = unless_empty r.to_version h.to_version;
  exit_code = r.exit_code;
  log = r.log;
  finished_at = some env.now;
}

-- `started_at IS NOT NULL AND COALESCE(c.finished_at, c.created_at) < th.started_at`
abbrev pub before : ℕ → Option ℕ → Bool
before t none = false
before t (some start) = ltb t start

abbrev pub value_or : Option ℕ → ℕ → ℕ
value_or none d = d
value_or (some t) d = t

abbrev pub is_older : Option Command → Option TaskHost → Bool
is_older (some c) (some h) = before (value_or c.finished_at c.created_at) h.started_at
is_older _ _ = false

unfoldable pub is_stale : Option ℕ → ℕ → GatewayDb → Bool
is_stale task_host cmd d =
    is_older (find_first (λ c. c.id == cmd) d.commands)
      (find_first (hosts_command task_host) d.task_hosts)

-- Is another command under way, for the host of the task or else for the agent?
abbrev pub same_target : Option ℕ → String → Command → Bool
same_target none agent c = str_eq c.agent agent
same_target (some h) agent c = same_host c.task_host
  where
    same_host : Option ℕ → Bool
    same_host none = false
    same_host (some g) = g == h

unfoldable pub newer_active : Option ℕ → String → ℕ → GatewayDb → Bool
newer_active task_host agent cmd d =
    any_of (λ c. same_target task_host agent c && not (c.id == cmd) && is_active c.status)
      d.commands

abbrev pub is_success : Option CommandStatus → Bool
is_success (some CommandStatus.success) = true
is_success _ = false

abbrev pub runs_command : Option Command → Bool
runs_command none = false
runs_command (some c) = is_run c.type
  where
    is_run : CommandType → Bool
    is_run CommandType.run_command = true
    is_run _ = false

abbrev pub ip_of : Option HostRow → Text
ip_of none = []
ip_of (some h) = h.ip

-- What is written to Consul after the commit: the host's address and the version.
abbrev pub Written : Type 0
Written = Option (Text × Text)

abbrev pub to_consul : Bool → Text → Text → Written
to_consul eligible ip version =
    if eligible && not (is_empty ip) && not (is_empty version) then some (ip, version) else none

abbrev pub is_host_given : Option ℕ → Option CommandStatus → Bool → Bool
is_host_given task_host status active = is_some task_host && is_given status && active

-- The status that is stored in the rows of hosts: that of a final report.
abbrev pub host_write : Env → Option CommandStatus → Cleaned → TaskHost → TaskHost
host_write env none r h = h
host_write env (some st) r h = host_report env st r h

abbrev pub command_write : Env → Option CommandStatus → Cleaned → Command → Command
command_write env none r c = report_running env r c
command_write env (some st) r c = report_final env st r c

module _ (env : Env) (quoted : Text → Text) (agent : String) (req : ReportRequest) (cmd : ℕ) where
  abbrev pub r : Cleaned
  r = cleaned env quoted req

  abbrev pub upgraded : Bool → Db GatewayDb (Outcome Written)
  upgraded false = pure (commit none)
  upgraded true = do
    runs ← or_default false (query (λ d. runs_command (find_first (λ c. c.id == cmd) d.commands)))
    ip ← or_default [] (query (λ d. ip_of (find_first (of_agent agent) d.hosts)))
    pure (commit (to_consul (not runs) ip r.to_version))

  abbrev pub leave_maintenance : Bool → Db GatewayDb (Unit {0})
  leave_maintenance ends =
      or_default tt (exec_if ends (update_hosts (of_agent agent) (back_online r.stage)))

  -- The writes, with the status that the report counts as.
  abbrev pub write_as : Option CommandStatus → Option ℕ → Bool → Db GatewayDb (Outcome Written)
  write_as st task_host active = do
    exec_if (is_host_given task_host st active)
        (update_task_hosts (open_host task_host) (host_write env st r))
    exec (update_commands (open_by_id cmd) (command_write env st r))
    leave_maintenance (is_given st && active)
    upgraded (is_success st)

  abbrev pub write : Option ℕ → Bool → Db GatewayDb (Outcome Written)
  write = write_as r.status

  abbrev pub unless_newer : Option ℕ → Bool → Db GatewayDb (Outcome Written)
  unless_newer task_host true = pure (commit none)
  unless_newer task_host false = write task_host false

  abbrev pub unless_stale : Option ℕ → Bool → Db GatewayDb (Outcome Written)
  unless_stale task_host true = pure (commit none)
  unless_stale task_host false = do
    newer ← or_default false (query (newer_active task_host agent cmd))
    unless_newer task_host newer

  -- A final report on a command that has ended is about an old run, or else late.
  abbrev pub late : Option ℕ → Db GatewayDb (Outcome Written)
  late task_host = do
    stale ← or_default false (query (λ d. is_some task_host && is_stale task_host cmd d))
    unless_stale task_host stale

  abbrev pub by_status : Option ℕ → CommandStatus → Db GatewayDb (Outcome Written)
  by_status task_host CommandStatus.expired = pure (commit none)
  by_status task_host CommandStatus.canceled = pure (commit none)
  by_status task_host st =
      if is_given (final_of req.status) && is_final st
      then late task_host
      else write task_host (not (is_final st))

  abbrev pub read_again : Option ℕ → Option Command → Db GatewayDb (Outcome Written)
  read_again task_host none = fail no_rows
  read_again task_host (some c) = by_status task_host c.status

  abbrev pub when_locked : Option ℕ → Bool → Db GatewayDb (Outcome Written)
  when_locked task_host false = pure (commit none)
  when_locked task_host true = do
    c ← query (λ d. find_first (owned cmd agent) d.commands)
    read_again task_host c

  abbrev pub for_command : Option Command → Db GatewayDb (Outcome Written)
  for_command none = fail no_command
  for_command (some c) = do
    locked ← query (lock_exists c.task_host cmd)
    when_locked c.task_host locked

  abbrev pub report_body : Db GatewayDb (Outcome Written)
  report_body = do c ← query (λ d. find_first (owned cmd agent) d.commands); for_command c

-- The body for the id in the path, `none` where the path has none.
abbrev pub body_for :
    Env → (Text → Text) → String → ReportRequest → Option ℕ → Db GatewayDb (Outcome Written)
body_for env quoted agent req none = fail no_id
body_for env quoted agent req (some cmd) = report_body env quoted agent req cmd

unfoldable pub report :
    Env → (quoted : Text → Text) → String → Option ℕ → ReportRequest → Db GatewayDb Written
report env quoted agent cmd req = transaction (body_for env quoted agent req cmd)
