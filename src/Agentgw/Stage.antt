-- ===== src/Agentgw/Stage.antt =====
-- `UpdateStage`: an agent says how far it has come with a command
-- (internal/logic/agentgw/gateway.go).
use iflygo.Prelude.{
  ℕ, ◌+◌, ◌*◌, Bool, true, false, Option, none, some, List, [], ◌∷◌, ◌++◌, String, ◌&&◌, ◌||◌, ◌==◌,
  if◌then◌else◌, find_first, any_of, not,
}
use iflygo.Text.{Text, text, text_eq, contains, is_empty, trim_space, after_last}
use iflygo.Task.Rows.{CommandStatus}
use iflygo.Db.{
  Db, no_rows, Outcome, commit, transaction, query, exec, exec_if, pure, fail, or_default, ◌>>=◌,
  ◌>>◌,
}
use iflygo.Agentgw.Sanitize.{
  sanitize_and_truncate, normalize_stage, normalize_version, max_stage_message_bytes,
}
use iflygo.Agentgw.Rows.{
  Command, TaskHost, ResultDoc, GatewayDb, Env, owned, of_agent, update_commands, update_task_hosts,
  update_hosts, is_final, host_is_unsettled, host_status_of, hosts_command, extended, or_else,
  unless_empty, minute, back_online, at_stage,
}

-- `stageLabels`
abbrev pub stage_labels : List (Text × Text)
stage_labels =
    (text "accepted", text "已接收")
    ∷ (text "enter_maintenance", text "进入维护窗口")
    ∷ (text "downloading", text "下载制品")
    ∷ (text "downloaded", text "下载完成")
    ∷ (text "pre_install", text "安装前检查")
    ∷ (text "backup", text "备份当前版本")
    ∷ (text "stopping", text "停止服务")
    ∷ (text "replacing", text "替换文件")
    ∷ (text "exec", text "执行安装")
    ∷ (text "run_command", text "执行命令")
    ∷ (text "starting", text "启动服务")
    ∷ (text "verifying", text "验证版本")
    ∷ (text "post_install", text "安装后处理")
    ∷ (text "rollback", text "回滚")
    ∷ (text "failed", text "失败")
    ∷ (text "done", text "完成")
    ∷ []

abbrev pub label_in : List (Text × Text) → Text → Text
label_in [] stage = if is_empty stage then text "未知阶段" else stage
label_in ((s, label) ∷ rest) stage = if text_eq s stage then label else label_in rest stage

unfoldable pub stage_label : Text → Text
stage_label stage = label_in stage_labels stage

-- The line for the log; what a script prints is kept as it is.
unfoldable pub stage_line : Env → (stage message : Text) → Text
unfolding stage_label
stage_line env stage message =
    if text_eq stage (text "run_command")
    then message
    else text "["
      ++ (env.stamp
          ++ (text "] 阶段: "
              ++ (stage_label stage
                  ++ ((if is_empty message then [] else text " - " ++ message) ++ 10 ∷ []))))

-- The final status that a stage stands for, if any.
unfoldable pub final_of_stage : (stage message : Text) → Option CommandStatus
final_of_stage stage message =
    if text_eq stage (text "done")
      && (contains message (text "升级成功") || contains message (text "命令执行完成"))
    then some CommandStatus.success
    else if text_eq stage (text "failed")
    then some CommandStatus.failed
    else none

-- `versionFromSuccessMessage`
abbrev pub one_line : Text → Text
one_line v = if is_empty v || any_of (λ c. c == 10 || c == 13) v then [] else normalize_version v

abbrev pub version_of : Option Text → Text
version_of none = []
version_of (some v) = one_line (trim_space v)

unfoldable pub version_from_success_message : Text → Text
version_from_success_message message = version_of (after_last message (text "当前版本:"))

abbrev pub status_text : CommandStatus → Text
status_text CommandStatus.success = text "success"
status_text CommandStatus.failed = text "failed"
status_text CommandStatus.rolled_back = text "rolled_back"
status_text CommandStatus.timeout = text "timeout"
status_text _ = []

abbrev pub final_note : Env → CommandStatus → Text
final_note env st =
    text "["
    ++ (env.stamp
        ++ (text "] 服务端根据终态阶段自动标记为 " ++ (status_text st ++ (text "（最终结果上报会自动覆盖/补充）" ++ 10 ∷ []))))

-- The commands that the statements with `status NOT IN (...)` change: those that have not ended.
abbrev pub has_ended : CommandStatus → Bool
has_ended CommandStatus.pending = false
has_ended CommandStatus.dispatched = false
has_ended CommandStatus.accepted = false
has_ended CommandStatus.running = false
has_ended _ = true

abbrev pub open_owned : ℕ → String → Command → Bool
open_owned cmd agent c = owned cmd agent c && not (has_ended c.status)

abbrev pub open_host : Option ℕ → TaskHost → Bool
open_host task_host h = hosts_command task_host h && host_is_unsettled h.status

unfoldable pub progress : Env → (stage line : Text) → Command → Command
progress env stage line c = record c {
  status = CommandStatus.running;
  started_at = or_else c.started_at (some env.now);
  last_stage = stage;
  last_stage_at = some env.now;
  lease_expire_at = extended (env.now + 30 * minute) c.lease_expire_at;
  log = c.log ++ line;
}

abbrev pub host_progress : (stage line : Text) → TaskHost → TaskHost
host_progress stage line h = record h { stage = stage; log = h.log ++ line }

abbrev pub or_result : Option ResultDoc → ResultDoc → Option ResultDoc
or_result none r = some r
or_result (some r) s = some r

unfoldable pub finalize : Env → CommandStatus → (stage version : Text) → Command → Command
finalize env st stage version c = record c {
  status = st;
  last_stage = stage;
  last_stage_at = some env.now;
  finished_at = some env.now;
  result = or_result c.result (record {
    status = st;
    stage = stage;
    to_version = version;
    exit_code = none;
    auto_finalized = true;
  });
  log = c.log ++ final_note env st;
}

abbrev pub host_finalize : Env → CommandStatus → (stage version : Text) → TaskHost → TaskHost
host_finalize env st stage version h = record h {
  status = host_status_of st;
  stage = stage;
  to_version = unless_empty version h.to_version;
  finished_at = some env.now;
  log = h.log ++ final_note env st;
}

abbrev pub is_some : Option ℕ → Bool
is_some none = false
is_some (some t) = true

-- The row that the request waits for: the host of the task, or else the command itself.
abbrev pub lock_exists : Option ℕ → ℕ → GatewayDb → Bool
lock_exists none cmd d = any_of (λ c. c.id == cmd) d.commands
lock_exists (some h) cmd d = any_of (λ t. t.id == h) d.task_hosts

abbrev pub version_for : CommandStatus → Text → Text → Text
version_for CommandStatus.success message version =
    unless_empty (version_from_success_message message) version
version_for _ message version = version

abbrev pub payload_version_of : Option Command → Text
payload_version_of none = []
payload_version_of (some c) = normalize_version c.payload_version

module _ (env : Env) (agent : String) (cmd : ℕ) (stage message : Text) where
  abbrev pub finish_command : Option ℕ → CommandStatus → Text → Db GatewayDb (Outcome (Unit {0}))
  finish_command task_host st version = do
    exec_if (is_some task_host)
        (update_task_hosts (open_host task_host) (host_finalize env st stage version))
    exec (update_commands (open_owned cmd agent) (finalize env st stage version))
    exec (update_hosts (of_agent agent) (back_online stage))
    pure (commit tt)

  abbrev pub if_final : Option ℕ → Option CommandStatus → Db GatewayDb (Outcome (Unit {0}))
  if_final task_host none = pure (commit tt)
  if_final task_host (some st) = do
    version ←
        or_default [] (query (λ d. payload_version_of (find_first (λ c. c.id == cmd) d.commands)))
    finish_command task_host st (version_for st message version)

  abbrev pub note_stage : Db GatewayDb (Unit {0})
  note_stage = exec (update_hosts (of_agent agent) (at_stage stage))

  abbrev pub go_on : Option ℕ → Db GatewayDb (Outcome (Unit {0}))
  go_on task_host = do
    exec_if (is_some task_host) (
        update_task_hosts (open_host task_host)
          (host_progress stage (stage_line env stage message)))
    exec
        (update_commands (open_owned cmd agent) (progress env stage (stage_line env stage message)))
    note_stage
    if_final task_host (final_of_stage stage message)

  abbrev pub by_status : Option ℕ → CommandStatus → Db GatewayDb (Outcome (Unit {0}))
  by_status task_host CommandStatus.canceled = pure (commit tt)
  by_status task_host CommandStatus.expired = pure (commit tt)
  by_status task_host st = if is_final st then note_stage >> pure (commit tt) else go_on task_host

  abbrev pub read_again : Option ℕ → Option Command → Db GatewayDb (Outcome (Unit {0}))
  read_again task_host none = fail no_rows
  read_again task_host (some c) = by_status task_host c.status

  abbrev pub when_locked : Option ℕ → Bool → Db GatewayDb (Outcome (Unit {0}))
  when_locked task_host false = pure (commit tt)
  when_locked task_host true = do
    c ← query (λ d. find_first (owned cmd agent) d.commands)
    read_again task_host c

  abbrev pub for_command : Option Command → Db GatewayDb (Outcome (Unit {0}))
  for_command none = pure (commit tt)
  for_command (some c) = do
    locked ← query (lock_exists c.task_host cmd)
    when_locked c.task_host locked

  abbrev pub stage_body : Db GatewayDb (Outcome (Unit {0}))
  stage_body = do c ← query (λ d. find_first (owned cmd agent) d.commands); for_command c

unfoldable pub update_stage : Env → String → ℕ → (stage message : Text) → Db GatewayDb (Unit {0})
update_stage env agent cmd stage message = transaction (
    stage_body env agent cmd (normalize_stage stage)
      (sanitize_and_truncate message max_stage_message_bytes))
