-- ===== src/Agentgw/Reap.antt =====
-- The reconciliation at the beginning of each tick (internal/logic/agentgw/reap.go): commands whose
-- report is lost are given up, and hosts follow their commands.
pub mod Clears
pub mod Calm
pub mod Reaps
use iflygo.Prelude.{
  ℕ, ◌+◌, ◌*◌, Bool, true, false, Option, none, some, List, [], ◌∷◌, ◌++◌, String, ◌&&◌, ◌||◌, ◌==◌,
  if◌then◌else◌, find_first, any_of, not, ltb, leb, str_eq, zero, suc, map, keep_if, count_if,
}
use iflygo.Prelude.Int.{ℤ}
use iflygo.Text.{Text, text, text_eq, contains, is_empty}
use iflygo.Task.Rows.{CommandStatus, HostStatus, is_active}
use iflygo.Db.{Db, Outcome, commit, transaction, query, statement, exec, exec_if, pure, ◌>>=◌, ◌>>◌}
use iflygo.Agentgw.Rows.{
  Command, TaskHost, HostRow, ResultDoc, GatewayDb, Env, update_commands, update_task_hosts,
  update_hosts, set_where, of_agent, in_hand, host_is_waiting, host_status_of, hosts_command,
  or_else, unless_empty, minute,
}
use iflygo.Agentgw.Stage.{or_result, is_some, lock_exists}
use iflygo.Agentgw.Report.{value_or}

-- `COALESCE(last_stage_at, started_at, dispatched_at, created_at)`
abbrev pub last_sign : Command → ℕ
last_sign c = value_or (or_else c.last_stage_at (or_else c.started_at c.dispatched_at)) c.created_at

abbrev pub silent_for : ℕ → ℕ → Command → Bool
silent_for now time c = ltb (last_sign c + time) now

-- The steps of an installation that went well, in the log.
abbrev pub shows_success : Text → Bool
shows_success log =
    contains log (text "阶段: 执行安装")
    || contains log (text "阶段: 启动服务")
    || contains log (text "阶段: 安装后处理")
    || contains log (text "阶段: 验证版本")
    || contains log (text "升级成功")

abbrev pub seems_done : ℕ → Command → Bool
seems_done now c =
    in_hand c.status
    && text_eq c.last_stage (text "done")
    && silent_for now (2 * minute) c
    && shows_success c.log

abbrev pub seems_failed : ℕ → Command → Bool
seems_failed now c =
    in_hand c.status && text_eq c.last_stage (text "failed") && silent_for now (2 * minute) c

abbrev pub seems_lost : ℕ → Command → Bool
seems_lost now c =
    in_hand c.status && text_eq c.last_stage (text "done") && silent_for now (10 * minute) c

abbrev pub line : Env → Text → Text
line env what = text "[" ++ (env.stamp ++ (text "] " ++ (what ++ 10 ∷ [])))

-- A command is closed by the server, which has no report of it.
abbrev pub doc : CommandStatus → (stage version : Text) → ResultDoc
doc st stage version = record {
  status = st;
  stage = stage;
  to_version = version;
  exit_code = none;
  auto_finalized = true;
}

unfoldable pub close_done : Env → Command → Command
close_done env c = record c {
  status = CommandStatus.success;
  finished_at = some env.now;
  last_stage = text "done";
  last_stage_at = some env.now;
  result = some (doc CommandStatus.success (text "done") c.payload_version);
  log = c.log ++ line env (text "阶段已完成且包含成功步骤，服务端补记为成功");
}

unfoldable pub close_failed : Env → Command → Command
close_failed env c = record c {
  status = CommandStatus.failed;
  finished_at = some env.now;
  last_stage = text "failed";
  last_stage_at = some env.now;
  result = some (doc CommandStatus.failed (text "failed") []);
  log = c.log ++ line env (text "服务端根据失败阶段补记失败（未收到最终结果）");
}

unfoldable pub close_lost : Env → Command → Command
close_lost env c = record c {
  status = CommandStatus.timeout;
  finished_at = some env.now;
  last_stage_at = some env.now;
  result = some (doc CommandStatus.timeout (text "done") []);
  log = c.log ++ line env (text "阶段已完成但未收到最终结果，无法确认成功，按超时处理");
}

-- An update of commands, with the number of the rows that it changes.
abbrev pub close_where : (Command → Bool) → (Command → Command) → Db GatewayDb ℕ
close_where p f = statement (λ d. (count_if p d.commands, update_commands p f d))

abbrev pub finalize_body : Env → Db GatewayDb (Outcome ℕ)
finalize_body env = do
  finished ← close_where (seems_done env.now) (close_done env)
  failed ← close_where (seems_failed env.now) (close_failed env)
  lost ← close_where (seems_lost env.now) (close_lost env)
  pure (commit (finished + failed + lost))

unfoldable pub finalize_completed_stages : Env → Db GatewayDb ℕ
finalize_completed_stages env = transaction (finalize_body env)

-- `lease_expire_at IS NOT NULL AND lease_expire_at < NOW()`
abbrev pub lease_is_over : ℕ → Option ℕ → Bool
lease_is_over now none = false
lease_is_over now (some t) = ltb t now

abbrev pub is_expired : ℕ → Command → Bool
is_expired now c = in_hand c.status && lease_is_over now c.lease_expire_at

abbrev pub first : {A : Type 0} → ℕ → List A → List A
first zero xs = []
first (suc n) [] = []
first (suc n) (x ∷ xs) = x ∷ first n xs

unfoldable pub time_out : Env → Command → Command
time_out env c = record c {
  status = CommandStatus.timeout;
  last_stage = text "failed";
  last_stage_at = some env.now;
  finished_at = some env.now;
  result = or_result c.result (record {
    status = CommandStatus.timeout;
    stage = text "failed";
    to_version = [];
    exit_code = none;
    auto_finalized = false;
  });
  log = c.log ++ line env (text "超过租约未收到 Agent 阶段/结果上报，服务端标记超时");
}

abbrev pub host_time_out : Env → TaskHost → TaskHost
host_time_out env h = record h {
  status = HostStatus.timeout;
  stage = text "failed";
  finished_at = some env.now;
  log = h.log ++ line env (text "超过租约未收到 Agent 阶段/结果上报，服务端标记超时");
}

abbrev pub in_hand_by_id : ℕ → Command → Bool
in_hand_by_id id c = c.id == id && in_hand c.status

abbrev pub waiting_host : Option ℕ → TaskHost → Bool
waiting_host task_host h = hosts_command task_host h && host_is_waiting h.status

-- The agents whose commands were given up, and how many these are.
abbrev pub Reaped : Type 0
Reaped = List String × ℕ

abbrev pub lock_in : Option ℕ → List TaskHost → Bool
lock_in none ts = true
lock_in (some h) ts = any_of (λ t. t.id == h) ts

abbrev pub lock_host : Option ℕ → GatewayDb → Bool
lock_host th d = lock_in th d.task_hosts

module _ (env : Env) (c : Command) where
  abbrev pub give_up : Reaped → Db GatewayDb Reaped
  give_up (agents, n) = do
    exec (update_commands (in_hand_by_id c.id) (time_out env))
    exec_if (is_some c.task_host) (update_task_hosts (waiting_host c.task_host) (host_time_out env))
    pure (c.agent ∷ agents, n + 1)

  -- The command is read again, under its lock.
  abbrev pub if_still : Reaped → Option Command → Db GatewayDb Reaped
  if_still acc none = pure acc
  if_still acc (some c') = if is_expired env.now c' then give_up acc else pure acc

  abbrev pub if_locked : Reaped → Bool → Db GatewayDb Reaped
  if_locked acc false = pure acc
  if_locked acc true = do
    c' ← query (λ d. find_first (λ x. x.id == c.id) d.commands)
    if_still acc c'

  abbrev pub reap_one : Reaped → Db GatewayDb Reaped
  reap_one acc = do locked ← query (lock_host c.task_host); if_locked acc locked

unfoldable pub reap_each : Env → List Command → Reaped → Db GatewayDb Reaped
reap_each env [] acc = pure acc
reap_each env (c ∷ cs) acc = reap_one env c acc >>= reap_each env cs

abbrev pub has_active : String → GatewayDb → Bool
has_active agent d = any_of (λ c. str_eq c.agent agent && is_active c.status) d.commands

abbrev pub online_if_upgrading : String → String
online_if_upgrading s = if str_eq s "upgrading" then "online" else s

abbrev pub out_of_maintenance : HostRow → HostRow
out_of_maintenance h = record h {
  maintenance_until = none;
  maintenance_reason = "";
  agent_status = online_if_upgrading h.agent_status;
}

abbrev pub release : String → GatewayDb → GatewayDb
release agent d =
    update_hosts (λ h. of_agent agent h && not (has_active agent d)) out_of_maintenance d

unfoldable pub release_each : List String → Db GatewayDb (Unit {0})
release_each [] = pure tt
release_each (a ∷ agents) = exec (release a) >> release_each agents

abbrev pub batch : ℕ
batch = 500

abbrev pub finish_reap : Reaped → Db GatewayDb (Outcome ℕ)
finish_reap (agents, n) = release_each agents >> pure (commit n)

abbrev pub reap_body : Env → Db GatewayDb (Outcome ℕ)
reap_body env = do
  expired ← query (λ d. first batch (keep_if (is_expired env.now) d.commands))
  reaped ← reap_each env expired ([], 0)
  finish_reap reaped

unfoldable pub reap_expired : Env → Db GatewayDb ℕ
reap_expired env = transaction (reap_body env)
