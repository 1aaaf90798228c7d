-- ===== src/Agentgw/Sync.antt =====
-- `SyncTaskHostsFromCommands` and `ReconcileTasks` (internal/logic/agentgw/reap.go): hosts that
-- still wait follow the last command that has ended for them.
pub mod Settles
pub mod Ends
use iflygo.Prelude.{
  ℕ, ◌+◌, Bool, true, false, Option, none, some, List, [], ◌∷◌, ◌&&◌, ◌==◌, if◌then◌else◌, any_of,
  not, ltb, map, count_if, str_eq,
}
use iflygo.Prelude.Int.{ℤ}
use iflygo.Text.{Text}
use iflygo.Task.Rows.{CommandStatus, HostStatus, is_active}
use iflygo.Db.{Db, statement, exec, pure, ◌>>=◌, ◌>>◌}
use iflygo.Agentgw.Rows.{
  Command, TaskHost, HostRow, ResultDoc, GatewayDb, Env, update_hosts, host_is_waiting,
  host_status_of, unless_empty,
}
use iflygo.Agentgw.Report.{value_or, before}
use iflygo.Agentgw.Reap.{finalize_completed_stages, reap_expired, has_active, out_of_maintenance}

-- `status IN ('success','failed','rolled_back','timeout','expired')`
abbrev pub is_over : CommandStatus → Bool
is_over CommandStatus.success = true
is_over CommandStatus.failed = true
is_over CommandStatus.rolled_back = true
is_over CommandStatus.timeout = true
is_over CommandStatus.expired = true
is_over _ = false

abbrev pub is_for : ℕ → Option ℕ → Bool
is_for host none = false
is_for host (some h) = h == host

abbrev pub ended_for : ℕ → Command → Bool
ended_for host c = is_for host c.task_host && is_over c.status

abbrev pub active_for : ℕ → Command → Bool
active_for host c = is_for host c.task_host && is_active c.status

abbrev pub later_or : Option Command → Bool → Command → Option Command
later_or (some c) b d = some c
later_or none true d = some d
later_or none false d = none

-- The last command that has ended for a host: `DISTINCT ON (task_host_id) ... ORDER BY id DESC`.
unfoldable pub last_ended : ℕ → List Command → Option Command
last_ended host [] = none
last_ended host (c ∷ cs) = later_or (last_ended host cs) (ended_for host c) c

abbrev pub version_in : Option ResultDoc → Text
version_in none = []
version_in (some r) = r.to_version

abbrev pub code_or : Option ℤ → ℤ → ℤ
code_or none old = old
code_or (some c) old = c

abbrev pub code_in : Option ResultDoc → ℤ → ℤ
code_in none old = old
code_in (some r) old = code_or r.exit_code old

unfoldable pub follow : ℕ → Command → TaskHost → TaskHost
follow now c h = record h {
  status = host_status_of c.status;
  stage = unless_empty c.last_stage h.stage;
  to_version = unless_empty (version_in c.result) (unless_empty c.payload_version h.to_version);
  exit_code = code_in c.result h.exit_code;
  log = unless_empty c.log h.log;
  finished_at = some (value_or c.finished_at now);
}

abbrev pub follow_last : ℕ → Option Command → TaskHost → TaskHost
follow_last now none h = h
follow_last now (some c) h =
    if before (value_or c.finished_at c.created_at) h.started_at then h else follow now c h

-- A host that waits, with no command under way, follows its last command unless that has ended
-- before the host's run began.
unfoldable pub synced : ℕ → List Command → TaskHost → TaskHost
synced now commands h =
    if host_is_waiting h.status && not (any_of (active_for h.id) commands)
    then follow_last now (last_ended h.id commands) h
    else h

abbrev pub changes : ℕ → List Command → TaskHost → Bool
changes now commands h =
    host_is_waiting h.status && not (host_is_waiting (synced now commands h).status)

unfoldable pub sync_task_hosts_from_commands : Env → Db GatewayDb ℕ
sync_task_hosts_from_commands env = statement (λ d. (
  count_if (changes env.now d.commands) d.task_hosts,
  record d { task_hosts = map (synced env.now d.commands) d.task_hosts },
))

-- No host of the list stays in maintenance for an upgrade without a command under way.
abbrev pub release_idle : GatewayDb → GatewayDb
release_idle d =
    update_hosts (λ h. str_eq h.maintenance_reason "upgrading" && not (has_active h.agent d))
      out_of_maintenance d

unfoldable pub reconcile_tasks : Env → Db GatewayDb ℕ
reconcile_tasks env = do
  finalized ← finalize_completed_stages env
  reaped ← reap_expired env
  n ← sync_task_hosts_from_commands env
  exec release_idle
  pure (finalized + reaped + n)
