-- ===== src/Task/Api.antt =====
-- What users do to a task (internal/logic/task/dispatch.go): start, promote, pause and cancel it.
pub mod Writes
use iflygo.Prelude.{
  ℕ, String, Bool, true, false, not, Option, none, some, List, [], ◌∷◌, map, str_eq, ◌==◌, ◌&&◌,
  if◌then◌else◌, ltb,
}
use iflygo.Access.{User, Scope, allows}
use iflygo.Task.Rows.{
  TaskStatus, BatchStatus, HostStatus, CommandStatus, TaskRow, BatchRow, HostRow, CommandRow,
  TaskDb, task_can_start, task_can_cancel, task_is_paused, task_is_running, is_active, coalesce,
}
use iflygo.Task.Db.{
  Error, database, not_found, bad_status, changed, Db, pure, fail, query, exec, statement, ◌>>=◌,
  ◌>>◌, Outcome, commit, transaction, unless_error,
}
use iflygo.Task.Owner.{Service, check_task_owner, check_task_deploy, visible_task}

-- What a request brings: the clock, the scope and the user of its context, and the user's trimmed
-- name (`actorUsername`), empty for a call from inside.
pub record Request : Type 0 where
  pub now : ℕ
  pub scope : Scope
  pub actor : Option User
  pub operator : String

-- `updated_by=COALESCE(NULLIF($n,''), updated_by)`
abbrev pub updated_by : String → String → String
updated_by operator old = if str_eq operator "" then old else operator

abbrev matches : Request → (TaskStatus → Bool) → TaskRow → Bool
matches r from t = allows r.scope t.tenant && from t.status

abbrev set_status : Request → (TaskStatus → Bool) → TaskStatus → Option TaskRow → ℕ × Option TaskRow
set_status r from status none = (0, none)
set_status r from status (some t) =
    if matches r from t
    then (
      1,
      some (record t {
        status = status;
        updated_at = r.now;
        updated_by = updated_by r.operator t.updated_by;
      }),
    )
    else (0, some t)

-- `UPDATE upgrade_tasks SET status=…, updated_at=…, updated_by=… WHERE id=… AND tenant… AND status IN
-- (…)`, and the number of rows.
unfoldable pub update_task : Request → (TaskStatus → Bool) → TaskStatus → TaskDb → ℕ × TaskDb
unfolding allows
update_task r from status d =
    let (n, t) = set_status r from status d.task in (n, record d { task = t })

abbrev component_found : Service → Scope → Option ℕ → Bool
component_found s sc none = true
component_found s sc (some id) = elim (s.component_name sc id) [ none ↦ false | some name ↦ true ]

abbrev start_row : Service → Request → Option TaskRow → Db (Unit {0})
start_row s r none = fail not_found
start_row s r (some t) = do
  unless_error (task_can_start t.status) bad_status
  unless_error (component_found s r.scope t.component) not_found
  n ← statement (update_task r task_can_start TaskStatus.running)
  unless_error (not (n == 0)) changed

-- `Start`
unfoldable pub start : Service → Request → Db (Unit {0})
start s r = do
  check_task_owner s r.scope r.actor
  check_task_deploy s r.scope r.actor
  t ← query (λ d. visible_task r.scope d)
  start_row s r t

abbrev pub skip_failed : ℕ → BatchRow → BatchRow
skip_failed now b = elim b.status [
  | BatchStatus.failed ↦ record b {
    status = BatchStatus.skipped;
    finished_at = coalesce b.finished_at now;
  }
  | _ ↦ b
]

abbrev promote_rows : Request → Db (Outcome (Unit {0}))
promote_rows r = do
  exec (λ d. record d { batches = map (skip_failed r.now) d.batches })
  n ← statement (update_task r task_is_paused TaskStatus.running)
  if n == 0 then fail bad_status else pure (commit tt)

-- `Promote`
unfoldable pub promote : Service → Request → Db (Unit {0})
promote s r = do
  check_task_owner s r.scope r.actor
  check_task_deploy s r.scope r.actor
  transaction (promote_rows r)

-- `Pause`
unfoldable pub pause : Service → Request → Db (Unit {0})
pause s r = do
  check_task_owner s r.scope r.actor
  n ← statement (update_task r task_is_running TaskStatus.paused)
  unless_error (not (n == 0)) bad_status

-- `status IN ('pending','running')`, of a batch and of a host.
abbrev pub batch_in_work : BatchStatus → Bool
batch_in_work BatchStatus.pending = true
batch_in_work BatchStatus.running = true
batch_in_work _ = false

abbrev pub host_in_work : HostStatus → Bool
host_in_work HostStatus.pending = true
host_in_work HostStatus.running = true
host_in_work _ = false

abbrev pub cancel_batch : ℕ → BatchRow → BatchRow
cancel_batch now b =
    if batch_in_work b.status
    then record b { status = BatchStatus.canceled; finished_at = some now }
    else b

abbrev pub cancel_host : ℕ → HostRow → HostRow
cancel_host now h =
    if host_in_work h.status
    then record h { status = HostStatus.canceled; finished_at = some now }
    else h

abbrev pub cancel_command : ℕ → CommandRow → CommandRow
cancel_command now c =
    if is_active c.status
    then record c { status = CommandStatus.canceled; finished_at = some now }
    else c

abbrev cancel_row : Request → Option TaskRow → Db (Outcome (Unit {0}))
cancel_row r none = fail not_found
cancel_row r (some t) = do
  unless_error (task_can_cancel t.status) bad_status
  exec (λ d. record d { batches = map (cancel_batch r.now) d.batches })
  exec (λ d. record d { hosts = map (cancel_host r.now) d.hosts })
  exec (λ d. record d { commands = map (cancel_command r.now) d.commands })
  n ← statement (update_task r task_can_cancel TaskStatus.canceled)
  if n == 0 then fail changed else pure (commit tt)

-- `Cancel`
unfoldable pub cancel : Service → Request → Db (Unit {0})
cancel s r = do
  check_task_owner s r.scope r.actor
  transaction do t ← query (λ d. visible_task r.scope d); cancel_row r t
