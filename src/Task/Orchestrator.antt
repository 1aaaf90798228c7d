-- ===== src/Task/Orchestrator.antt =====
-- internal/logic/task/orchestrator.go: a tick of the orchestrator moves a task on.
pub mod Dispatch
pub mod Complete
pub mod Host
use iflygo.Prelude.{
  ℕ, ◌+◌, Bool, true, false, Option, none, some, List, [], ◌∷◌, map, not, ◌&&◌, ◌||◌, ltb, ◌==◌,
  if◌then◌else◌, count_if, any_of, find_first,
}
use iflygo.Task.Rows.{
  TaskStatus, BatchStatus, HostStatus, Kind, upgrade, command, TaskRow, BatchRow, HostRow, TaskDb,
  is_open, batch_is_pending, host_is_success, host_is_done, host_is_failed, task_is_running,
  task_is_paused, task_is_under_way, coalesce,
}
use iflygo.Task.Db.{
  Db, pure, query, exec, exec_if, or_default, ◌>>=◌, ◌>>◌, Outcome, commit, transaction,
}

-- The part of `Strategy` that the orchestrator reads. `exceeds failed total` is the test on floats
-- `failRate > threshold`, where `failRate` is `failed / total * 100`, or 0 where `total` is 0.
pub record Strategy : Type 0 where
  pub auto_promote : Bool
  pub auto_rollback : Bool
  pub exceeds : ℕ → ℕ → Bool

-- `UPDATE upgrade_tasks SET status=…, updated_at=NOW() WHERE id=… AND status IN (…)`
abbrev pub set_task_status : (TaskStatus → Bool) → TaskStatus → ℕ → Option TaskRow → Option TaskRow
set_task_status from status now none = none
set_task_status from status now (some t) =
    some (if from t.status then record t { status = status; updated_at = now } else t)

-- `finished_at=CASE WHEN status IN ('success','failed') THEN NOW() ELSE finished_at END`
abbrev pub batch_finish : BatchStatus → ℕ → Option ℕ → Option ℕ
batch_finish BatchStatus.success now t = some now
batch_finish BatchStatus.failed now t = some now
batch_finish _ now t = t

abbrev pub set_batch : ℕ → BatchStatus → ℕ → BatchRow → BatchRow
set_batch index status now b =
    if b.index == index
    then record b {
      status = status;
      started_at = coalesce b.started_at now;
      finished_at = batch_finish status now b.finished_at;
    }
    else b

-- `currentBatch`: the first batch that is not over, with its status.
unfoldable pub current_batch : List BatchRow → Option BatchRow
current_batch = find_first (λ b. is_open b.status)

-- `hasPendingBatchAfter`, where the query succeeds.
unfoldable pub has_pending_after : ℕ → List BatchRow → Bool
has_pending_after index = any_of (λ b. ltb index b.index && batch_is_pending b.status)

-- `batchProgress`: how many hosts the batch has, how many are done, how many have failed.
unfoldable pub batch_progress : ℕ → List HostRow → ℕ × ℕ × ℕ
batch_progress index hosts = (
  count_if (λ h. h.batch == index) hosts,
  count_if (λ h. h.batch == index && host_is_done h.status) hosts,
  count_if (λ h. h.batch == index && host_is_failed h.status) hosts,
)

abbrev pub roll_back_host : ℕ → HostRow → HostRow
roll_back_host index h =
    if h.batch == index && host_is_success h.status
    then record h { status = HostStatus.rolled_back }
    else h

-- `completeBatch`: three writes in one transaction, the latter two as asked.
unfoldable pub complete_batch : ℕ → ℕ → BatchStatus → Bool → Bool → Db (Unit {0})
complete_batch now index status roll_back pause_task = transaction do
  exec (λ d. record d { batches = map (set_batch index status now) d.batches })
  exec_if roll_back (λ d. record d { hosts = map (roll_back_host index) d.hosts })
  exec_if pause_task
      (λ d. record d { task = set_task_status task_is_running TaskStatus.paused now d.task })
  pure (commit tt)

unfoldable pub mark_batch : ℕ → ℕ → BatchStatus → Db (Unit {0})
mark_batch now index status =
    exec (λ d. record d { batches = map (set_batch index status now) d.batches })

abbrev pub is_command : Kind → Bool
is_command command = true
is_command upgrade = false

-- How many hosts failed and succeeded, and how many there are.
unfoldable pub count_results : List HostRow → ℕ × ℕ × ℕ
count_results hosts = (
  count_if (λ h. host_is_failed h.status) hosts,
  count_if (λ h. host_is_success h.status) hosts,
  count_if (λ h. true) hosts,
)

unfoldable pub final_status : Kind → ℕ × ℕ × ℕ → TaskStatus
final_status kind (failed, success, total) =
    if ltb 0 failed || (is_command kind && (ltb 0 total && success == 0))
    then TaskStatus.failed
    else TaskStatus.success

-- `finishTask`. An error of the counting query is ignored, and the counts stay 0.
unfoldable pub finish_task : ℕ → Kind → Db (Unit {0})
finish_task now kind = do
  counts ← or_default (0, 0, 0) (query (λ d. count_results d.hosts))
  exec (λ d. record d {
    task = set_task_status task_is_under_way (final_status kind counts) now d.task;
  })
