-- ===== src/Task/Advance.antt =====
-- `advance` and `tick` of internal/logic/task/orchestrator.go.
pub mod Keeps
pub mod Safety
pub mod Fresh
pub mod Gate
pub mod Close
pub mod Failures
use iflygo.Prelude.{ℕ, Bool, true, false, Option, none, some, not, ◌&&◌, ltb, if◌then◌else◌}
use iflygo.Task.Rows.{
  TaskStatus, BatchStatus, Kind, TaskRow, BatchRow, TaskDb, task_is_paused, task_is_under_way,
}
use iflygo.Task.Db.{Result, ok, err, Db, pure, query, exec, or_default, ◌>>=◌, ◌>>◌}
use iflygo.Task.Orchestrator.{
  Strategy, current_batch, has_pending_after, batch_progress, complete_batch, finish_task,
}
use iflygo.Task.Orchestrator.Dispatch.{Env, dispatch_batch}

-- The end of a batch whose hosts are all done: it has failed, or passed.
unfoldable pub close_batch : Env → Strategy → Kind → Bool → ℕ → (over last : Bool) → Db (Unit {0})
close_batch env st kind paused index true last = do
  complete_batch env.now index BatchStatus.failed st.auto_rollback (not paused && not last)
  if last then finish_task env.now kind else pure tt
close_batch env st kind paused index false last = do
  complete_batch env.now index BatchStatus.success false
      (not (st.auto_promote && not paused) && not last)
  if last then finish_task env.now kind else pure tt

-- The case of a running batch. An error of `hasPendingBatchAfter`'s query counts as "none".
unfoldable pub check_batch : Env → Strategy → Kind → Bool → ℕ → Db (Unit {0})
unfolding close_batch
check_batch env st kind paused index = do
  (total, done, failed) ← query (λ d. batch_progress index d.hosts)
  if ltb done total then pure tt else do
    more ← or_default false (query (λ d. has_pending_after index d.batches))
    close_batch env st kind paused index (st.exceeds failed total) (not more)

abbrev pub advance_status : Env → Strategy → Kind → Bool → ℕ → BatchStatus → Db (Unit {0})
advance_status env st kind paused index BatchStatus.pending =
    if paused then pure tt else dispatch_batch env kind index
advance_status env st kind paused index BatchStatus.running = check_batch env st kind paused index
advance_status env st kind paused index _ = pure tt

abbrev pub advance_batch : Env → Strategy → Kind → Bool → Option BatchRow → Db (Unit {0})
advance_batch env st kind paused none = finish_task env.now kind
advance_batch env st kind paused (some b) = advance_status env st kind paused b.index b.status

-- `currentBatch` of the database: a query that fails is an error, but rows that fail to arrive are
-- taken for the last ones, so that no batch is found.
abbrev pub read_batch : Db (Option BatchRow)
read_batch = query (λ d. tt) >> or_default none (query (λ d. current_batch d.batches))

-- `advance`; `status` is the task's as the tick read it.
unfoldable pub advance : Env → Strategy → Kind → TaskStatus → Db (Unit {0})
advance env st kind status = do b ← read_batch; advance_batch env st kind (task_is_paused status) b

abbrev pub tick_task : Env → Strategy → Option TaskRow → Db (Unit {0})
tick_task env st none = pure tt
tick_task env st (some t) =
    if task_is_under_way t.status then or_default tt (advance env st t.kind t.status) else pure tt

-- `tick`, for one task: a reconciliation of the commands, the read of the task, and its advance,
-- whose error is only logged.
unfoldable pub tick : (reconcile : TaskDb → TaskDb) → Env → Strategy → Db (Unit {0})
tick reconcile env st = do
  or_default tt (exec reconcile)
  t ← or_default none (query (λ d. d.task))
  tick_task env st t
