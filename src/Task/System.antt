-- ===== src/Task/System.antt =====
-- The actions of users and the ticks of the orchestrator on one task, one after the other in any
-- order, with any statements failing (internal/logic/task).
pub mod Rights
pub mod Active
pub mod Final
pub mod Ticks
use iflygo.Prelude.{ℕ, ◌≡◌, Bool, true, false, List}
use iflygo.Task.Rows.{
  TaskStatus, Kind, TaskDb, task_can_start, task_can_cancel, task_is_paused, task_is_running,
}
use iflygo.Task.Db.{World, at, Result}
use iflygo.Task.Owner.{Service}
use iflygo.Task.Api.{Request, start, promote, pause, cancel}
use iflygo.Task.Retry.{RetryRequest, retry, is_draft}
use iflygo.Task.Orchestrator.{Strategy}
use iflygo.Task.Orchestrator.Dispatch.{Env}
use iflygo.Task.Advance.{advance}
use iflygo.Task.Reconcile.{Reconciled}

pub data Action : Type 0 where
  start_task promote_task pause_task cancel_task : Action
  retry_hosts : RetryRequest → Action

abbrev pub rows_after : {A : Type 0} → Result A × World → TaskDb
rows_after rw = rw.1.db

-- The rows after a request's action.
abbrev pub act : Service → (host_exists : ℕ → Bool) → Request → Action → World → TaskDb
act s host_exists r start_task w = rows_after (start s r w)
act s host_exists r promote_task w = rows_after (promote s r w)
act s host_exists r pause_task w = rows_after (pause s r w)
act s host_exists r cancel_task w = rows_after (cancel s r w)
act s host_exists r (retry_hosts req) w = rows_after (retry s host_exists r req w)

-- The statuses from which an action works.
abbrev pub works_from : Action → TaskStatus → Bool
works_from start_task st = task_can_start st
works_from promote_task st = task_is_paused st
works_from pause_task st = task_is_running st
works_from cancel_task st = task_can_cancel st
works_from (retry_hosts req) TaskStatus.draft = false
works_from (retry_hosts req) st = true

-- The actions that make hosts do something, and want the right to deploy.
abbrev pub wants_deploy : Action → Bool
wants_deploy start_task = true
wants_deploy promote_task = true
wants_deploy (retry_hosts req) = true
wants_deploy _ = false

abbrev pub is_retry : Action → Bool
is_retry (retry_hosts req) = true
is_retry _ = false

module _ (s : Service) (host_exists : ℕ → Bool) (allowed : Action → Bool) where
  -- A tick reads the task's status by itself, so it is any status here.
  pub data Step : TaskDb → TaskDb → Type 0 where
    tick_step :
        (env : Env) (st : Strategy) (kind : Kind) (status : TaskStatus) (d : TaskDb)
        (faults : List Bool)
        → Step d (rows_after (advance env st kind status (at d faults)))
    -- The reconciliation with which a tick begins; other steps may come between it and the advance.
    reconcile_step : (d d' : TaskDb) → Reconciled d d' → Step d d'
    act_step :
        (r : Request) (a : Action) (d : TaskDb) (faults : List Bool)
        → allowed a ≡ true
        → Step d (act s host_exists r a (at d faults))

  pub data Reach (d : TaskDb) : TaskDb → Type 0 where
    here : Reach d d
    next : {d1 d2 : TaskDb} → Reach d d1 → Step d1 d2 → Reach d d2
