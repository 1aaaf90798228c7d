-- ===== src/Task/Tests/Advancing.antt =====
-- Examples of orchestrator.go.
use iflygo.Prelude.{◌≡◌, ◌≢◌, refl, true, false, some, List, [], ◌∷◌}
use iflygo.Task.Rows.{
  CommandRow, TaskRow, TaskStatus, BatchStatus, HostStatus, Kind, BatchRow, task_is_paused,
  task_is_under_way,
}
use iflygo.Task.Db.{at, ok, statement, ◌>>=◌, or_default, transaction}
use iflygo.Db.Atomic.{Post}
use iflygo.Task.Orchestrator.{complete_batch, finish_task, current_batch, has_pending_after}
use iflygo.Task.Orchestrator.Complete.{complete_batch_atomic, completed, finish_task_hides_failures}
use iflygo.Task.Orchestrator.Host.{dispatch_host-Post, dispatched}
use iflygo.Task.Orchestrator.Dispatch.{
  dispatch_host, host_status, has_active_command, task_runs, dispatch_batch, dispatch_rows,
  dispatch_row, check_spec, mark_host_skipped, custom_script, is_offline, os_differs,
  offline_threshold,
}
use iflygo.Task.Orchestrator.{mark_batch}
use iflygo.Task.Advance.{advance}
use iflygo.Task.Advance.Fresh.{OnlyFor}
use iflygo.Task.Advance.Gate.{advance_in_order, IsFirstOpen}
use iflygo.Task.Advance.Close.{advance_ends, ended}
use iflygo.Task.Advance.Failures.{advance_forgets_batch}
use iflygo.Task.Tests.{a_task, a_batch, fresh, in_first, in_last, an_env, halves}

complete_batch_atomic_example :
    (complete_batch 100 0 BatchStatus.failed true true (at (in_first HostStatus.success) [])
      ≡ (ok tt, at (completed 100 0 BatchStatus.failed true true (in_first HostStatus.success)) []))
    × Post
        (λ u d'. d' ≡ completed 100 0 BatchStatus.failed true true (in_first HostStatus.success))
        (λ d'. d' ≡ in_first HostStatus.success)
        (complete_batch 100 0 BatchStatus.failed true true
          (at (in_first HostStatus.success) (false ∷ false ∷ true ∷ [])))
complete_batch_atomic_example =
    complete_batch_atomic 100 0 BatchStatus.failed true true (in_first HostStatus.success)
      (false ∷ false ∷ true ∷ [])

finish_task_hides_failures_example :
    (finish_task 100 Kind.upgrade (at in_last (true ∷ false ∷ []))).1.db.task
    ≡ some (record (a_task TaskStatus.running) { status = TaskStatus.success; updated_at = 100 })
finish_task_hides_failures_example =
    finish_task_hides_failures 100 in_last (a_task TaskStatus.running) [] refl refl

dispatch_host-Post_example :
    Post
      (λ sent d'. (sent, d') ≡ dispatched 100 1 "agent" Kind.upgrade fresh)
      (λ d'. d' ≡ fresh)
      (dispatch_host 100 1 "agent" Kind.upgrade (at fresh (false ∷ false ∷ true ∷ [])))
dispatch_host-Post_example =
    dispatch_host-Post 100 1 "agent" Kind.upgrade fresh (false ∷ false ∷ true ∷ [])

advance_ends_example :
    advance an_env
      (halves true)
      Kind.upgrade
      TaskStatus.running
      (at (in_first HostStatus.failed) [])
    ≡ (ok tt, at (ended an_env (halves true) Kind.upgrade false 0 (in_first HostStatus.failed)) [])
unfolding current_batch
advance_ends_example =
    advance_ends an_env (halves true) Kind.upgrade TaskStatus.running (in_first HostStatus.failed)
      (a_batch 0 BatchStatus.running) refl refl refl

advance_forgets_batch_example :
    let d' =
      (advance an_env
        (halves true)
        Kind.upgrade
        TaskStatus.running
        (at (in_first HostStatus.success) (false ∷ false ∷ false ∷ true ∷ []))).1.db in
    (has_pending_after 0 d'.batches ≡ true)
    × ((t' : TaskRow) × (d'.task ≡ some t') × (task_is_under_way t'.status ≡ false))
unfolding current_batch has_pending_after
advance_forgets_batch_example =
    advance_forgets_batch an_env (halves true) Kind.upgrade TaskStatus.running
      (in_first HostStatus.success) (a_batch 0 BatchStatus.running) (a_task TaskStatus.running) refl
      refl refl refl refl refl

abbrev dispatched_once : List CommandRow
dispatched_once =
    (advance an_env (halves true) Kind.upgrade TaskStatus.running (at fresh [])).1.db.commands

sends : dispatched_once ≢ []
unfolding advance dispatch_batch check_spec dispatch_rows dispatch_row dispatch_host host_status
    has_active_command mark_batch current_batch transaction statement ◌>>=◌ or_default custom_script
    is_offline os_differs offline_threshold mark_host_skipped
sends e = cc

advance_in_order_example :
    ((b : BatchRow) × IsFirstOpen b fresh.batches
      × (b.status ≡ BatchStatus.pending)
      × OnlyFor b.index fresh
          (advance an_env (halves true) Kind.upgrade TaskStatus.running (at fresh [])).1.db)
    × (task_is_paused TaskStatus.running ≡ false)
    × (task_runs fresh.task ≡ true)
advance_in_order_example =
    advance_in_order an_env (halves true) Kind.upgrade TaskStatus.running fresh [] sends
