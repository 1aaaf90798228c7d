-- ===== src/Task/Advance/Failures.antt =====
-- What a failed statement does to a task (internal/logic/task/orchestrator.go): ways in which a
-- tick leaves the rows of a task at odds with each other.
use iflygo.Prelude.{
  ℕ, ◌≡◌, refl, ◌∙◌, Bool, true, false, not, Option, some, List, [], ◌∷◌, map, arith, if◌then◌else◌,
}
use iflygo.Task.Rows.{
  TaskStatus, BatchStatus, Kind, BatchRow, HostRow, TaskRow, TaskDb, task_is_under_way,
  task_is_paused,
}
use iflygo.Task.Db.{at, ◌>>=◌, statement, or_default}
use iflygo.Task.Orchestrator.{
  Strategy, current_batch, batch_progress, has_pending_after, set_batch, set_task_status,
}
use iflygo.Task.Orchestrator.Complete.{outcome, finish_task_lem}
use iflygo.Task.Orchestrator.Dispatch.{Env}
use iflygo.Task.Advance.{advance, check_batch, close_batch}
use iflygo.Task.Advance.Close.{waits_for, waits_for_lem, batch_fails, close_batch_calm}

-- A tick whose first three queries succeed, when all hosts of the batch are done.
advance_over :
    (env : Env) (st : Strategy) (kind : Kind) (status : TaskStatus) (d : TaskDb) (b : BatchRow)
    (bad : Bool) (faults : List Bool)
    → current_batch d.batches ≡ some b
    → b.status ≡ BatchStatus.running
    → waits_for b.index d.hosts ≡ false
    → advance env st kind status (at d (false ∷ false ∷ false ∷ bad ∷ faults))
      ≡ close_batch env st kind
          (task_is_paused status)
          b.index
          (batch_fails st b.index d.hosts)
          (not (if bad then false else has_pending_after b.index d.batches))
          (at d faults)
unfolding advance check_batch batch_progress ◌>>=◌ statement or_default
advance_over env st kind status d b true faults first running over =
    simp (first, running) (rw (waits_for_lem b.index d.hosts, over) refl)
advance_over env st kind status d b false faults first running over =
    simp (first, running) (rw (waits_for_lem b.index d.hosts, over) refl)

has_pending_after-set_batch :
    (now index : ℕ) (s : BatchStatus) (bs : List BatchRow)
    → has_pending_after index (map (set_batch index s now) bs) ≡ has_pending_after index bs
unfolding has_pending_after
has_pending_after-set_batch now index s [] = refl
has_pending_after-set_batch now index s (x ∷ bs) =
    ground (arith, has_pending_after-set_batch now index s bs)

outcome_ends : (kind : Kind) (hosts : List HostRow) → task_is_under_way (outcome kind hosts) ≡ false
outcome_ends Kind.upgrade hosts = ground arith
outcome_ends Kind.command [] = refl
outcome_ends Kind.command (h ∷ hosts) = ground arith

ended_by_outcome :
    (now : ℕ) (kind : Kind) (hosts : List HostRow) (o : Option TaskRow) (t : TaskRow)
    → o ≡ some t
    → task_is_under_way t.status ≡ true
    → (t' : TaskRow) × (set_task_status task_is_under_way (outcome kind hosts) now o ≡ some t')
      × (task_is_under_way t'.status ≡ false)
ended_by_outcome now kind hosts o t h u = (
  record t { status = outcome kind hosts; updated_at = now },
  rw (h, u) refl,
  outcome_ends kind hosts,
)

-- If the query of `hasPendingBatchAfter` alone fails when a batch ends, a task that is running or
-- paused is ended although a batch is still pending, and that batch stays pending.
pub advance_forgets_batch :
    (env : Env) (st : Strategy) (kind : Kind) (status : TaskStatus) (d : TaskDb) (b : BatchRow)
    (t : TaskRow)
    → current_batch d.batches ≡ some b
    → b.status ≡ BatchStatus.running
    → waits_for b.index d.hosts ≡ false
    → has_pending_after b.index d.batches ≡ true
    → d.task ≡ some t
    → task_is_under_way t.status ≡ true
    → let d' = (advance env st kind status (at d (false ∷ false ∷ false ∷ true ∷ []))).1.db in
      (has_pending_after b.index d'.batches ≡ true)
      × ((t' : TaskRow) × (d'.task ≡ some t') × (task_is_under_way t'.status ≡ false))
advance_forgets_batch env st kind status d b t first running over more h u =
    rw
      (
        advance_over env st kind status d b true [] first running over,
        close_batch_calm env st kind (task_is_paused status) b.index d
            (batch_fails st b.index d.hosts) false,
      )
      (
        has_pending_after-set_batch env.now b.index _ d.batches ∙ more,
        ended_by_outcome env.now kind _ d.task t h u,
      )

-- If the rows of the batches fail to arrive, a task that is running or paused is ended whatever batches it
-- has left to do, and no batch is changed.
pub advance_loses_batch :
    (env : Env) (st : Strategy) (kind : Kind) (status : TaskStatus) (d : TaskDb) (t : TaskRow)
    → d.task ≡ some t
    → task_is_under_way t.status ≡ true
    → let d' = (advance env st kind status (at d (false ∷ true ∷ []))).1.db in
      (d'.batches ≡ d.batches)
      × ((t' : TaskRow) × (d'.task ≡ some t') × (task_is_under_way t'.status ≡ false))
unfolding advance ◌>>=◌ statement or_default
advance_loses_batch env st kind status d t h u =
    rw (finish_task_lem env.now kind d) (refl, ended_by_outcome env.now kind d.hosts d.task t h u)
