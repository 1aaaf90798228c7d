-- ===== src/Task/System/Ticks.antt =====
-- A tick of the orchestrator is a reconciliation and an advance (internal/logic/task/orchestrator.go).
use iflygo.Prelude.{ℕ, Bool, Option, none, some, List}
use iflygo.Task.Rows.{TaskDb, TaskRow, TaskStatus, Kind, task_is_under_way}
use iflygo.Task.Db.{at, World, Result, ok, err}
use iflygo.Db.Atomic.{Post}
use iflygo.Db.Keeps.{
  Keeps, kept, pure-Keeps, query-Keeps, exec-Keeps, bind-Keeps, default-Keeps, if-Keeps,
}
use iflygo.Task.Reconcile.{Reconciled}
use iflygo.Task.Owner.{Service}
use iflygo.Task.Orchestrator.{Strategy}
use iflygo.Task.Orchestrator.Dispatch.{Env}
use iflygo.Task.Advance.{advance, tick, tick_task}
use iflygo.Task.System.{Action, tick_step, reconcile_step, Reach, here, next}

held :
    {A : Type 0} (I : TaskDb → Type 0) (rw : Result A × World) → I rw.1.db → Post (λ a d. I d) I rw
held I (ok a, w) h = h
held I (err e, w) h = h

module _ (s : Service) (host_exists : ℕ → Bool) (allowed : Action → Bool) (d : TaskDb) where
  abbrev Reached : TaskDb → Type 0
  Reached = Reach s host_exists allowed d

  advance-Reached :
      (env : Env) (st : Strategy) (kind : Kind) (status : TaskStatus)
      → Keeps Reached (advance env st kind status)
  advance-Reached env st kind status = record {
    keeps = λ d1 fs path.
        held Reached (advance env st kind status (at d1 fs))
          (next path (tick_step env st kind status d1 fs));
  }

  task-Reached :
      (env : Env) (st : Strategy) (t : Option TaskRow) → Keeps Reached (tick_task env st t)
  task-Reached env st none = pure-Keeps Reached tt
  task-Reached env st (some t) =
      if-Keeps Reached (task_is_under_way t.status) _ _
        (default-Keeps Reached tt _ (advance-Reached env st t.kind t.status))
        (pure-Keeps Reached tt)

  -- Whatever statements fail in it, a tick leads to rows that the steps lead to.
  pub tick-Reach :
      (reconcile : TaskDb → TaskDb) (env : Env) (st : Strategy) (faults : List Bool)
      → ((d' : TaskDb) → Reconciled d' (reconcile d'))
      → Reached (tick reconcile env st (at d faults)).1.db
  unfolding tick
  tick-Reach reconcile env st faults ends = kept Reached (tick reconcile env st (at d faults)) (
      (bind-Keeps Reached _ _
          (default-Keeps Reached tt _ (
            exec-Keeps Reached reconcile
              (λ d' path. next path (reconcile_step d' (reconcile d') (ends d')))))
          (λ u.
            bind-Keeps Reached _ _ (default-Keeps Reached none _ (query-Keeps Reached _))
              (λ t. task-Reached env st t))).keeps
        d faults here)
