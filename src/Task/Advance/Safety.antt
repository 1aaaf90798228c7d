-- ===== src/Task/Advance/Safety.antt =====
-- What the orchestrator never does, whatever statements fail (orchestrator.go): it makes no second
-- active command for a host, none for a task that is not running, and it does not touch a task
-- that has ended.
use iflygo.Prelude.{
  none, ℕ, ◌≤◌, ◌≡◌, refl, Bool, false, Option, some, List, [], ◌∷◌, String, arith, if◌then◌else◌,
  ◌==◌, ◌&&◌, count_if, count_if-append, ltb-count_if, Bool-cases, inl, inr, ==_iff,
}
use iflygo.Task.Rows.{
  TaskStatus, BatchStatus, Kind, TaskRow, CommandRow, TaskDb, is_active, task_is_under_way,
}
use iflygo.Task.Db.{at}
use iflygo.Db.Keeps.{
  Keeps, kept, pure-Keeps, query-Keeps, exec-Keeps, bind-Keeps, default-Keeps, if-Keeps,
}
use iflygo.Task.Orchestrator.{Strategy, final_status}
use iflygo.Task.Orchestrator.Complete.{completed, finished}
use iflygo.Task.Orchestrator.Dispatch.{Env, task_runs, has_active_command, new_command}
use iflygo.Task.Orchestrator.Host.{dispatched, is_ready}
use iflygo.Task.Advance.{advance, tick, tick_task}
use iflygo.Task.Advance.Keeps.{advance-Keeps}

abbrev pub active_for : ℕ → List CommandRow → ℕ
active_for id = count_if (λ c. c.task_host == id && is_active c.status)

-- Every host has at most one active command.
abbrev pub OneActive : TaskDb → Type 0
OneActive d = (id : ℕ) → active_for id d.commands ≤ 1

active_for-new :
    (now id : ℕ) (agent : String) (kind : Kind) (j : ℕ)
    → active_for j (new_command now id agent kind ∷ []) ≡ (if id == j then 1 else 0)
active_for-new now id agent kind j = ground arith

dispatched-OneActive :
    (now id : ℕ) (agent : String) (kind : Kind) (d : TaskDb)
    → OneActive d
    → OneActive (dispatched now id agent kind d).1
unfolding has_active_command
dispatched-OneActive now id agent kind d one j = elim (Bool-cases (is_ready id d)) [
  | inr idle ↦ simp idle (one j)
  | inl ready ↦ elim (Bool-cases (has_active_command id d.commands)) [
    | inl old ↦ simp (ready, old) (one j)
    | inr new ↦
        simp (ready, new)
          (ground (
            arith,
            one j,
            count_if-append (λ c. c.task_host == j && is_active c.status) d.commands
                (new_command now id agent kind ∷ []),
            active_for-new now id agent kind j,
            ==_iff id j,
            ltb-count_if (λ c. c.task_host == id && is_active c.status) d.commands,
          ))
  ]
]

-- An advance of the task, whatever fails in it and whatever status the tick has read, leaves every
-- host with at most one active command.
pub advance-OneActive :
    (env : Env) (st : Strategy) (kind : Kind) (status : TaskStatus) (d : TaskDb)
    (faults : List Bool)
    → OneActive d
    → OneActive (advance env st kind status (at d faults)).1.db
advance-OneActive env st kind status d faults one =
    kept OneActive (advance env st kind status (at d faults)) (
      (advance-Keeps OneActive (λ now id lines d' h. h) dispatched-OneActive (λ now index s d' h. h)
          (λ now index s r p d' h. h) (λ now k c d' h. h) env st kind status).keeps
        d faults one)

abbrev IsFrozen : List CommandRow → TaskDb → Type 0
IsFrozen commands d = (d.commands ≡ commands) × (task_runs d.task ≡ false)

dispatched-IsFrozen :
    (commands : List CommandRow) (now id : ℕ) (agent : String) (kind : Kind) (d : TaskDb)
    → IsFrozen commands d
    → IsFrozen commands (dispatched now id agent kind d).1
dispatched-IsFrozen commands now id agent kind d (same, idle) =
    let not_ready : is_ready id d ≡ false = ground arith in simp not_ready (same, idle)

completed-IsFrozen :
    (commands : List CommandRow) (now index : ℕ) (s : BatchStatus) (r p : Bool) (d : TaskDb)
    → IsFrozen commands d
    → IsFrozen commands (completed now index s r p d)
completed-IsFrozen commands now index s r p d (same, idle) = (same, ground arith)

finished-IsFrozen :
    (commands : List CommandRow) (now : ℕ) (kind : Kind) (counts : ℕ × ℕ × ℕ) (d : TaskDb)
    → IsFrozen commands d
    → IsFrozen commands (finished now kind counts d)
unfolding final_status
finished-IsFrozen commands now kind (failed, success, total) d (same, idle) = (same, ground arith)

-- An advance makes no command while the task's row is not running (paused by a user, say, after the
-- tick has read it), and it does not set it running again.
pub advance_frozen :
    (env : Env) (st : Strategy) (kind : Kind) (status : TaskStatus) (d : TaskDb)
    (faults : List Bool)
    → task_runs d.task ≡ false
    → let d' = (advance env st kind status (at d faults)).1.db in
      (d'.commands ≡ d.commands) × (task_runs d'.task ≡ false)
advance_frozen env st kind status d faults idle =
    kept (IsFrozen d.commands) (advance env st kind status (at d faults)) (
      (advance-Keeps (IsFrozen d.commands) (λ now id lines d' h. h) (dispatched-IsFrozen d.commands)
          (λ now index s d' h. h) (completed-IsFrozen d.commands) (finished-IsFrozen d.commands) env
          st kind status).keeps
        d faults (refl, idle))

abbrev IsEnded : Option TaskRow → TaskDb → Type 0
IsEnded task d = (d.task ≡ task)

-- An advance never changes the row of a task that is neither running nor paused: an end that was
-- reached or a cancellation stays.
pub advance_ended :
    (env : Env) (st : Strategy) (kind : Kind) (status : TaskStatus) (d : TaskDb) (t : TaskRow)
    (faults : List Bool)
    → d.task ≡ some t
    → task_is_under_way t.status ≡ false
    → (advance env st kind status (at d faults)).1.db.task ≡ some t
advance_ended env st kind status d t faults h ended =
    kept (IsEnded (some t)) (advance env st kind status (at d faults)) (
      (advance-Keeps (IsEnded (some t)) (λ now id lines d' e. e) dispatched_ended
          (λ now index s d' e. e) completed_ended finished_ended env st kind status).keeps
        d faults h)
  where
    dispatched_ended :
        (now id : ℕ) (agent : String) (k : Kind) (d' : TaskDb)
        → d'.task ≡ some t
        → (dispatched now id agent k d').1.task ≡ some t
    dispatched_ended now id agent k d' e = ground arith

    completed_ended :
        (now index : ℕ) (s : BatchStatus) (r p : Bool) (d' : TaskDb)
        → d'.task ≡ some t
        → (completed now index s r p d').task ≡ some t
    completed_ended now index s r p d' e = ground arith

    finished_ended :
        (now : ℕ) (k : Kind) (c : ℕ × ℕ × ℕ) (d' : TaskDb)
        → d'.task ≡ some t
        → (finished now k c d').task ≡ some t
    finished_ended now k c d' e = ground arith

advance-Keeps_lem :
    (env : Env) (st : Strategy) (kind : Kind) (status : TaskStatus)
    → Keeps OneActive (advance env st kind status)
advance-Keeps_lem env st kind status =
    advance-Keeps OneActive (λ now id lines d' h. h) dispatched-OneActive (λ now index s d' h. h)
      (λ now index s r p d' h. h) (λ now k c d' h. h) env st kind status

tick_task-Keeps :
    (env : Env) (st : Strategy) (t : Option TaskRow) → Keeps OneActive (tick_task env st t)
tick_task-Keeps env st none = pure-Keeps OneActive tt
tick_task-Keeps env st (some t) =
    if-Keeps OneActive (task_is_under_way t.status) _ _
      (default-Keeps OneActive tt _ (advance-Keeps_lem env st t.kind t.status))
      (pure-Keeps OneActive tt)

-- A whole tick for a task leaves every host with at most one active command, if the reconciliation
-- of commands at its beginning does; this holds whatever statements fail.
pub tick-OneActive :
    (reconcile : TaskDb → TaskDb) (env : Env) (st : Strategy) (d : TaskDb) (faults : List Bool)
    → ((d' : TaskDb) → OneActive d' → OneActive (reconcile d'))
    → OneActive d
    → OneActive (tick reconcile env st (at d faults)).1.db
unfolding tick
tick-OneActive reconcile env st d faults keeps one =
    kept OneActive (tick reconcile env st (at d faults)) (
      (bind-Keeps OneActive _ _
          (default-Keeps OneActive tt _ (exec-Keeps OneActive reconcile keeps))
          (λ u.
            bind-Keeps OneActive _ _ (default-Keeps OneActive none _ (query-Keeps OneActive _))
              (λ t. tick_task-Keeps env st t))).keeps
        d faults one)
