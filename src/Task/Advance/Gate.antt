-- ===== src/Task/Advance/Gate.antt =====
-- The gate between batches (orchestrator.go): which batch gets commands, when a batch is left, and
-- how the task goes on.
use iflygo.Prelude.{
  ℕ, ap, subst, ◌≡◌, ◌≢◌, refl, Bool, true, false, not, ◌&&◌, Option, none, some, List, [], ◌∷◌,
  ◌++◌, arith, Bool-cases, inl, inr, All,
}
use iflygo.Task.Rows.{
  TaskStatus, BatchStatus, Kind, BatchRow, CommandRow, TaskDb, task_is_paused, is_open,
  batch_is_pending,
}
use iflygo.Task.Db.{at}
use iflygo.Db.Keeps.{Keeps, kept, pure-Keeps}
use iflygo.Task.Orchestrator.{Strategy, current_batch}
use iflygo.Task.Orchestrator.Dispatch.{Env, task_runs}
use iflygo.Task.Advance.{advance, advance_batch, advance_status}
use iflygo.Task.Advance.Keeps.{check_batch-Keeps, finish_task-Keeps, read_batch-Post}
use iflygo.Task.Advance.Fresh.{OnlyFor, OnlyFor-refl, dispatch_batch-OnlyFor}
use iflygo.Task.Advance.Safety.{advance_frozen}

-- The first open batch is pending, and the task was not read as paused.
abbrev pub is_due : Bool → Option BatchRow → Bool
is_due paused none = false
is_due paused (some b) = batch_is_pending b.status && not paused

module _ (commands : List CommandRow) where
  abbrev HasCommands : TaskDb → Type 0
  HasCommands d = d.commands ≡ commands

  status_not_due :
      (env : Env) (st : Strategy) (kind : Kind) (paused : Bool) (index : ℕ) (s : BatchStatus)
      → batch_is_pending s && not paused ≡ false
      → Keeps HasCommands (advance_status env st kind paused index s)
  status_not_due env st kind true index BatchStatus.pending h = pure-Keeps _ tt
  status_not_due env st kind false index BatchStatus.pending h = cc
  status_not_due env st kind paused index BatchStatus.running h =
      check_batch-Keeps HasCommands (λ now i s r p d e. e) (λ now k c d e. e) env st kind paused
        index
  status_not_due env st kind paused index BatchStatus.success h = pure-Keeps _ tt
  status_not_due env st kind paused index BatchStatus.failed h = pure-Keeps _ tt
  status_not_due env st kind paused index BatchStatus.skipped h = pure-Keeps _ tt
  status_not_due env st kind paused index BatchStatus.canceled h = pure-Keeps _ tt

  batch_not_due :
      (env : Env) (st : Strategy) (kind : Kind) (paused : Bool) (b : Option BatchRow)
      → is_due paused b ≡ false
      → Keeps HasCommands (advance_batch env st kind paused b)
  batch_not_due env st kind paused none h =
      finish_task-Keeps HasCommands (λ now i s r p d e. e) (λ now k c d e. e) env.now kind
  batch_not_due env st kind paused (some b) h = status_not_due env st kind paused b.index b.status h

not_due :
    (env : Env) (st : Strategy) (kind : Kind) (status : TaskStatus) (d : TaskDb)
    (faults : List Bool)
    → is_due (task_is_paused status) (current_batch d.batches) ≡ false
    → (advance env st kind status (at d faults)).1.db.commands ≡ d.commands
unfolding advance
not_due env st kind status d faults h =
    let paused = task_is_paused status in
    kept (HasCommands d.commands) (advance env st kind status (at d faults)) (
      read_batch-Post (λ u d'. HasCommands d.commands d') (HasCommands d.commands) _ d faults refl
        (λ fs.
          (batch_not_due d.commands env st kind paused (current_batch d.batches) h).keeps d fs refl)
        (λ fs. (batch_not_due d.commands env st kind paused none refl).keeps d fs refl))

-- When a batch is due, the new commands are for its hosts.
due_only :
    (env : Env) (st : Strategy) (kind : Kind) (status : TaskStatus) (d : TaskDb) (b : BatchRow)
    (faults : List Bool)
    → current_batch d.batches ≡ some b
    → b.status ≡ BatchStatus.pending
    → task_is_paused status ≡ false
    → OnlyFor b.index d (advance env st kind status (at d faults)).1.db
unfolding advance
due_only env st kind status d b faults first pending runs =
    kept (OnlyFor b.index d) (advance env st kind status (at d faults)) (
      read_batch-Post (λ u d'. OnlyFor b.index d d') (OnlyFor b.index d) _ d faults
        (OnlyFor-refl b.index d)
        (λ fs. simp (first, pending, runs) (dispatch_batch-OnlyFor b.index d env kind fs))
        (λ fs.
          (finish_task-Keeps (OnlyFor b.index d) (λ now i s r p d' o. o) (λ now k c d' o. o) env.now
              kind).keeps
            d fs (OnlyFor-refl b.index d)))

-- `b` is the first batch of `bs` that is open.
abbrev pub IsFirstOpen : BatchRow → List BatchRow → Type 0
IsFirstOpen b bs =
    (earlier : List BatchRow) × (later : List BatchRow) × (bs ≡ earlier ++ (b ∷ later))
    × All (λ x. is_open x.status ≡ false) earlier
    × (is_open b.status ≡ true)

pub current_batch-IsFirstOpen :
    (bs : List BatchRow) (b : BatchRow) → current_batch bs ≡ some b → IsFirstOpen b bs
unfolding current_batch
current_batch-IsFirstOpen [] b h = cc
current_batch-IsFirstOpen (x ∷ bs) b h = elim (Bool-cases (is_open x.status)) [
  | inl here ↦
      let same : x ≡ b = ground arith in
      ([], bs, ap (λ y. y ∷ bs) same, tt, subst (λ y. is_open y.status ≡ true) same here)
  | inr over ↦
      let (earlier, later, e, all, o) = current_batch-IsFirstOpen bs b (ground arith) in
      (x ∷ earlier, later, ap (λ l. x ∷ l) e, (over, all), o)
]

due_cases :
    (paused : Bool) (o : Option BatchRow)
    → is_due paused o ≡ true
    → (b : BatchRow) × (o ≡ some b) × (b.status ≡ BatchStatus.pending) × (paused ≡ false)
due_cases paused none h = cc
due_cases paused (some b) h = (b, refl, ground arith, ground arith)

-- An advance that changes the commands only adds some, each for a host that waits in the first batch that
-- is not over, and only if that batch is pending, the tick has read the task as not paused, and the
-- task's row is running: batches before it are all finished, skipped or canceled. This holds whatever
-- statements fail.
pub advance_in_order :
    (env : Env) (st : Strategy) (kind : Kind) (status : TaskStatus) (d : TaskDb)
    (faults : List Bool)
    → (advance env st kind status (at d faults)).1.db.commands ≢ d.commands
    → ((b : BatchRow) × IsFirstOpen b d.batches
        × (b.status ≡ BatchStatus.pending)
        × OnlyFor b.index d (advance env st kind status (at d faults)).1.db)
      × (task_is_paused status ≡ false)
      × (task_runs d.task ≡ true)
advance_in_order env st kind status d faults new =
    elim (Bool-cases (is_due (task_is_paused status) (current_batch d.batches))) [
      | inr idle ↦ elim (new (not_due env st kind status d faults idle)) [ ]
      | inl due ↦
          let (b, e, p, n) = due_cases (task_is_paused status) (current_batch d.batches) due in
          (
            (
              b,
              current_batch-IsFirstOpen d.batches b e,
              p,
              due_only env st kind status d b faults e p n,
            ),
            n,
            runs (task_runs d.task) refl,
          )
    ]
  where
    runs : (r : Bool) → task_runs d.task ≡ r → r ≡ true
    runs true h = refl
    runs false h = elim (new (advance_frozen env st kind status d faults h).0) [ ]
