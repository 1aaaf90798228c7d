-- ===== src/Task/System/Final.antt =====
-- The end of a task is final, but for a retry (internal/logic/task).
use iflygo.Prelude.{
  ℕ, ◌≡◌, refl, sym, subst, ◌∙◌, Bool, true, false, not, some, List, [], ◌∷◌, map, arith, All, inl,
  inr,
}
use iflygo.Task.Rows.{CommandRow, TaskRow, TaskDb, TaskStatus, is_active, task_can_cancel}
use iflygo.Task.Db.{at, Result, World, ok, err}
use iflygo.Db.Atomic.{Post}
use iflygo.Task.Owner.{Service}
use iflygo.Task.Api.{Request, updated_by, cancel, update_task, batch_in_work, host_in_work}
use iflygo.Task.Api.Writes.{Does, IsOpenTo, canceled_rows, cancel-Post}
use iflygo.Task.Advance.Safety.{advance_frozen, advance_ended}
use iflygo.Task.Orchestrator.Dispatch.{task_runs}
use iflygo.Task.Reconcile.{
  Pairwise, Pairwise-refl, Pairwise-trans, MayEnd, MayEnd-refl, MayEnd-trans,
}
use iflygo.Task.System.{
  Action, start_task, promote_task, pause_task, cancel_task, retry_hosts, act, is_retry, works_from,
  Step, tick_step, reconcile_step, act_step, Reach, here, next,
}
use iflygo.Task.System.Rights.{act-cases}

-- The row and the commands of an ended task.
abbrev IsEnd : TaskRow → List CommandRow → TaskDb → Type 0
IsEnd t commands d = (d.task ≡ some t) × (d.commands ≡ commands)

ended_rest :
    (a : Action) (st : TaskStatus)
    → not (is_retry a) ≡ true
    → task_can_cancel st ≡ false
    → works_from a st ≡ false
ended_rest start_task st h e = ground arith
ended_rest promote_task st h e = ground arith
ended_rest pause_task st h e = ground arith
ended_rest cancel_task st h e = e
ended_rest (retry_hosts req) st h e = cc

act-IsEnd :
    (s : Service) (host_exists : ℕ → Bool) (r : Request) (a : Action) (t : TaskRow)
    (commands : List CommandRow) (d : TaskDb) (faults : List Bool)
    → not (is_retry a) ≡ true
    → task_can_cancel t.status ≡ false
    → IsEnd t commands d
    → IsEnd t commands (act s host_exists r a (at d faults))
act-IsEnd s host_exists r a t commands d faults h e i =
    elim (act-cases s host_exists r a d faults) [
      | inl same ↦ subst (IsEnd t commands) (sym same) i
      | inr allowed ↦
          let (t', e', v, f) = allowed.2 in
          let idle : works_from a t.status ≡ false = ended_rest a t.status h e in
          let same : some t' ≡ some t = sym e' ∙ i.0 in cc
    ]

-- The row of an ended task, and commands that at most have ended since.
abbrev IsOver : TaskRow → List CommandRow → TaskDb → Type 0
IsOver t commands d = (d.task ≡ some t) × Pairwise MayEnd commands d.commands

module _ (s : Service) (host_exists : ℕ → Bool) where
  Step-IsOver :
      (t : TaskRow) (commands : List CommandRow) {d d' : TaskDb}
      → Step s host_exists (λ a. not (is_retry a)) d d'
      → task_can_cancel t.status ≡ false
      → IsOver t commands d
      → IsOver t commands d'
  Step-IsOver t commands (tick_step env st kind status d faults) e i =
      let idle : task_runs d.task ≡ false = rw i.0 (ground arith) in
      (
        advance_ended env st kind status d t faults i.0 (ground arith),
        subst (Pairwise MayEnd commands) (sym (advance_frozen env st kind status d faults idle).0)
            i.1,
      )
  Step-IsOver t commands (reconcile_step d d' (task, batches, ends, settles)) e i =
      (task ∙ i.0, Pairwise-trans MayEnd MayEnd-trans commands d.commands d'.commands i.1 ends)
  Step-IsOver t commands (act_step r a d faults h) e i =
      let (same, rest) = act-IsEnd s host_exists r a t d.commands d faults h e (i.0, refl) in
      (same, subst (Pairwise MayEnd commands) (sym rest) i.1)

-- Once a task is neither a draft nor running nor paused, its row stays as it is, no command is made for
-- it, and each of its commands stays as it is or, where it was in hand, ends by a reconciliation, through
-- any sequence of reconciliations, advances and actions other than a retry, whatever statements fail.
pub ended_final :
    (s : Service) (host_exists : ℕ → Bool) (t : TaskRow) (d d' : TaskDb)
    → d.task ≡ some t
    → task_can_cancel t.status ≡ false
    → Reach s host_exists (λ a. not (is_retry a)) d d'
    → (d'.task ≡ some t) × Pairwise MayEnd d.commands d'.commands
ended_final s host_exists t d _ h e here = (h, Pairwise-refl MayEnd MayEnd-refl d.commands)
ended_final s host_exists t d d' h e (next {d1} path step) =
    Step-IsOver s host_exists t d.commands step e (ended_final s host_exists t d d1 h e path)

-- What `Cancel` leaves: nothing that is in work, and no active command.
abbrev pub IsCanceled : TaskDb → Type 0
IsCanceled d =
    All (λ b. batch_in_work b.status ≡ false) d.batches
    × All (λ h. host_in_work h.status ≡ false) d.hosts
    × All (λ c. is_active c.status ≡ false) d.commands
    × ((t : TaskRow) × (d.task ≡ some t) × (t.status ≡ TaskStatus.canceled))

All-map :
    {A B : Type 0} (P : B → Type 0) (g : A → B)
    → ((x : A) → P (g x))
    → (xs : List A) → All P (map g xs)
All-map P g f [] = tt
All-map P g f (x ∷ xs) = (f x, All-map P g f xs)

canceled_rows-IsCanceled :
    (r : Request) (d : TaskDb) → IsOpenTo r task_can_cancel d → IsCanceled (canceled_rows r d)
unfolding update_task
canceled_rows-IsCanceled r d (t, e, v, f) = (
  All-map _ _ (λ b. ground arith) d.batches,
  All-map _ _ (λ h. ground arith) d.hosts,
  All-map _ _ (λ c. ground arith) d.commands,
  (
    record t {
      status = TaskStatus.canceled;
      updated_at = r.now;
      updated_by = updated_by r.operator t.updated_by;
    },
    simp (e, v, f) refl,
    refl,
  ),
)

-- A cancellation that succeeds, with or without failures before, leaves no batch and no host that
-- is pending or running and no active command, and the task is canceled; one that does not succeed
-- leaves every row as it was.
pub cancel_ends :
    (s : Service) (r : Request) (d : TaskDb) (faults : List Bool)
    → Post (λ u d'. IsCanceled d') (λ d'. d' ≡ d) (cancel s r (at d faults))
cancel_ends s r d faults = go (cancel s r (at d faults)) (cancel-Post s r d faults)
  where
    go :
        (rw : Result (Unit {0}) × World)
        → Post (Does s r task_can_cancel (canceled_rows r) d) (λ d'. d' ≡ d) rw
        → Post (λ u d'. IsCanceled d') (λ d'. d' ≡ d) rw
    go (ok u, w) (o, opened, same) =
        subst IsCanceled (sym same) (canceled_rows-IsCanceled r d opened)
    go (err e, w) same = same
