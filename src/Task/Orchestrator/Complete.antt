-- ===== src/Task/Orchestrator/Complete.antt =====
-- `completeBatch` and `finishTask` of internal/logic/task/orchestrator.go under any failures.
use iflygo.Prelude.{
  ℕ, any_of, ltb-count_if, count_if-==-zero, ◌⊎◌, inl, inr, ◌≡◌, refl, Bool, true, false, some,
  List, [], ◌∷◌, map, arith, if◌then◌else◌,
}
use iflygo.Task.Rows.{
  TaskStatus, BatchStatus, Kind, upgrade, command, TaskRow, HostRow, TaskDb, task_is_running,
  host_is_failed, host_is_success, task_is_under_way,
}
use iflygo.Task.Db.{at, ok, ◌>>=◌, transaction, statement, or_default}
use iflygo.Db.Atomic.{Post, statement-Post, exec-Post, exec_if-Post, default-Post, transaction-Post}
use iflygo.Task.Orchestrator.{
  set_task_status, set_batch, complete_batch, roll_back_host, count_results, final_status,
  finish_task,
}

-- The three writes of `completeBatch` at once.
abbrev pub completed : ℕ → ℕ → BatchStatus → Bool → Bool → TaskDb → TaskDb
completed now index status roll_back pause_task d = record d {
  batches = map (set_batch index status now) d.batches;
  hosts = if roll_back then map (roll_back_host index) d.hosts else d.hosts;
  task =
      if pause_task then set_task_status task_is_running TaskStatus.paused now d.task else d.task;
}

complete_batch_calm :
    (now index : ℕ) (status : BatchStatus) (roll_back pause_task : Bool) (d : TaskDb)
    → complete_batch now index status roll_back pause_task (at d [])
      ≡ (ok tt, at (completed now index status roll_back pause_task d) [])
unfolding complete_batch transaction statement ◌>>=◌
complete_batch_calm now index status true true d = refl
complete_batch_calm now index status true false d = refl
complete_batch_calm now index status false true d = refl
complete_batch_calm now index status false false d = refl

pub complete_batch-Post :
    (now index : ℕ) (status : BatchStatus) (roll_back pause_task : Bool) (d : TaskDb)
    (faults : List Bool)
    → Post
        (λ u d'. d' ≡ completed now index status roll_back pause_task d)
        (λ d'. d' ≡ d)
        (complete_batch now index status roll_back pause_task (at d faults))
unfolding complete_batch
complete_batch-Post now index status roll_back pause_task d faults =
    transaction-Post _ _ _ d faults refl (λ f0. exec-Post _ _ _ _ d f0 tt (λ f1.
      exec_if-Post _ _ roll_back _ _ _ f1 tt
        (λ f2. exec_if-Post _ _ pause_task _ _ _ f2 tt (λ f3. ground arith))))

-- `completeBatch` does all its writes (the batch's status, the roll-back of its successful hosts if
-- asked, the pause of a running task if asked) or none: it succeeds where no statement fails, does
-- them whenever it succeeds, and leaves every row as it was whenever it does not.
pub complete_batch_atomic :
    (now index : ℕ) (status : BatchStatus) (roll_back pause_task : Bool) (d : TaskDb)
    (faults : List Bool)
    → (complete_batch now index status roll_back pause_task (at d [])
        ≡ (ok tt, at (completed now index status roll_back pause_task d) []))
      × Post
          (λ u d'. d' ≡ completed now index status roll_back pause_task d)
          (λ d'. d' ≡ d)
          (complete_batch now index status roll_back pause_task (at d faults))
complete_batch_atomic now index status roll_back pause_task d faults = (
  complete_batch_calm now index status roll_back pause_task d,
  complete_batch-Post now index status roll_back pause_task d faults,
)

-- The write of `finishTask` for given counts.
abbrev pub finished : ℕ → Kind → ℕ × ℕ × ℕ → TaskDb → TaskDb
finished now kind counts d = record d {
  task = set_task_status task_is_under_way (final_status kind counts) now d.task;
}

pub finish_task-Post :
    (now : ℕ) (kind : Kind) (d : TaskDb) (faults : List Bool)
    → Post
        (λ u d'.
          (d' ≡ finished now kind (count_results d.hosts) d) ⊎ (d' ≡ finished now kind (0, 0, 0) d))
        (λ d'. d' ≡ d)
        (finish_task now kind (at d faults))
unfolding finish_task
finish_task-Post now kind d faults =
    default-Post _ _ _ _ _ d faults (λ f0. statement-Post _ _ _ d f0 (inl refl) refl)
      (λ f0. statement-Post _ _ _ d f0 (inr refl) refl)

-- The outcome of a task by its hosts.
abbrev pub outcome : Kind → List HostRow → TaskStatus
outcome upgrade hosts =
    if any_of (λ h. host_is_failed h.status) hosts then TaskStatus.failed else TaskStatus.success
outcome command [] = TaskStatus.success
outcome command (h ∷ hosts) =
    if any_of (λ h'. host_is_failed h'.status) (h ∷ hosts)
    then TaskStatus.failed
    else if any_of (λ h'. host_is_success h'.status) (h ∷ hosts)
    then TaskStatus.success
    else TaskStatus.failed

final_status-outcome :
    (kind : Kind) (hosts : List HostRow)
    → final_status kind (count_results hosts) ≡ outcome kind hosts
unfolding final_status count_results
final_status-outcome upgrade hosts =
    rw (ltb-count_if (λ h. host_is_failed h.status) hosts) (ground arith)
final_status-outcome command [] = refl
final_status-outcome command (h ∷ hosts) = ground (
  arith,
  ltb-count_if (λ h'. host_is_failed h'.status) (h ∷ hosts),
  count_if-==-zero (λ h'. host_is_success h'.status) (h ∷ hosts),
  ltb-count_if (λ h'. true) (h ∷ hosts),
)

-- Where no statement fails, `finishTask` gives a task that is running or paused its outcome and
-- changes nothing else: an upgrade has failed if one of its hosts failed, timed out or was
-- canceled; a command task also if it has hosts and none of them succeeded.
pub finish_task_lem :
    (now : ℕ) (kind : Kind) (d : TaskDb)
    → finish_task now kind (at d []) ≡ (
      ok tt,
      at
          (record d { task = set_task_status task_is_under_way (outcome kind d.hosts) now d.task })
          [],
    )
unfolding finish_task statement ◌>>=◌ or_default
finish_task_lem now kind d = rw (final_status-outcome kind d.hosts)

-- A failure of the count alone hides every failed host: an upgrade that is running or paused ends
-- in `success`, whatever its hosts did.
pub finish_task_hides_failures :
    (now : ℕ) (d : TaskDb) (t : TaskRow) (faults : List Bool)
    → d.task ≡ some t
    → task_is_under_way t.status ≡ true
    → (finish_task now upgrade (at d (true ∷ false ∷ faults))).1.db.task
      ≡ some (record t { status = TaskStatus.success; updated_at = now })
unfolding finish_task final_status statement ◌>>=◌ or_default
finish_task_hides_failures now d t faults h u = ground arith
