-- ===== src/Task/Advance/Close.antt =====
-- The end of a batch (`advance` of internal/logic/task/orchestrator.go): the batch waits for all of
-- its hosts, and then the task goes on, pauses or ends.
use iflygo.Prelude.{
  ℕ, ◌≡◌, refl, Bool, true, false, not, ◌&&◌, some, List, [], ◌∷◌, arith, if◌then◌else◌, ◌==◌, ltb,
  count_if, any_of, ◌≤◌,
}
use iflygo.Task.Rows.{
  TaskStatus, BatchStatus, Kind, BatchRow, HostRow, TaskDb, task_is_paused, task_is_under_way,
  host_is_done,
}
use iflygo.Task.Db.{at, ok, ◌>>=◌, statement, or_default}
use iflygo.Task.Orchestrator.{
  Strategy, current_batch, batch_progress, has_pending_after, set_task_status,
}
use iflygo.Task.Orchestrator.Complete.{completed, complete_batch_atomic, finish_task_lem, outcome}
use iflygo.Task.Orchestrator.Dispatch.{Env}
use iflygo.Task.Advance.{advance, check_batch, close_batch}

-- Some host of the batch is not done.
abbrev pub waits_for : ℕ → List HostRow → Bool
waits_for index = any_of (λ h. h.batch == index && not (host_is_done h.status))

count_done :
    (index : ℕ) (hosts : List HostRow)
    → count_if (λ h. h.batch == index && host_is_done h.status) hosts
      ≤ count_if (λ h. h.batch == index) hosts
count_done index [] = omega arith
count_done index (h ∷ hosts) = ground (arith, count_done index hosts)

pub waits_for_lem :
    (index : ℕ) (hosts : List HostRow)
    → ltb
        (count_if (λ h. h.batch == index && host_is_done h.status) hosts)
        (count_if (λ h. h.batch == index) hosts)
      ≡ waits_for index hosts
waits_for_lem index [] = refl
waits_for_lem index (h ∷ hosts) = ground (arith, waits_for_lem index hosts, count_done index hosts)

-- The share of failed hosts is over the strategy's threshold.
abbrev pub batch_fails : Strategy → ℕ → List HostRow → Bool
unfolding batch_progress
batch_fails st index hosts =
    let (total, done, failed) = batch_progress index hosts in st.exceeds failed total

-- A batch ends: has it failed, and does a pending one follow?
abbrev pub ended_as : Env → Strategy → Kind → Bool → ℕ → (fails more : Bool) → TaskDb → TaskDb
ended_as env st kind paused index true true d =
    completed env.now index BatchStatus.failed st.auto_rollback (not paused) d
ended_as env st kind paused index false true d =
    completed env.now index BatchStatus.success false (not (st.auto_promote && not paused)) d
ended_as env st kind paused index fails false d =
    let d1 =
      completed env.now index (if fails then BatchStatus.failed else BatchStatus.success)
        (fails && st.auto_rollback) false d in
    record d1 { task = set_task_status task_is_under_way (outcome kind d1.hosts) env.now d1.task }

abbrev pub ended : Env → Strategy → Kind → Bool → ℕ → TaskDb → TaskDb
ended env st kind paused index d =
    ended_as env st kind paused index (batch_fails st index d.hosts)
      (has_pending_after index d.batches) d

and_true : (b : Bool) → (b && true) ≡ b
and_true true = refl
and_true false = refl

pub and_false : (b : Bool) → (b && false) ≡ false
and_false true = refl
and_false false = refl

pub close_batch_calm :
    (env : Env) (st : Strategy) (kind : Kind) (paused : Bool) (index : ℕ) (d : TaskDb)
    (fails more : Bool)
    → close_batch env st kind paused index fails (not more) (at d [])
      ≡ (ok tt, at (ended_as env st kind paused index fails more d) [])
unfolding close_batch ◌>>=◌
close_batch_calm env st kind paused index d true true = rw (
  and_true (not paused),
  (complete_batch_atomic env.now index BatchStatus.failed st.auto_rollback (not paused) d []).0,
)
close_batch_calm env st kind paused index d true false = rw (
  and_false (not paused),
  (complete_batch_atomic env.now index BatchStatus.failed st.auto_rollback false d []).0,
  finish_task_lem env.now kind
      (completed env.now index BatchStatus.failed st.auto_rollback false d),
)
close_batch_calm env st kind paused index d false true = rw (
  and_true (not (st.auto_promote && not paused)),
  (complete_batch_atomic env.now index BatchStatus.success false
      (not (st.auto_promote && not paused)) d []).0,
)
close_batch_calm env st kind paused index d false false = rw (
  and_false (not (st.auto_promote && not paused)),
  (complete_batch_atomic env.now index BatchStatus.success false false d []).0,
  finish_task_lem env.now kind (completed env.now index BatchStatus.success false false d),
)

check_batch_calm :
    (env : Env) (st : Strategy) (kind : Kind) (paused : Bool) (index : ℕ) (d : TaskDb)
    → waits_for index d.hosts ≡ false
    → check_batch env st kind paused index (at d [])
      ≡ (ok tt, at (ended env st kind paused index d) [])
unfolding check_batch batch_progress ◌>>=◌ statement or_default
check_batch_calm env st kind paused index d over = rw (
  waits_for_lem index d.hosts,
  over,
  close_batch_calm env st kind paused index d (batch_fails st index d.hosts)
      (has_pending_after index d.batches),
)

-- A running batch whose hosts are all done ends, where no statement fails: as failed if the share of
-- failed hosts is over the threshold, with the roll-back of its successful hosts if the strategy
-- asks for it, and else as passed. If a pending batch follows, a running task is paused, unless the
-- batch passed and the strategy promotes by itself; if none follows, the task gets its outcome by
-- the rows of its hosts.
pub advance_ends :
    (env : Env) (st : Strategy) (kind : Kind) (status : TaskStatus) (d : TaskDb) (b : BatchRow)
    → current_batch d.batches ≡ some b
    → b.status ≡ BatchStatus.running
    → waits_for b.index d.hosts ≡ false
    → advance env st kind status (at d [])
      ≡ (ok tt, at (ended env st kind (task_is_paused status) b.index d) [])
unfolding advance ◌>>=◌ statement or_default
advance_ends env st kind status d b first running over =
    simp (first, running) (check_batch_calm env st kind (task_is_paused status) b.index d over)
