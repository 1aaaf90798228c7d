-- ===== src/Task/Retry.antt =====
-- Another run of hosts (internal/logic/task/retry.go).
pub mod Effect
pub mod Hosts
use iflygo.Prelude.{
  ℕ, ◌+◌, String, Bool, true, false, not, Option, none, some, List, [], ◌∷◌, ◌++◌, map, str_eq,
  ◌==◌, ◌&&◌, ◌||◌, if◌then◌else◌, ltb, leb, length, any_of, keep_if, count_if,
}
use iflygo.Prelude.Int.{pos, ◌==ℤ◌}
use iflygo.Access.{Scope}
use iflygo.Task.Rows.{
  TaskStatus, BatchStatus, HostStatus, CommandStatus, LogLine, TaskRow, BatchRow, HostRow,
  CommandRow, TaskDb, is_active, batch_is_pending,
}
use iflygo.Task.Db.{
  database, not_found, bad_status, too_many, Db, pure, fail, query, exec, ◌>>=◌, ◌>>◌, Outcome,
  commit, transaction, unless_error,
}
use iflygo.Task.Owner.{Service, check_task_owner, check_task_deploy}
use iflygo.Task.Api.{Request, updated_by}

pub record RetryRequest : Type 0 where
  pub task_host_ids : List ℕ
  pub force : Bool

pub data SkipReason : Type 0 where
  queued still_running succeeded not_in_task : SkipReason

pub record RetryResult : Type 0 where
  pub reset : ℕ
  pub skipped : List (ℕ × SkipReason)
  pub status : TaskStatus

abbrev pub is_in : ℕ → List ℕ → Bool
is_in id = any_of (λ x. x == id)

-- The request names hosts.
abbrev pub is_explicit : RetryRequest → Bool
is_explicit req = ltb 0 (length req.task_host_ids)

abbrev lease_after : ℕ → Option ℕ → Bool
lease_after now none = false
lease_after now (some t) = ltb now t

-- `has_live`: an active command whose lease has not run out.
unfoldable pub has_live : ℕ → List CommandRow → ℕ → Bool
has_live now commands id =
    any_of (λ c. c.task_host == id && (is_active c.status && lease_after now c.lease_expire_at))
      commands

-- Why a host is not reset, or `none` if it is.
unfoldable pub retry_refusal : RetryRequest → (live : Bool) → HostStatus → Option SkipReason
retry_refusal req live HostStatus.pending = if is_explicit req then none else some queued
retry_refusal req live HostStatus.running =
    if live then (if is_explicit req && req.force then none else some still_running) else none
retry_refusal req live HostStatus.success =
    if is_explicit req && req.force then none else some succeeded
retry_refusal req live _ = none

-- The rows that the query finds: those with a host in the table, and of those named, if any are.
abbrev pub is_selected : (host_exists : ℕ → Bool) → RetryRequest → HostRow → Bool
is_selected host_exists req h =
    host_exists h.host_id && (not (is_explicit req) || is_in h.id req.task_host_ids)

abbrev file_row :
    HostRow
    → Option SkipReason
    → List HostRow
    → List (ℕ × SkipReason)
    → List HostRow × List (ℕ × SkipReason)
file_row h none rows skipped = (h ∷ rows, skipped)
file_row h (some reason) rows skipped = (rows, (h.id, reason) ∷ skipped)

-- The loop over the rows: the rows to reset, and the ids that are skipped with a reason.
unfoldable pub judge :
    (now : ℕ) → List CommandRow → RetryRequest → List HostRow → List HostRow × List (ℕ × SkipReason)
judge now commands req [] = ([], [])
judge now commands req (h ∷ hs) =
    let (rows, skipped) = judge now commands req hs in
    file_row h (retry_refusal req (has_live now commands h.id) h.status) rows skipped

-- The named ids that were not found.
abbrev unknown_ids : List HostRow → List ℕ → List (ℕ × SkipReason)
unknown_ids found [] = []
unknown_ids found (id ∷ ids) =
    let rest = unknown_ids found ids in
    if any_of (λ h. h.id == id) found then rest else (id, not_in_task) ∷ rest

abbrev pub drop_command : ℕ → List ℕ → CommandRow → CommandRow
drop_command now ids c =
    if is_in c.task_host ids && is_active c.status
    then record c { status = CommandStatus.canceled; finished_at = some now }
    else c

abbrev pub reset_host : ℕ → List ℕ → HostRow → HostRow
reset_host now ids h =
    if is_in h.id ids
    then record h {
      status = HostStatus.pending;
      stage = "";
      exit_code = pos 0;
      started_at = some now;
      finished_at = none;
      attempts = h.attempts + 1;
      log = h.log ++ (LogLine.reset now ∷ []);
    }
    else h

abbrev pub reset_batch : List ℕ → BatchRow → BatchRow
reset_batch indexes b =
    if is_in b.index indexes && not (batch_is_pending b.status)
    then record b { status = BatchStatus.pending; started_at = none; finished_at = none }
    else b

abbrev pub is_draft : TaskStatus → Bool
is_draft TaskStatus.draft = true
is_draft _ = false

abbrev pub run_again : Request → Option TaskRow → Option TaskRow
run_again r none = none
run_again r (some t) =
    if is_draft t.status
    then some t
    else some (record t {
      status = TaskStatus.running;
      updated_at = r.now;
      updated_by = updated_by r.operator t.updated_by;
    })

abbrev pub reset_rows :
    Request
    → List HostRow
    → (skipped : List (ℕ × SkipReason)) → TaskStatus
    → Db (Outcome RetryResult)
reset_rows r [] skipped status =
    pure (commit (record { reset = 0; skipped = skipped; status = status }))
reset_rows r (h ∷ rows) skipped status = do
  exec (λ d. record d {
    commands = map (drop_command r.now (map (λ x. x.id) (h ∷ rows))) d.commands;
  })
  exec (λ d. record d { hosts = map (reset_host r.now (map (λ x. x.id) (h ∷ rows))) d.hosts })
  exec (λ d. record d { batches = map (reset_batch (map (λ x. x.batch) (h ∷ rows))) d.batches })
  exec (λ d. record d { task = run_again r d.task })
  pure (
      commit (record { reset = length (h ∷ rows); skipped = skipped; status = TaskStatus.running }))

-- The transaction; its first query only locks the batches.
abbrev pub retry_rows :
    (host_exists : ℕ → Bool) → Request → RetryRequest → TaskStatus → Db (Outcome RetryResult)
retry_rows host_exists r req status = do
  exec (λ d. d)
  (found, commands) ← query (λ d. (keep_if (is_selected host_exists req) d.hosts, d.commands))
  reset_rows r (judge r.now commands req found).0
      ((judge r.now commands req found).1 ++ unknown_ids found req.task_host_ids) status

abbrev pub retry_task :
    (host_exists : ℕ → Bool) → Request → RetryRequest → Option TaskRow → Db RetryResult
retry_task host_exists r req none = fail not_found
retry_task host_exists r req (some t) =
    unless_error (not (is_draft t.status)) bad_status
    >> transaction (retry_rows host_exists r req t.status)

abbrev pub row_if : Bool → TaskRow → Option TaskRow
row_if b t = if b then some t else none

abbrev pub own_id_row : Option TaskRow → Option TaskRow
own_id_row none = none
own_id_row (some t) = row_if (t.tenant ==ℤ pos t.id) t

-- The read of the task. Where the scope is of one tenant, the condition is `tenant_id = $1`, and `$1` is
-- the task's id; the tenant is an argument too many.
unfoldable pub read_task : Service → Scope → Db (Option TaskRow)
read_task s sc =
    if sc.cross_tenant
    then query (λ d. d.task)
    else if s.takes_extra_args
    then query (λ d. own_id_row d.task)
    else fail database

-- `Retry`; `host_exists` is the table of hosts, which the query joins.
unfoldable pub retry : Service → (host_exists : ℕ → Bool) → Request → RetryRequest → Db RetryResult
retry s host_exists r req = do
  check_task_owner s r.scope r.actor
  check_task_deploy s r.scope r.actor
  unless_error (leb (length req.task_host_ids) 5000) too_many
  t ← read_task s r.scope
  retry_task host_exists r req t
