-- ===== src/Task/System/Rights.antt =====
-- The checks before the actions of users (internal/logic/task/dispatch.go, retry.go).
use iflygo.Prelude.{ℕ, ◌≡◌, ◌≢◌, refl, Bool, true, not, ◌||◌, List, some, ◌⊎◌, inl, inr}
use iflygo.Task.Rows.{
  task_can_start, task_can_cancel, task_is_paused, task_is_running, TaskStatus, TaskRow, TaskDb,
}
use iflygo.Task.Db.{at, World, Result, ok, err}
use iflygo.Db.Atomic.{Post}
use iflygo.Access.{allows}
use iflygo.Prelude.Int.{pos, ◌==ℤ◌}
use iflygo.Task.Owner.{Service}
use iflygo.Task.Owner.Reads.{owner_ok, deploy_ok}
use iflygo.Task.Api.{Request, start, promote, pause, cancel}
use iflygo.Task.Api.Writes.{
  IsOpenTo, Does, DoesDeployed, start-Post, promote-Post, pause-Post, cancel-Post, moved, promoted,
  canceled_rows,
}
use iflygo.Task.Retry.{RetryRequest, is_draft, retry}
use iflygo.Task.Retry.Effect.{Retries, IsFound, retry-Post}
use iflygo.Task.System.{
  Action, start_task, promote_task, pause_task, cancel_task, retry_hosts, act, works_from,
  wants_deploy, is_retry,
}

module _ (s : Service) (r : Request) (a : Action) (d : TaskDb) where
  -- The task is in the scope of the request, or the action is a retry, the driver takes an argument too
  -- many and the task's tenant has the number of the task; and the action works from its status.
  abbrev pub IsOpen : Type 0
  IsOpen =
      (t : TaskRow) × (d.task ≡ some t)
      × ((allows r.scope t.tenant ≡ true)
          ⊎ ((is_retry a ≡ true) × (s.takes_extra_args ≡ true) × ((t.tenant ==ℤ pos t.id) ≡ true)))
      × (works_from a t.status ≡ true)

  opened : IsOpenTo r (works_from a) d → IsOpen
  opened (t, e, v, f) = (t, e, inl v, f)

  abbrev pub IsAllowed : Type 0
  IsAllowed =
      (owner_ok s r.scope r.actor d ≡ true)
      × ((not (wants_deploy a) || deploy_ok s r.scope r.actor d) ≡ true)
      × IsOpen

-- An action that is done as it should, or not at all.
rows_cases :
    {A : Type 0} (P : A → TaskDb → Type 0) (Q : Type 0) (d : TaskDb) (rw : Result A × World)
    → ((x : A) (d' : TaskDb) → P x d' → Q)
    → Post P (λ d'. d' ≡ d) rw
    → (rw.1.db ≡ d) ⊎ Q
rows_cases P Q d (ok x, w) f h = inr (f x w.db h)
rows_cases P Q d (err e, w) f h = inl h

started :
    (req : RetryRequest) (st : TaskStatus)
    → not (is_draft st) ≡ true
    → works_from (retry_hosts req) st ≡ true
started req TaskStatus.draft h = cc
started req TaskStatus.running h = refl
started req TaskStatus.paused h = refl
started req TaskStatus.success h = refl
started req TaskStatus.failed h = refl
started req TaskStatus.canceled h = refl
started req TaskStatus.rolled_back h = refl

found_open :
    (s : Service) (host_exists : ℕ → Bool) (req : RetryRequest) (r : Request) (d : TaskDb)
    → IsFound host_exists r req d s
    → IsOpen s r (retry_hosts req) d
unfolding allows
found_open s host_exists req r d (t, e, f, inl all) =
    (t, e, inl (rw all refl), started req t.status f)
found_open s host_exists req r d (t, e, f, inr (takes, own)) =
    (t, e, inr (refl, takes, own), started req t.status f)

pub act-cases :
    (s : Service) (host_exists : ℕ → Bool) (r : Request) (a : Action) (d : TaskDb)
    (faults : List Bool)
    → (act s host_exists r a (at d faults) ≡ d) ⊎ IsAllowed s r a d
act-cases s host_exists r start_task d faults =
    rows_cases (DoesDeployed s r task_can_start (moved r task_can_start TaskStatus.running) d)
      (IsAllowed s r start_task d) d (start s r (at d faults))
      (λ x d' h. (h.0.0, h.1, opened s r start_task d h.0.1)) (start-Post s r d faults)
act-cases s host_exists r promote_task d faults =
    rows_cases (DoesDeployed s r task_is_paused (promoted r) d) (IsAllowed s r promote_task d) d
      (promote s r (at d faults)) (λ x d' h. (h.0.0, h.1, opened s r promote_task d h.0.1))
      (promote-Post s r d faults)
act-cases s host_exists r pause_task d faults =
    rows_cases (Does s r task_is_running (moved r task_is_running TaskStatus.paused) d)
      (IsAllowed s r pause_task d) d (pause s r (at d faults))
      (λ x d' h. (h.0, refl, opened s r pause_task d h.1)) (pause-Post s r d faults)
act-cases s host_exists r cancel_task d faults =
    rows_cases (Does s r task_can_cancel (canceled_rows r) d) (IsAllowed s r cancel_task d) d
      (cancel s r (at d faults)) (λ x d' h. (h.0, refl, opened s r cancel_task d h.1))
      (cancel-Post s r d faults)
act-cases s host_exists r (retry_hosts req) d faults =
    rows_cases (Retries host_exists r req d s) (IsAllowed s r (retry_hosts req) d) d
      (retry s host_exists r req (at d faults))
      (λ x d' h. (h.0, h.1, found_open s host_exists req r d h.2))
      (retry-Post s host_exists r req d faults)

-- An action changes rows only if the policy on the task's creator lets the user work on it, the task is in
-- a status that the action works from and in the scope of the request, and, for a start, a promotion or
-- a retry, the user may deploy. For a retry, the task may also be of the tenant whose number is that of
-- the task, where the driver takes an argument too many. This holds whatever statements fail.
pub act-IsAllowed :
    (s : Service) (host_exists : ℕ → Bool) (r : Request) (a : Action) (d : TaskDb)
    (faults : List Bool)
    → act s host_exists r a (at d faults) ≢ d
    → IsAllowed s r a d
act-IsAllowed s host_exists r a d faults new = elim (act-cases s host_exists r a d faults) [
  | inl same ↦ elim (new same) [ ]
  | inr allowed ↦ allowed
]
