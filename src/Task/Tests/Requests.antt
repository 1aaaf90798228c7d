-- ===== src/Task/Tests/Requests.antt =====
-- Examples of dispatch.go, retry.go and task.go.
use iflygo.Prelude.{◌≡◌, ◌≢◌, refl, true, false, some, [], ◌∷◌, arith, map, max, inl, inr}
use iflygo.Prelude.Int.{pos}
use iflygo.Access.{allows, has_role, is_super_admin}
use iflygo.Task.Rows.{TaskStatus, HostStatus, CommandStatus, TaskDb}
use iflygo.Task.Db.{Error, err, at, statement, ◌>>=◌, or_default}
use iflygo.Db.Atomic.{Post}
use iflygo.Task.Owner.{check_task_owner, visible_task, is_privileged, owner_mode_for}
use iflygo.Task.Owner.Checks.{bulk_checks, bulk_checks-check_task_owner, owner_allows}
use iflygo.Task.Api.{Request, cancel, pause, update_task}
use iflygo.Task.Retry.{RetryRequest, retry}
use iflygo.Task.Retry.Effect.{retry-Post, Retries, retry_scoped_refused}
use iflygo.Task.Reconcile.{Pairwise, MayEnd}
use iflygo.Task.System.{
  act, pause_task, cancel_task, retry_hosts, Reach, here, next, reconcile_step, act_step,
}
use iflygo.Task.System.Rights.{act-IsAllowed, IsAllowed}
use iflygo.Task.System.Active.{Reach-OneActive}
use iflygo.Task.System.Final.{ended_final, cancel_ends, IsCanceled}
use iflygo.Task.Advance.Safety.{OneActive}
use iflygo.Task.Batches.{
  SplitStrategy, canary, split_batches, split_rest, canary_size, regular_size, size_or_all,
}
use iflygo.Task.Batches.Sizes.{split_batches_lem, total_of, Within}
use iflygo.Task.Tests.{
  fresh, in_first, in_last, over, a_request, a_service, any_host, a_task, a_user, a_command,
}

abbrev retry_one : RetryRequest
retry_one = record { task_host_ids = 2 ∷ []; force = false }

-- A request of all tenants.
abbrev of_all : Request
of_all = record (a_request "ann") { scope = record { tenant_id = pos 2; cross_tenant = true } }

-- The first host has failed, but its command is still in hand.
abbrev unreported : TaskDb
unreported = record (in_first HostStatus.failed) {
  commands = a_command 1 CommandStatus.running ∷ [];
}

abbrev paused : TaskDb
paused = act a_service any_host (a_request "ann") pause_task (at (in_first HostStatus.failed) [])

-- A reconciliation, a pause, and a retry of a host.
abbrev a_path :
    Reach a_service any_host
      (λ a. true)
      unreported
      (act a_service any_host of_all (retry_hosts retry_one) (at paused []))
a_path =
    next
      (next
        (next here (
          reconcile_step unreported (in_first HostStatus.failed)
            (refl, refl, (inr (refl, refl, refl), tt), (inl refl, (inl refl, tt)))))
        (act_step (a_request "ann") pause_task (in_first HostStatus.failed) [] refl))
      (act_step of_all (retry_hosts retry_one) paused [] refl)

one_active : OneActive unreported
one_active id = ground arith

Reach-OneActive_example :
    OneActive (act a_service any_host of_all (retry_hosts retry_one) (at paused []))
Reach-OneActive_example =
    Reach-OneActive a_service any_host (λ a. true) unreported _ one_active a_path

pauses : act a_service any_host (a_request "ann") pause_task (at fresh []) ≢ fresh
unfolding pause update_task check_task_owner visible_task is_privileged owner_mode_for allows
    has_role is_super_admin statement ◌>>=◌ or_default
pauses e = cc

act-IsAllowed_example : IsAllowed a_service (a_request "ann") pause_task fresh
act-IsAllowed_example =
    act-IsAllowed a_service any_host (a_request "ann") pause_task fresh [] pauses

ended_final_example :
    let d' = act a_service any_host (a_request "ann") cancel_task (at over []) in
    (d'.task ≡ some (a_task TaskStatus.canceled)) × Pairwise MayEnd over.commands d'.commands
ended_final_example =
    ended_final a_service any_host (a_task TaskStatus.canceled) over
      (act a_service any_host (a_request "ann") cancel_task (at over [])) refl refl
      (next here (act_step (a_request "ann") cancel_task over [] refl))

cancel_ends_example :
    Post
      (λ u d'. IsCanceled d')
      (λ d'. d' ≡ fresh)
      (cancel a_service (a_request "ann") (at fresh (false ∷ false ∷ [])))
cancel_ends_example = cancel_ends a_service (a_request "ann") fresh (false ∷ false ∷ [])

retry-Post_example :
    Post
      (Retries any_host of_all retry_one in_last a_service)
      (λ d'. d' ≡ in_last)
      (retry a_service any_host of_all retry_one (at in_last (false ∷ true ∷ [])))
retry-Post_example = retry-Post a_service any_host of_all retry_one in_last (false ∷ true ∷ [])

retry_scoped_refused_example :
    (e : Error) × ((retry a_service any_host (a_request "ann") retry_one (at in_last [])).0 ≡ err e)
    × ((retry a_service any_host (a_request "ann") retry_one (at in_last [])).1.db ≡ in_last)
retry_scoped_refused_example =
    retry_scoped_refused a_service any_host (a_request "ann") retry_one in_last [] refl refl

bulk_checks_example :
    bulk_checks a_service (some (a_user "bob")) ("ann" ∷ "ann" ∷ [])
    ≡ map
        (owner_allows a_service (a_request "bob").scope (some (a_user "bob")) fresh)
        (a_task TaskStatus.running ∷ a_task TaskStatus.paused ∷ [])
unfolding allows
bulk_checks_example =
    bulk_checks-check_task_owner a_service (a_request "bob").scope (some (a_user "bob")) fresh
      (a_task TaskStatus.running ∷ a_task TaskStatus.paused ∷ []) (refl, (refl, tt))

abbrev tenths : SplitStrategy
tenths = record { mode = canary; canary_count = pos 1; batch_size = pos 4 }

split_batches_example :
    (total_of (split_batches 10 tenths) ≡ 10)
    × Within
        (max (canary_size 10 tenths) (size_or_all (regular_size 10 tenths) 10))
        (split_batches 10 tenths)
split_batches_example = split_batches_lem 10 tenths

split_batches_run : split_batches 10 tenths ≡ 1 ∷ 4 ∷ 4 ∷ 1 ∷ []
unfolding split_batches canary_size regular_size split_rest
split_batches_run = refl
