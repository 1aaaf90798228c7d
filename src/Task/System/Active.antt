-- ===== src/Task/System/Active.antt =====
-- At most one active command per host, in any history of a task (internal/logic/task).
use iflygo.Prelude.{ℕ, ◌≡◌, refl, sym, subst, ◌≤◌, inl, inr, Bool, List, [], ◌∷◌, map, arith}
use iflygo.Task.Rows.{
  CommandRow, TaskDb, TaskStatus, task_can_start, task_can_cancel, task_is_paused, task_is_running,
}
use iflygo.Task.Db.{at, Result, World}
use iflygo.Db.Atomic.{Post}
use iflygo.Db.Keeps.{kept, weaken}
use iflygo.Task.Owner.{Service}
use iflygo.Task.Api.{Request, start, promote, pause, cancel, cancel_command, update_task}
use iflygo.Task.Api.Writes.{
  Does, DoesDeployed, moved, promoted, canceled_rows, start-Post, promote-Post, pause-Post,
  cancel-Post,
}
use iflygo.Task.Retry.{retry}
use iflygo.Task.Retry.Effect.{Retries, retry-Post, to_reset}
use iflygo.Task.Retry.Hosts.{reset_all_lem}
use iflygo.Task.Advance.Safety.{active_for, OneActive, advance-OneActive}
use iflygo.Task.Reconcile.{Pairwise, MayEnd}
use iflygo.Task.System.{
  Action, start_task, promote_task, pause_task, cancel_task, retry_hosts, act, Step, tick_step,
  reconcile_step, act_step, Reach, here, next,
}

active_for-cancel :
    (now id : ℕ) (commands : List CommandRow)
    → active_for id (map (cancel_command now) commands) ≡ 0
active_for-cancel now id [] = refl
active_for-cancel now id (c ∷ commands) = ground (arith, active_for-cancel now id commands)

-- No more commands are active than in the given rows.
abbrev NoNew : TaskDb → TaskDb → Type 0
NoNew d d' = (id : ℕ) → active_for id d'.commands ≤ active_for id d.commands

no_new :
    {A : Type 0} (P : A → TaskDb → Type 0) (d : TaskDb) (rw : Result A × World)
    → Post P (λ d'. d' ≡ d) rw
    → ((x : A) (d' : TaskDb) → P x d' → NoNew d d')
    → NoNew d rw.1.db
no_new P d rw h f =
    kept (NoNew d) rw (
      weaken (NoNew d) P (λ d'. d' ≡ d) rw h f
        (λ d' e. subst (NoNew d) (sym e) (λ id. omega arith)))

act-NoNew :
    (s : Service) (host_exists : ℕ → Bool) (r : Request) (a : Action) (d : TaskDb)
    (faults : List Bool)
    → NoNew d (act s host_exists r a (at d faults))
unfolding update_task
act-NoNew s host_exists r start_task d faults =
    no_new (DoesDeployed s r task_can_start (moved r task_can_start TaskStatus.running) d) d
      (start s r (at d faults)) (start-Post s r d faults)
      (λ x d' h. subst (NoNew d) (sym h.0.2) (λ id. omega arith))
act-NoNew s host_exists r promote_task d faults =
    no_new (DoesDeployed s r task_is_paused (promoted r) d) d (promote s r (at d faults))
      (promote-Post s r d faults) (λ x d' h. subst (NoNew d) (sym h.0.2) (λ id. omega arith))
act-NoNew s host_exists r pause_task d faults =
    no_new (Does s r task_is_running (moved r task_is_running TaskStatus.paused) d) d
      (pause s r (at d faults)) (pause-Post s r d faults)
      (λ x d' h. subst (NoNew d) (sym h.2) (λ id. omega arith))
act-NoNew s host_exists r cancel_task d faults =
    no_new (Does s r task_can_cancel (canceled_rows r) d) d (cancel s r (at d faults))
      (cancel-Post s r d faults)
      (λ x d' h.
        subst (NoNew d) (sym h.2) (λ id. omega (arith, active_for-cancel r.now id d.commands)))
act-NoNew s host_exists r (retry_hosts req) d faults =
    no_new (Retries host_exists r req d s) d (retry s host_exists r req (at d faults))
      (retry-Post s host_exists r req d faults)
      (λ x d' h. subst (NoNew d) (sym h.4) (reset_all_lem r (to_reset host_exists r req d) d).1)

active_for-ended :
    (id : ℕ) (cs cs' : List CommandRow)
    → Pairwise MayEnd cs cs'
    → active_for id cs' ≤ active_for id cs
active_for-ended id [] [] h = omega arith
active_for-ended id [] (c' ∷ cs') h = absurd h
active_for-ended id (c ∷ cs) [] h = absurd h
active_for-ended id (c ∷ cs) (c' ∷ cs') (inl same, rest) =
    let ih = active_for-ended id cs cs' rest in rw same (omega arith)
active_for-ended id (c ∷ cs) (c' ∷ cs') (inr (hand, ended, host), rest) =
    let ih = active_for-ended id cs cs' rest in simp ended (ground arith)

module _ (s : Service) (host_exists : ℕ → Bool) (allowed : Action → Bool) where
  Step-OneActive : {d d' : TaskDb} → Step s host_exists allowed d d' → OneActive d → OneActive d'
  Step-OneActive (tick_step env st kind status d faults) one =
      advance-OneActive env st kind status d faults one
  Step-OneActive (reconcile_step d d' h) one =
      λ id. omega (arith, one id, active_for-ended id d.commands d'.commands h.2)
  Step-OneActive (act_step r a d faults h) one =
      λ id. omega (arith, one id, act-NoNew s host_exists r a d faults id)

-- If every host has at most one active command, then so it is after any sequence of reconciliations,
-- advances of the orchestrator and actions of users, whatever statements fail in them.
pub Reach-OneActive :
    (s : Service) (host_exists : ℕ → Bool) (allowed : Action → Bool) (d d' : TaskDb)
    → OneActive d
    → Reach s host_exists allowed d d'
    → OneActive d'
Reach-OneActive s host_exists allowed d _ one here = one
Reach-OneActive s host_exists allowed d d' one (next {d1} path step) =
    Step-OneActive s host_exists allowed step (Reach-OneActive s host_exists allowed d d1 one path)
