-- ===== src/Task/Api/Writes.antt =====
-- What a request changes (internal/logic/task/dispatch.go), whatever statements fail.
use iflygo.Prelude.{
  ◌≡◌, refl, sym, subst, ◌∙◌, Bool, true, false, not, Option, none, some, List, [], map, arith,
  ◌==◌, if◌then◌else◌, Bool-cases, inl, inr,
}
use iflygo.Access.{allows}
use iflygo.Task.Rows.{
  TaskStatus, TaskRow, TaskDb, task_can_start, task_can_cancel, task_is_paused, task_is_running,
}
use iflygo.Task.Db.{
  Error, Result, ok, err, World, at, Db, pure, fail, statement, ◌>>=◌, ◌>>◌, commit, transaction,
  unless_error, changed, bad_status,
}
use iflygo.Db.Atomic.{
  Post, Settled, statement-Post, bind-Post, exec-Post, query-Post, transaction-Post,
}
use iflygo.Task.Owner.{Service, visible_task}
use iflygo.Task.Owner.Reads.{Checks, owner_ok, deploy_ok, owner-Checks, deploy-Checks}
use iflygo.Task.Owner.Checks.{is_ok}
use iflygo.Task.Api.{
  Request, update_task, start, promote, pause, cancel, skip_failed, cancel_batch, cancel_host,
  cancel_command, start_row, cancel_row, promote_rows,
}

-- The task is in the request's scope, with one of these statuses.
abbrev pub IsOpenTo : Request → (TaskStatus → Bool) → TaskDb → Type 0
IsOpenTo r from d =
    (t : TaskRow) × (d.task ≡ some t) × (allows r.scope t.tenant ≡ true) × (from t.status ≡ true)

-- The write of a request's status to the task's row.
abbrev pub moved : Request → (TaskStatus → Bool) → TaskStatus → TaskDb → TaskDb
moved r from status d = (update_task r from status d).1

pub update_task-open :
    (r : Request) (from : TaskStatus → Bool) (status : TaskStatus) (d : TaskDb)
    → ((update_task r from status d).0 == 0) ≡ false
    → IsOpenTo r from d
unfolding update_task
update_task-open r from status d h = task_cases d.task refl
  where
    task_cases :
        (o : Option TaskRow)
        → d.task ≡ o
        → (t : TaskRow) × (d.task ≡ some t)
          × (allows r.scope t.tenant ≡ true)
          × (from t.status ≡ true)
    task_cases none e = ground arith
    task_cases (some t) e = (t, e, ground arith, ground arith)

update_task-shut :
    (r : Request) (from : TaskStatus → Bool) (status : TaskStatus) (d : TaskDb)
    → ((update_task r from status d).0 == 0) ≡ true
    → moved r from status d ≡ d
unfolding update_task
update_task-shut r from status d h = ground arith

-- The request is allowed, the task is open to it, and these are the rows that it writes.
module _ (s : Service) (r : Request) (from : TaskStatus → Bool) (write : TaskDb → TaskDb)
    (d : TaskDb) where
  abbrev pub Does : Unit {0} → TaskDb → Type 0
  Does u d' = (owner_ok s r.scope r.actor d ≡ true) × IsOpenTo r from d × (d' ≡ write d)

  abbrev pub DoesDeployed : Unit {0} → TaskDb → Type 0
  DoesDeployed u d' = Does u d' × (deploy_ok s r.scope r.actor d ≡ true)

-- A check, and then an action on the same rows.
pub after_check :
    {A : Type 0} (P : A → TaskDb → Type 0) (m : Db (Unit {0})) (k : Db A) (d : TaskDb)
    (faults : List Bool)
    → Checks m
    → (is_ok (m (at d [])).0 ≡ true → (fs : List Bool) → Post P (λ d'. d' ≡ d) (k (at d fs)))
    → Post P (λ d'. d' ≡ d) ((m >> k) (at d faults))
after_check {A} P m k d faults h step =
    bind-Post _ _ _ _ _ (go (m (at d faults)) (h.checks d faults))
  where
    go :
        (rw : Result (Unit {0}) × World)
        → Post (λ u d'. (d' ≡ d) × (is_ok (m (at d [])).0 ≡ true)) (λ d'. d' ≡ d) rw
        → Post (λ u d'. (fs : List Bool) → Post P (λ d'. d' ≡ d) (k (at d' fs))) (λ d'. d' ≡ d) rw
    go (ok u, w) (same, good) =
        λ fs. subst (λ x. Post P (λ d'. d' ≡ d) (k (at x fs))) (sym same) (step good fs)
    go (err e, w) same = same

pub unless-Post :
    {A : Type 0} (P : A → TaskDb → Type 0) (E : TaskDb → Type 0) (b : Bool) (e : Error) (k : Db A)
    (d : TaskDb) (faults : List Bool)
    → E d
    → (b ≡ true → (fs : List Bool) → Post P E (k (at d fs)))
    → Post P E ((unless_error b e >> k) (at d faults))
unfolding ◌>>=◌
unless-Post P E true e k d faults h step = step refl faults
unless-Post P E false e k d faults h step = h

-- The write of the task's row, with an error if there was none to write.
write_row :
    (s : Service) (r : Request) (from : TaskStatus → Bool) (status : TaskStatus) (e : Error)
    (d : TaskDb) (faults : List Bool)
    → owner_ok s r.scope r.actor d ≡ true
    → Post
        (Does s r from (moved r from status) d)
        (λ d'. d' ≡ d)
        ((statement (update_task r from status) >>= λ n. unless_error (not (n == 0)) e)
          (at d faults))
write_row s r from status e d faults good =
    bind-Post _ _ _ _ _ (statement-Post _ _ _ d faults after refl)
  where
    after :
        (fs : List Bool)
        → Post
            (Does s r from (moved r from status) d)
            (λ d'. d' ≡ d)
            (unless_error
              (not ((update_task r from status d).0 == 0))
              e
              (at (moved r from status d) fs))
    after fs = elim (Bool-cases ((update_task r from status d).0 == 0)) [
      | inl shut ↦ rw shut (update_task-shut r from status d shut)
      | inr new ↦ rw new (good, update_task-open r from status d new, refl)
    ]

pub pause-Post :
    (s : Service) (r : Request) (d : TaskDb) (faults : List Bool)
    → Post
        (Does s r task_is_running (moved r task_is_running TaskStatus.paused) d)
        (λ d'. d' ≡ d)
        (pause s r (at d faults))
unfolding pause
pause-Post s r d faults =
    after_check _ _ _ d faults (owner-Checks s r.scope r.actor)
      (λ good fs. write_row s r task_is_running TaskStatus.paused bad_status d fs good)

with_deploy :
    (s : Service) (r : Request) (from : TaskStatus → Bool) (write : TaskDb → TaskDb) (d : TaskDb)
    (rw : Result (Unit {0}) × World)
    → deploy_ok s r.scope r.actor d ≡ true
    → Post (Does s r from write d) (λ d'. d' ≡ d) rw
    → Post (DoesDeployed s r from write d) (λ d'. d' ≡ d) rw
with_deploy s r from write d (ok u, w) good h = (h, good)
with_deploy s r from write d (err e, w) good h = h

pub start-Post :
    (s : Service) (r : Request) (d : TaskDb) (faults : List Bool)
    → Post
        (DoesDeployed s r task_can_start (moved r task_can_start TaskStatus.running) d)
        (λ d'. d' ≡ d)
        (start s r (at d faults))
unfolding start
start-Post s r d faults = after_check _ _ _ d faults (owner-Checks s r.scope r.actor) (λ good f0.
    after_check _ _ _ d f0 (deploy-Checks s r.scope r.actor) (λ deployed f1.
      query-Post _ _ _ _ d f1 refl (λ f2.
        with_deploy s r task_can_start (moved r task_can_start TaskStatus.running) d
          (start_row s r (visible_task r.scope d) (at d f2)) deployed
          (row-Post (visible_task r.scope d) good f2))))
  where
    row-Post :
        (o : Option TaskRow)
        → owner_ok s r.scope r.actor d ≡ true
        → (fs : List Bool)
        → Post
            (Does s r task_can_start (moved r task_can_start TaskStatus.running) d)
            (λ d'. d' ≡ d)
            (start_row s r o (at d fs))
    row-Post none good fs = refl
    row-Post (some t) good fs = unless-Post _ _ _ _ _ d fs refl (λ h f3.
        unless-Post _ _ _ _ _ d f3 refl
          (λ h' f4. write_row s r task_can_start TaskStatus.running changed d f4 good))

-- The rows after `Promote` and after `Cancel`.
abbrev pub promoted : Request → TaskDb → TaskDb
promoted r d =
    moved r task_is_paused TaskStatus.running
      (record d { batches = map (skip_failed r.now) d.batches })

abbrev pub canceled_rows : Request → TaskDb → TaskDb
canceled_rows r d = moved r task_can_cancel TaskStatus.canceled (record d {
  batches = map (cancel_batch r.now) d.batches;
  hosts = map (cancel_host r.now) d.hosts;
  commands = map (cancel_command r.now) d.commands;
})

-- The last write of a transaction, which ends it.
write_last :
    (s : Service) (r : Request) (from : TaskStatus → Bool) (status : TaskStatus) (e : Error)
    (write : TaskDb → TaskDb) (d d1 : TaskDb) (faults : List Bool)
    → owner_ok s r.scope r.actor d ≡ true
    → d1.task ≡ d.task
    → moved r from status d1 ≡ write d
    → Post
        (Settled (Does s r from write d) (λ d'. d' ≡ d) d)
        (λ d'. Unit)
        ((statement (update_task r from status) >>= λ n.
            if n == 0 then fail e else pure (commit tt))
          (at d1 faults))
write_last s r from status e write d d1 faults good same written =
    bind-Post _ _ _ _ _ (statement-Post _ _ _ d1 faults after tt)
  where
    opened : IsOpenTo r from d1 → IsOpenTo r from d
    opened (t, e1, a, f) = (t, sym same ∙ e1, a, f)

    after :
        (fs : List Bool)
        → Post
            (Settled (Does s r from write d) (λ d'. d' ≡ d) d)
            (λ d'. Unit)
            ((if (update_task r from status d1).0 == 0 then fail e else pure (commit tt))
              (at (moved r from status d1) fs))
    after fs = elim (Bool-cases ((update_task r from status d1).0 == 0)) [
      | inl shut ↦ rw shut tt
      | inr new ↦ rw new (good, opened (update_task-open r from status d1 new), written)
    ]

pub promote-Post :
    (s : Service) (r : Request) (d : TaskDb) (faults : List Bool)
    → Post
        (DoesDeployed s r task_is_paused (promoted r) d)
        (λ d'. d' ≡ d)
        (promote s r (at d faults))
unfolding promote
promote-Post s r d faults = after_check _ _ _ d faults (owner-Checks s r.scope r.actor) (λ good f0.
    after_check _ _ _ d f0 (deploy-Checks s r.scope r.actor) (λ deployed f1.
      with_deploy s r task_is_paused (promoted r) d (transaction (promote_rows r) (at d f1))
        deployed
        (transaction-Post _ _ _ d f1 refl (λ f2. exec-Post _ _ _ _ d f2 tt (λ f3.
          write_last s r task_is_paused TaskStatus.running bad_status (promoted r) d _ f3 good refl
            refl)))))

pub cancel-Post :
    (s : Service) (r : Request) (d : TaskDb) (faults : List Bool)
    → Post (Does s r task_can_cancel (canceled_rows r) d) (λ d'. d' ≡ d) (cancel s r (at d faults))
unfolding cancel
cancel-Post s r d faults = after_check _ _ _ d faults (owner-Checks s r.scope r.actor) (λ good f0.
    transaction-Post _ _ _ d f0 refl
      (λ f1. query-Post _ _ _ _ d f1 tt (λ f2. row-Post (visible_task r.scope d) good f2)))
  where
    row-Post :
        (o : Option TaskRow)
        → owner_ok s r.scope r.actor d ≡ true
        → (fs : List Bool)
        → Post
            (Settled (Does s r task_can_cancel (canceled_rows r) d) (λ d'. d' ≡ d) d)
            (λ d'. Unit)
            (cancel_row r o (at d fs))
    row-Post none good fs = tt
    row-Post (some t) good fs = unless-Post _ _ _ _ _ d fs tt (λ h f3.
        exec-Post _ _ _ _ d f3 tt (λ f4. exec-Post _ _ _ _ _ f4 tt (λ f5.
          exec-Post _ _ _ _ _ f5 tt (λ f6.
            write_last s r task_can_cancel TaskStatus.canceled changed (canceled_rows r) d _ f6 good
              refl refl))))
