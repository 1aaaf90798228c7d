-- ===== src/Task/Retry/Effect.antt =====
-- What `Retry` does (internal/logic/task/retry.go): all of it or nothing, and to which hosts.
use iflygo.Prelude.{
  ℕ, ◌≡◌, refl, ◌⊎◌, inl, inr, Bool-cases, Bool, true, false, not, Option, none, some, List, [],
  ◌∷◌, map, keep_if, length,
}
use iflygo.Task.Rows.{TaskStatus, HostRow, TaskRow, TaskDb}
use iflygo.Task.Db.{at, Db, World, Error, Result, ok, err, fail, database, ◌>>=◌}
use iflygo.Db.Atomic.{Post, Settled, bind-Post, exec-Post, query-Post, transaction-Post}
use iflygo.Prelude.Int.{pos, ◌==ℤ◌}
use iflygo.Task.Owner.{Service}
use iflygo.Task.Owner.Reads.{owner_ok, deploy_ok, owner-Checks, deploy-Checks}
use iflygo.Task.Api.{Request}
use iflygo.Task.Api.Writes.{after_check, unless-Post}
use iflygo.Task.Retry.{
  RetryRequest, RetryResult, SkipReason, retry, read_task, own_id_row, retry_task, reset_rows,
  judge, is_selected, drop_command, reset_host, reset_batch, run_again, is_draft,
}

abbrev pub ids_of : List HostRow → List ℕ
ids_of = map (λ x. x.id)

-- The rows after the given hosts have been reset.
abbrev pub reset_all : Request → List HostRow → TaskDb → TaskDb
reset_all r [] d = d
reset_all r (h ∷ rows) d = record {
  commands = map (drop_command r.now (ids_of (h ∷ rows))) d.commands;
  hosts = map (reset_host r.now (ids_of (h ∷ rows))) d.hosts;
  batches = map (reset_batch (map (λ x. x.batch) (h ∷ rows))) d.batches;
  task = run_again r d.task;
}

module _ (host_exists : ℕ → Bool) (r : Request) (req : RetryRequest) (d : TaskDb) where
  -- The hosts that the request resets.
  abbrev pub to_reset : List HostRow
  to_reset = (judge r.now d.commands req (keep_if (is_selected host_exists req) d.hosts)).0

  -- The task is there and no draft, and the request is of all tenants, or the driver takes the argument
  -- too many and the task's tenant has the number of the task.
  abbrev pub IsFound : Service → Type 0
  IsFound s =
      (t : TaskRow) × (d.task ≡ some t)
      × (not (is_draft t.status) ≡ true)
      × ((r.scope.cross_tenant ≡ true)
          ⊎ ((s.takes_extra_args ≡ true) × ((t.tenant ==ℤ pos t.id) ≡ true)))

  abbrev pub Retries : Service → RetryResult → TaskDb → Type 0
  Retries s res d' =
      (owner_ok s r.scope r.actor d ≡ true)
      × (deploy_ok s r.scope r.actor d ≡ true)
      × IsFound s
      × (res.reset ≡ length to_reset)
      × (d' ≡ reset_all r to_reset d)

module _ (s : Service) (r : Request) (d : TaskDb) where
  -- What the read of the task has found, if it has found one.
  abbrev Found : Option TaskRow → Type 0
  Found none = Unit
  Found (some t) =
      (d.task ≡ some t)
      × ((r.scope.cross_tenant ≡ true)
          ⊎ ((s.takes_extra_args ≡ true) × ((t.tenant ==ℤ pos t.id) ≡ true)))

  all-Found : (o : Option TaskRow) → d.task ≡ o → r.scope.cross_tenant ≡ true → Found o
  all-Found none e all = tt
  all-Found (some t) e all = (e, inl all)

  own-Found : (o : Option TaskRow) → d.task ≡ o → s.takes_extra_args ≡ true → Found (own_id_row o)
  own-Found none e takes = tt
  own-Found (some t) e takes = elim (Bool-cases (t.tenant ==ℤ pos t.id)) [
    | inl own ↦ simp own (e, inr (takes, refl))
    | inr other ↦ simp other tt
  ]

  read_task-Post :
      {B : Type 0} (P : B → TaskDb → Type 0) (k : Option TaskRow → Db B) (faults : List Bool)
      → ((o : Option TaskRow) → Found o → (fs : List Bool) → Post P (λ d'. d' ≡ d) (k o (at d fs)))
      → Post P (λ d'. d' ≡ d) ((read_task s r.scope >>= k) (at d faults))
  unfolding read_task
  read_task-Post P k faults h = elim (Bool-cases r.scope.cross_tenant) [
    | inl all ↦ simp all (
        query-Post P (λ d'. d' ≡ d) (λ x. x.task) k d faults refl
          (h d.task (all-Found d.task refl all)))
    | inr one ↦ elim (Bool-cases s.takes_extra_args) [
      | inl takes ↦
          simp (one, takes)
            (query-Post P (λ d'. d' ≡ d) (λ x. own_id_row x.task) k d faults refl
              (h (own_id_row d.task) (own-Found d.task refl takes)))
      | inr refuses ↦
          simp (one, refuses) (bind-Post P (λ d'. d' ≡ d) (fail database) k (at d faults) refl)
    ]
  ]

-- A retry resets all the hosts that it is to reset or changes nothing, whatever statements fail:
-- where it succeeds, the checks let the user work on the task and deploy, the task is no draft, and
-- it was found (the request is of all tenants, or the driver takes an argument too many and the
-- task's tenant has the number of the task), and those hosts, their batches, their active commands
-- and the task are written together; where it fails, every row is as it was.
pub retry-Post :
    (s : Service) (host_exists : ℕ → Bool) (r : Request) (req : RetryRequest) (d : TaskDb)
    (faults : List Bool)
    → Post (Retries host_exists r req d s) (λ d'. d' ≡ d) (retry s host_exists r req (at d faults))
unfolding retry
retry-Post s host_exists r req d faults =
    after_check _ _ _ d faults (owner-Checks s r.scope r.actor) (λ good f0.
      after_check _ _ _ d f0 (deploy-Checks s r.scope r.actor) (λ deployed f1.
        unless-Post _ _ _ _ _ d f1 refl (λ few f2.
          read_task-Post s r d _ _ f2 (λ o found f3. task-Post good deployed o found f3))))
  where
    rows-Post :
        owner_ok s r.scope r.actor d ≡ true
        → deploy_ok s r.scope r.actor d ≡ true
        → IsFound host_exists r req d s
        → (rows : List HostRow) (skipped : List (ℕ × SkipReason)) (status : TaskStatus)
        → to_reset host_exists r req d ≡ rows
        → (fs : List Bool)
        → Post
            (Settled (Retries host_exists r req d s) (λ d'. d' ≡ d) d)
            (λ d'. Unit)
            (reset_rows r rows skipped status (at d fs))
    rows-Post good deployed opened [] skipped status e fs =
        (good, deployed, opened, rw e refl, rw e refl)
    rows-Post good deployed opened (h ∷ rows) skipped status e fs = exec-Post _ _ _ _ d fs tt (λ f4.
        exec-Post _ _ _ _ _ f4 tt (λ f5.
          exec-Post _ _ _ _ _ f5 tt (λ f6.
            exec-Post _ _ _ _ _ f6 tt (λ f7. (good, deployed, opened, rw e refl, rw e refl)))))

    task-Post :
        owner_ok s r.scope r.actor d ≡ true
        → deploy_ok s r.scope r.actor d ≡ true
        → (o : Option TaskRow) → Found s r d o
        → (fs : List Bool)
        → Post
            (Retries host_exists r req d s)
            (λ d'. d' ≡ d)
            (retry_task host_exists r req o (at d fs))
    task-Post good deployed none e fs = refl
    task-Post good deployed (some t) e fs = unless-Post _ _ _ _ _ d fs refl (λ started f4.
        transaction-Post _ _ _ d f4 refl (λ f5. exec-Post _ _ _ _ d f5 tt (λ f6.
          query-Post _ _ _ _ d f6 tt
            (λ f7. rows-Post good deployed (t, e.0, started, e.1) _ _ t.status refl f7))))

-- Where the driver refuses an argument too many, a retry in the scope of one tenant never succeeds,
-- whoever asks and whatever the task is: it ends with an error, and every row is as it was.
pub retry_scoped_refused :
    (s : Service) (host_exists : ℕ → Bool) (r : Request) (req : RetryRequest) (d : TaskDb)
    (faults : List Bool)
    → r.scope.cross_tenant ≡ false
    → s.takes_extra_args ≡ false
    → (e : Error) × ((retry s host_exists r req (at d faults)).0 ≡ err e)
      × ((retry s host_exists r req (at d faults)).1.db ≡ d)
retry_scoped_refused s host_exists r req d faults one refuses =
    refused (retry s host_exists r req (at d faults)) (retry-Post s host_exists r req d faults)
  where
    refused :
        (rw : Result RetryResult × World)
        → Post (Retries host_exists r req d s) (λ d'. d' ≡ d) rw
        → (e : Error) × (rw.0 ≡ err e) × (rw.1.db ≡ d)
    refused (ok res, w) (good, deployed, (t, found, started, inl all), n, same) = absurd (cc)
    refused (ok res, w) (good, deployed, (t, found, started, inr (takes, own)), n, same) =
        absurd (cc)
    refused (err e, w) same = (e, refl, same)
