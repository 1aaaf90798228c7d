-- ===== src/Task/Orchestrator/Host.antt =====
-- `dispatchHost` of internal/logic/task/orchestrator.go: a host gets at most one active command.
use iflygo.Prelude.{
  ℕ, ◌≡◌, refl, inl, inr, Bool, true, false, List, [], ◌∷◌, ◌++◌, map, arith, String, if◌then◌else◌,
  ◌==◌, ◌&&◌, count_if, any_of, Bool-cases, ==_iff,
}
use iflygo.Task.Rows.{Kind, HostRow, TaskDb, host_is_pending}
use iflygo.Task.Db.{
  at, ok, pure, fail, ◌>>=◌, statement, Outcome, commit, rollback, transaction, changed,
}
use iflygo.Db.Atomic.{
  Post, statement-Post, bind-Post, exec-Post, query-Post, transaction-Post, Settled, if-Post,
  if_not-Post,
}
use iflygo.Task.Orchestrator.Dispatch.{
  dispatch_host, host_status, host_waits, task_runs, has_active_command, new_command, run_row,
  send_command, take_over,
}

-- May the host with this id be sent a command?
abbrev pub is_ready : ℕ → TaskDb → Bool
is_ready id d = host_waits (host_status id d.hosts) && task_runs d.task

-- What `dispatchHost` answers and does where nothing fails.
abbrev pub dispatched : ℕ → ℕ → String → Kind → TaskDb → Bool × TaskDb
dispatched now id agent kind d =
    if is_ready id d
    then (if has_active_command id d.commands
        then (false, record d { hosts = map (run_row now id) d.hosts })
        else (
          true,
          record d {
            hosts = map (run_row now id) d.hosts;
            commands = d.commands ++ (new_command now id agent kind ∷ []);
          },
        ))
    else (false, d)

-- No id stands twice.
abbrev pub IsDistinct : List HostRow → Type 0
IsDistinct [] = Unit
IsDistinct (h ∷ hs) = (any_of (λ x. x.id == h.id) hs ≡ false) × IsDistinct hs

module _ (now id : ℕ) (agent : String) (kind : Kind) (d : TaskDb) where
  abbrev pub AsDispatched : Bool → TaskDb → Type 0
  AsDispatched sent d' = (sent, d') ≡ dispatched now id agent kind d

  abbrev InBody : Outcome Bool → TaskDb → Type 0
  InBody = Settled AsDispatched (λ d'. d' ≡ d) d

  send_command-Post :
      (faults : List Bool)
      → is_ready id d ≡ true
      → has_active_command id d.commands ≡ false
      → Post InBody (λ d'. Unit) (send_command now id agent kind (at d faults))
  send_command-Post faults ready new =
      exec-Post _ _ _ _ d faults tt (λ f1. bind-Post _ _ _ _ _ (statement-Post _ _ _ _ f1 after tt))
    where
      sent : TaskDb
      sent = record d {
        hosts = map (run_row now id) d.hosts;
        commands = d.commands ++ (new_command now id agent kind ∷ []);
      }

      counted : ℕ
      counted = count_if (λ h. h.id == id && host_is_pending h.status) d.hosts

      as_dispatched : AsDispatched true sent
      as_dispatched = ground arith

      after :
          (f2 : List Bool)
          → Post InBody
              (λ d'. Unit)
              ((if counted == 1 then pure (commit true) else fail changed) (at sent f2))
      after f2 = elim (Bool-cases (counted == 1)) [
        | inl one ↦ rw one as_dispatched
        | inr other ↦ rw other tt
      ]

  take_over-Post :
      (faults : List Bool)
      → is_ready id d ≡ true
      → has_active_command id d.commands ≡ true
      → Post InBody (λ d'. Unit) (take_over now id (at d faults))
  take_over-Post faults ready old = exec-Post _ _ _ _ d faults tt (λ f1. ground arith)

  -- `dispatchHost` does all of it or nothing: where it succeeds, a host that waits, in a task that
  -- runs, is marked as running, and gets a command if it has no active one, and any other host is
  -- left alone; where it fails, every row is as it was.
  pub dispatch_host-Post :
      (faults : List Bool)
      → Post AsDispatched (λ d'. d' ≡ d) (dispatch_host now id agent kind (at d faults))
  unfolding dispatch_host
  dispatch_host-Post faults = transaction-Post _ _ _ d faults refl (λ f0.
      query-Post _ _ _ _ d f0 tt (λ f1. if_not-Post _ _ waiting _ _ _ (not_ready f1) (λ waits.
        query-Post _ _ _ _ d f1 tt (λ f2.
          if_not-Post _ _ (task_runs d.task) _ _ _ (stopped f2) (λ runs.
            query-Post _ _ _ _ d f2 tt (λ f3.
              if-Post _ _ (has_active_command id d.commands) _ _ _
                (take_over-Post f3 (both waits runs)) (send_command-Post f3 (both waits runs))))))))
    where
      waiting : Bool
      waiting = host_waits (host_status id d.hosts)

      both : waiting ≡ true → task_runs d.task ≡ true → is_ready id d ≡ true
      both waits runs = rw (waits, runs)

      not_ready :
          (f1 : List Bool)
          → waiting ≡ false
          → Post InBody (λ d'. Unit) (pure (rollback false) (at d f1))
      not_ready f1 idle = ground arith

      stopped :
          (f2 : List Bool)
          → task_runs d.task ≡ false
          → Post InBody (λ d'. Unit) (pure (rollback false) (at d f2))
      stopped f2 idle = ground arith

absent_count :
    (id : ℕ) (hosts : List HostRow)
    → any_of (λ x. x.id == id) hosts ≡ false
    → count_if (λ h. h.id == id && host_is_pending h.status) hosts ≡ 0
absent_count id [] h = refl
absent_count id (x ∷ hosts) h = ground (arith, absent_count id hosts)

run_count :
    (id : ℕ) (hosts : List HostRow)
    → IsDistinct hosts
    → host_waits (host_status id hosts) ≡ true
    → count_if (λ h. h.id == id && host_is_pending h.status) hosts ≡ 1
unfolding host_status
run_count id [] distinct waits = cc
run_count id (h ∷ hs) (apart, distinct) waits = elim (Bool-cases (h.id == id)) [
  | inl here ↦ ground (arith, absent_count id hs, ==_iff h.id id)
  | inr there ↦ ground (arith, run_count id hs distinct)
]

-- Where no statement fails and no id stands twice, `dispatchHost` succeeds, and does what it is to
-- do: a host that waits, in a task that runs, is marked as running, and gets a command if it has
-- no active one; any other host is left alone.
pub dispatch_host_calm :
    (now id : ℕ) (agent : String) (kind : Kind) (d : TaskDb)
    → IsDistinct d.hosts
    → dispatch_host now id agent kind (at d [])
      ≡ (let (sent, d') = dispatched now id agent kind d in (ok sent, at d' []))
unfolding dispatch_host transaction statement ◌>>=◌
dispatch_host_calm now id agent kind d distinct =
    elim (Bool-cases (host_waits (host_status id d.hosts))) [
      | inr idle ↦ rw idle
      | inl waits ↦ elim (Bool-cases (task_runs d.task)) [
        | inr stopped ↦ rw (waits, stopped)
        | inl runs ↦ elim (Bool-cases (has_active_command id d.commands)) [
          | inl old ↦ rw (waits, runs, old)
          | inr new ↦ rw (waits, runs, new, run_count id d.hosts distinct waits)
        ]
      ]
    ]
