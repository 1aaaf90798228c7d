-- ===== src/Task/Advance/Keeps.antt =====
-- An invariant that each write of the orchestrator keeps is kept by a tick, whatever fails.
use iflygo.Prelude.{
  ℕ, Bool, true, false, Option, none, some, List, [], ◌∷◌, map, String, ap, sym, not, subst, ltb,
  str_eq, ◌&&◌, All,
}
use iflygo.Task.Rows.{
  BatchStatus, Kind, upgrade, command, TaskStatus, BatchRow, HostRow, LogLine, TaskDb,
}
use iflygo.Task.Db.{Error, Db, at, pure, query, statement, or_default, ◌>>=◌}
use iflygo.Db.Atomic.{Post, bind-Post, query-Post}
use iflygo.Db.Keeps.{
  Keeps, weaken, pure-Keeps, fail-Keeps, query-Keeps, exec-Keeps, bind-Keeps, default-Keeps,
  if-Keeps,
}
use iflygo.Task.Orchestrator.{
  Strategy, current_batch, set_batch, complete_batch, mark_batch, finish_task,
}
use iflygo.Task.Orchestrator.Complete.{completed, finished, complete_batch-Post}
use iflygo.Task.Orchestrator.Dispatch.{
  Env, HostInfo, Component, mark_host_skipped, skip_row, dispatch_host, dispatch_row, dispatch_rows,
  dispatch_batch, dispatch_info, dispatch_checked, check_spec, is_offline, os_differs,
  dispatch_kind, dispatch_upgrade, custom_script, is_exec_only,
}
use iflygo.Task.Orchestrator.Host.{dispatched, dispatch_host-Post}
use iflygo.Task.Advance.{
  read_batch, close_batch, check_batch, advance_batch, advance_status, advance,
}

-- What follows the read of the batch: on its result, or on none.
pub read_batch-Post :
    {B : Type 0} (P : B → TaskDb → Type 0) (E : TaskDb → Type 0) (k : Option BatchRow → Db B)
    (d : TaskDb) (faults : List Bool)
    → E d
    → ((fs : List Bool) → Post P E (k (current_batch d.batches) (at d fs)))
    → ((fs : List Bool) → Post P E (k none (at d fs)))
    → Post P E ((read_batch >>= k) (at d faults))
unfolding or_default statement
read_batch-Post P E k d faults e found lost =
    bind-Post P E read_batch k (at d faults) (query-Post _ E _ _ d faults e (λ fs. default_read fs))
  where
    default_read :
        (fs : List Bool)
        → Post
            (λ o d'. (fs' : List Bool) → Post P E (k o (at d' fs')))
            E
            (or_default none (query (λ x. current_batch x.batches)) (at d fs))
    default_read [] = found
    default_read (true ∷ fs) = lost
    default_read (false ∷ fs) = found

-- The steps that close a batch or the task.
module _ (I : TaskDb → Type 0)
    (complete : (now index : ℕ) (status : BatchStatus) (roll_back pause_task : Bool) (d : TaskDb)
      → I d
      → I (completed now index status roll_back pause_task d))
    (finish : (now : ℕ) (kind : Kind) (counts : ℕ × ℕ × ℕ) (d : TaskDb)
      → I d
      → I (finished now kind counts d)) where
  pub finish_task-Keeps : (now : ℕ) (kind : Kind) → Keeps I (finish_task now kind)
  unfolding finish_task
  finish_task-Keeps now kind =
      bind-Keeps I _ _ (default-Keeps I _ _ (query-Keeps I _))
        (λ counts. exec-Keeps I _ (finish now kind counts))

  complete_batch-Keeps :
      (now index : ℕ) (status : BatchStatus) (roll_back pause_task : Bool)
      → Keeps I (complete_batch now index status roll_back pause_task)
  complete_batch-Keeps now index status roll_back pause_task = record {
    keeps = λ d faults i.
        weaken I _ _ (complete_batch now index status roll_back pause_task (at d faults))
          (complete_batch-Post now index status roll_back pause_task d faults)
          (λ u d' e. subst I (sym e) (complete now index status roll_back pause_task d i))
          (λ d' e. subst I (sym e) i);
  }

  close_batch-Keeps :
      (env : Env) (st : Strategy) (kind : Kind) (paused : Bool) (index : ℕ) (over last : Bool)
      → Keeps I (close_batch env st kind paused index over last)
  unfolding close_batch
  close_batch-Keeps env st kind paused index true last =
      bind-Keeps I _ _ (complete_batch-Keeps _ _ _ _ _)
        (λ u. if-Keeps I last _ _ (finish_task-Keeps _ _) (pure-Keeps I tt))
  close_batch-Keeps env st kind paused index false last =
      bind-Keeps I _ _ (complete_batch-Keeps _ _ _ _ _)
        (λ u. if-Keeps I last _ _ (finish_task-Keeps _ _) (pure-Keeps I tt))

  pub check_batch-Keeps :
      (env : Env) (st : Strategy) (kind : Kind) (paused : Bool) (index : ℕ)
      → Keeps I (check_batch env st kind paused index)
  unfolding check_batch
  check_batch-Keeps env st kind paused index =
      bind-Keeps I _ _ (query-Keeps I _) (λ (total, done, failed).
        if-Keeps I (ltb done total) _ _ (pure-Keeps I tt) (
          bind-Keeps I _ _ (default-Keeps I _ _ (query-Keeps I _))
            (λ more. close_batch-Keeps env st kind paused index _ _)))

-- The commands for the rows of hosts, of those whose ids are in `P`.
module _ (I : TaskDb → Type 0) (P : ℕ → Type 0)
    (skip : (now id : ℕ) (lines : List LogLine) (d : TaskDb)
      → I d
      → I (record d { hosts = map (skip_row now id lines) d.hosts }))
    (send : (now id : ℕ) (agent : String) (kind : Kind) (d : TaskDb)
      → P id
      → I d
      → I (dispatched now id agent kind d).1) where
  skipped-Keeps : (now id : ℕ) (lines : List LogLine) → Keeps I (mark_host_skipped now id lines)
  unfolding mark_host_skipped
  skipped-Keeps now id lines = default-Keeps I _ _ (exec-Keeps I _ (skip now id lines))

  dispatch_host-Keeps :
      (now id : ℕ) (agent : String) (kind : Kind) → P id → Keeps I (dispatch_host now id agent kind)
  dispatch_host-Keeps now id agent kind p = record {
    keeps = λ d faults i.
        weaken I _ _ (dispatch_host now id agent kind (at d faults))
          (dispatch_host-Post now id agent kind d faults)
          (λ sent d' e.
            subst I (sym (ap (λ (p : Bool × TaskDb). p.1) e)) (send now id agent kind d p i))
          (λ d' e. subst I (sym e) i);
  }

  sent-Keeps :
      (now id : ℕ) (agent : String) (kind : Kind)
      → P id
      → Keeps I (dispatch_host now id agent kind >>= λ sent. pure tt)
  sent-Keeps now id agent kind p =
      bind-Keeps I _ _ (dispatch_host-Keeps now id agent kind p) (λ sent. pure-Keeps I tt)

  dispatch_kind-Keeps :
      (env : Env) (kind : Kind) (h : HostRow) (info : HostInfo)
      → P h.id
      → Keeps I (dispatch_kind env kind h info)
  dispatch_kind-Keeps env command h info p =
      if-Keeps I (not env.exec_allowed) _ _ (skipped-Keeps _ _ _) (
        bind-Keeps I _ _ (default-Keeps I _ _ (query-Keeps I _)) (λ supported.
          if-Keeps I (not supported) _ _ (skipped-Keeps _ _ _) (sent-Keeps _ _ _ _ p)))
  dispatch_kind-Keeps env upgrade h info p = upgrade-Keeps env.component
    where
      upgrade-Keeps :
          (c : Option Component)
          → Keeps I (elim c [ none ↦ pure tt | some c' ↦ dispatch_upgrade env c' h info ])
      upgrade-Keeps none = pure-Keeps I tt
      upgrade-Keeps (some c) = if-Keeps I (custom_script c) _ _ (sent-Keeps _ _ _ _ p) (
          bind-Keeps I _ _ (default-Keeps I _ _ (query-Keeps I _)) (λ found.
            if-Keeps I (not found && not (is_exec_only c.deploy_mode)) _ _ (skipped-Keeps _ _ _)
              (sent-Keeps _ _ _ _ p)))

  info-Keeps :
      (env : Env) (kind : Kind) (h : HostRow) (info : Option HostInfo)
      → P h.id
      → Keeps I (dispatch_info env kind h info)
  info-Keeps env kind h none p = pure-Keeps I tt
  info-Keeps env kind h (some info) p =
      if-Keeps I (str_eq info.agent_id "") _ _ (skipped-Keeps _ _ _) (
        if-Keeps I (os_differs env.target_os info.os) _ _ (skipped-Keeps _ _ _) (
          if-Keeps I (is_offline env info) _ _ (skipped-Keeps _ _ _)
            (dispatch_kind-Keeps env kind h info p)))

  dispatch_row-Keeps :
      (env : Env) (kind : Kind) (h : HostRow) → P h.id → Keeps I (dispatch_row env kind h)
  unfolding dispatch_row
  dispatch_row-Keeps env kind h p = info-Keeps env kind h (env.host_info h.host_id) p

  pub dispatch_rows-Keeps :
      (env : Env) (kind : Kind) (hs : List HostRow)
      → All (λ h. P h.id) hs
      → Keeps I (dispatch_rows env kind hs)
  unfolding dispatch_rows
  dispatch_rows-Keeps env kind [] ps = pure-Keeps I tt
  dispatch_rows-Keeps env kind (h ∷ hs) ps =
      bind-Keeps I _ _ (dispatch_row-Keeps env kind h ps.0)
        (λ u. dispatch_rows-Keeps env kind hs ps.1)

same_ids : (hs : List HostRow) → All (λ h. Unit {0}) hs
same_ids [] = tt
same_ids (h ∷ hs) = (tt, same_ids hs)

-- The whole advance.
module _ (I : TaskDb → Type 0)
    (skip : (now id : ℕ) (lines : List LogLine) (d : TaskDb)
      → I d
      → I (record d { hosts = map (skip_row now id lines) d.hosts }))
    (send : (now id : ℕ) (agent : String) (kind : Kind) (d : TaskDb)
      → I d
      → I (dispatched now id agent kind d).1)
    (mark : (now index : ℕ) (status : BatchStatus) (d : TaskDb)
      → I d
      → I (record d { batches = map (set_batch index status now) d.batches }))
    (complete : (now index : ℕ) (status : BatchStatus) (roll_back pause_task : Bool) (d : TaskDb)
      → I d
      → I (completed now index status roll_back pause_task d))
    (finish : (now : ℕ) (kind : Kind) (counts : ℕ × ℕ × ℕ) (d : TaskDb)
      → I d
      → I (finished now kind counts d)) where
  mark_batch-Keeps : (now index : ℕ) (status : BatchStatus) → Keeps I (mark_batch now index status)
  unfolding mark_batch
  mark_batch-Keeps now index status = exec-Keeps I _ (mark now index status)

  dispatch_checked-Keeps :
      (env : Env) (kind : Kind) (index : ℕ) (e : Option Error)
      → Keeps I (dispatch_checked env kind index e)
  dispatch_checked-Keeps env kind index (some e) = fail-Keeps I e
  dispatch_checked-Keeps env kind index none = bind-Keeps I _ _ (query-Keeps I _) (λ rows.
      bind-Keeps I _ _
        (dispatch_rows-Keeps I (λ id. Unit) skip (λ now id agent k d u i. send now id agent k d i)
          env kind rows (same_ids rows))
        (λ u.
          bind-Keeps I _ _ (query-Keeps I _)
            (λ left. if-Keeps I (ltb 0 left) _ _ (pure-Keeps I tt) (mark_batch-Keeps _ _ _))))

  dispatch_batch-Keeps :
      (env : Env) (kind : Kind) (index : ℕ) → Keeps I (dispatch_batch env kind index)
  unfolding dispatch_batch
  dispatch_batch-Keeps env kind index = dispatch_checked-Keeps env kind index (check_spec env kind)

  advance_batch-Keeps :
      (env : Env) (st : Strategy) (kind : Kind) (paused : Bool) (b : Option BatchRow)
      → Keeps I (advance_batch env st kind paused b)
  advance_batch-Keeps env st kind paused none = finish_task-Keeps I complete finish env.now kind
  advance_batch-Keeps env st kind paused (some b) = status-Keeps b.status
    where
      status-Keeps : (s : BatchStatus) → Keeps I (advance_status env st kind paused b.index s)
      status-Keeps BatchStatus.pending =
          if-Keeps I paused _ _ (pure-Keeps I tt) (dispatch_batch-Keeps env kind b.index)
      status-Keeps BatchStatus.running =
          check_batch-Keeps I complete finish env st kind paused b.index
      status-Keeps _ = pure-Keeps I tt

  -- Whatever fails in it, one advance of a task keeps the invariant.
  pub advance-Keeps :
      (env : Env) (st : Strategy) (kind : Kind) (status : TaskStatus)
      → Keeps I (advance env st kind status)
  unfolding advance
  advance-Keeps env st kind status =
      bind-Keeps I _ _
        (bind-Keeps I _ _ (query-Keeps I _) (λ u. default-Keeps I none _ (query-Keeps I _)))
        (λ b. advance_batch-Keeps env st kind _ b)
