-- ===== src/Agentgw/Keeps/Reconcile.antt =====
-- The reconciliation keeps what its writes keep (internal/logic/agentgw/reap.go).
use iflygo.Prelude.{
  ℕ, Bool, true, false, Option, none, some, List, [], ◌∷◌, String, map, ◌&&◌, not, str_eq,
}
use iflygo.Db.Keeps.{
  Keeps, pure-Keeps, query-Keeps, exec-Keeps, exec_if-Keeps, bind-Keeps, statement-Keeps,
  transaction-Keeps, if-Keeps,
}
use iflygo.Agentgw.Rows.{
  Command, HostRow, GatewayDb, Env, update_commands, update_task_hosts, update_hosts, of_agent,
}
use iflygo.Agentgw.Reap.{
  seems_done, seems_failed, seems_lost, close_done, close_failed, close_lost, finalize_body,
  finalize_completed_stages, in_hand_by_id, time_out, waiting_host, host_time_out, give_up,
  if_still, if_locked, reap_one, reap_each, release_each, finish_reap, reap_body, reap_expired,
  Reaped, is_expired, out_of_maintenance, has_active, release,
}
use iflygo.Agentgw.Sync.{synced, sync_task_hosts_from_commands, reconcile_tasks, release_idle}

-- Each write of the reconciliation keeps `I`.
pub record KeepsReconcile (I : GatewayDb → Type 0) (env : Env) : Type 0 where
  pub done : (d : GatewayDb) → I d → I (update_commands (seems_done env.now) (close_done env) d)
  pub failed :
      (d : GatewayDb) → I d → I (update_commands (seems_failed env.now) (close_failed env) d)
  pub lost : (d : GatewayDb) → I d → I (update_commands (seems_lost env.now) (close_lost env) d)
  pub timed_out :
      (id : ℕ) (d : GatewayDb) → I d → I (update_commands (in_hand_by_id id) (time_out env) d)
  pub host_timed_out :
      (th : Option ℕ) (d : GatewayDb)
      → I d
      → I (update_task_hosts (waiting_host th) (host_time_out env) d)
  pub follows :
      (d : GatewayDb)
      → I d
      → I (record d { task_hosts = map (synced env.now d.commands) d.task_hosts })
  pub hosts :
      (p : HostRow → Bool) (f : HostRow → HostRow) (d : GatewayDb) → I d → I (update_hosts p f d)

module _ (I : GatewayDb → Type 0) (env : Env) (k : KeepsReconcile I env) where
  finalize-Keeps : Keeps I (finalize_completed_stages env)
  unfolding finalize_completed_stages
  finalize-Keeps = transaction-Keeps I (finalize_body env) (
      bind-Keeps I _ _ (statement-Keeps I _ k.done) (λ _.
        bind-Keeps I _ _ (statement-Keeps I _ k.failed)
          (λ _. bind-Keeps I _ _ (statement-Keeps I _ k.lost) (λ _. pure-Keeps I _))))

  give_up-Keeps : (c : Command) (acc : Reaped) → Keeps I (give_up env c acc)
  give_up-Keeps c (agents, n) = bind-Keeps I _ _ (exec-Keeps I _ (k.timed_out c.id)) (λ _.
      bind-Keeps I _ _ (exec_if-Keeps I _ _ (k.host_timed_out c.task_host)) (λ _. pure-Keeps I _))

  if_still-Keeps :
      (c : Command) (acc : Reaped) (o : Option Command) → Keeps I (if_still env c acc o)
  if_still-Keeps c acc none = pure-Keeps I _
  if_still-Keeps c acc (some c') =
      if-Keeps I (is_expired env.now c') _ _ (give_up-Keeps c acc) (pure-Keeps I _)

  if_locked-Keeps : (c : Command) (acc : Reaped) (b : Bool) → Keeps I (if_locked env c acc b)
  if_locked-Keeps c acc false = pure-Keeps I _
  if_locked-Keeps c acc true = bind-Keeps I _ _ (query-Keeps I _) (if_still-Keeps c acc)

  reap_one-Keeps : (c : Command) (acc : Reaped) → Keeps I (reap_one env c acc)
  reap_one-Keeps c acc = bind-Keeps I _ _ (query-Keeps I _) (if_locked-Keeps c acc)

  reap_each-Keeps : (cs : List Command) (acc : Reaped) → Keeps I (reap_each env cs acc)
  unfolding reap_each
  reap_each-Keeps [] acc = pure-Keeps I _
  reap_each-Keeps (c ∷ cs) acc =
      bind-Keeps I _ _ (reap_one-Keeps c acc) (λ acc'. reap_each-Keeps cs acc')

  release_each-Keeps : (agents : List String) → Keeps I (release_each agents)
  unfolding release_each
  release_each-Keeps [] = pure-Keeps I _
  release_each-Keeps (a ∷ agents) =
      bind-Keeps I _ _
        (exec-Keeps I (release a)
          (λ d. k.hosts (λ h. of_agent a h && not (has_active a d)) out_of_maintenance d))
        (λ _. release_each-Keeps agents)

  finish_reap-Keeps : (acc : Reaped) → Keeps I (finish_reap acc)
  finish_reap-Keeps (agents, n) = bind-Keeps I _ _ (release_each-Keeps agents) (λ _. pure-Keeps I _)

  reap_expired-Keeps : Keeps I (reap_expired env)
  unfolding reap_expired
  reap_expired-Keeps = transaction-Keeps I (reap_body env) (
      bind-Keeps I _ _ (query-Keeps I _)
        (λ cs. bind-Keeps I _ _ (reap_each-Keeps cs ([], 0)) finish_reap-Keeps))

  sync-Keeps : Keeps I (sync_task_hosts_from_commands env)
  unfolding sync_task_hosts_from_commands
  sync-Keeps = statement-Keeps I _ k.follows

  pub reconcile_tasks-Keeps : Keeps I (reconcile_tasks env)
  unfolding reconcile_tasks
  reconcile_tasks-Keeps = bind-Keeps I _ _ finalize-Keeps (λ _.
      bind-Keeps I _ _ reap_expired-Keeps (λ _. bind-Keeps I _ _ sync-Keeps (λ _.
        bind-Keeps I _ _
          (exec-Keeps I release_idle (λ d.
            k.hosts (λ h. str_eq h.maintenance_reason "upgrading" && not (has_active h.agent d))
              out_of_maintenance d))
          (λ _. pure-Keeps I _))))
