-- ===== src/Agentgw/Keeps/Stages.antt =====
-- A stage that an agent reports keeps what the writes keep (internal/logic/agentgw/gateway.go).
use iflygo.Prelude.{ℕ, ◌≡◌, refl, Bool, true, false, Option, none, some, String, arith, []}
use iflygo.Text.{Text}
use iflygo.Task.Rows.{CommandStatus}
use iflygo.Db.{commit, pure, ◌>>◌}
use iflygo.Db.Keeps.{
  Keeps, pure-Keeps, query-Keeps, exec-Keeps, exec_if-Keeps, bind-Keeps, default-Keeps,
  transaction-Keeps,
}
use iflygo.Agentgw.Rows.{Command, GatewayDb, Env, is_final, of_agent, back_online, at_stage}
use iflygo.Agentgw.Stage.{
  final_of_stage, finish_command, if_final, note_stage, go_on, by_status, read_again, when_locked,
  for_command, stage_body, update_stage, version_for, host_progress, host_finalize, stage_line,
}
use iflygo.Agentgw.Keeps.{KeepsWrites}

-- The two statuses that a stage stands for are final.
final_of_stage-final :
    (stage message : Text) (st : CommandStatus)
    → final_of_stage stage message ≡ some st
    → is_final st ≡ true
unfolding final_of_stage
final_of_stage-final stage message st h = ground arith

module _ (I : GatewayDb → Type 0) (env : Env) (agent : String) (k : KeepsWrites I env agent) where
  module _ (cmd : ℕ) (stage message : Text) where
    finish_command-Keeps :
        (th : Option ℕ) (st : CommandStatus) (version : Text)
        → is_final st ≡ true
        → Keeps I (finish_command env agent cmd stage message th st version)
    finish_command-Keeps th st version h =
        bind-Keeps I _ _
          (exec_if-Keeps I _ _ (k.task_hosts th (host_finalize env st stage version)))
          (λ _. bind-Keeps I _ _ (exec-Keeps I _ (λ d. k.finalized cmd st stage version d h)) (λ _.
            bind-Keeps I _ _ (exec-Keeps I _ (k.hosts (of_agent agent) (back_online stage)))
              (λ _. pure-Keeps I _)))

    if_final-Keeps :
        (th : Option ℕ) (o : Option CommandStatus)
        → final_of_stage stage message ≡ o
        → Keeps I (if_final env agent cmd stage message th o)
    if_final-Keeps th none e = pure-Keeps I _
    if_final-Keeps th (some st) e =
        bind-Keeps I _ _ (default-Keeps I [] _ (query-Keeps I _)) (λ version.
          finish_command-Keeps th st (version_for st message version)
            (final_of_stage-final stage message st e))

    note_stage-Keeps : Keeps I (note_stage env agent cmd stage message)
    note_stage-Keeps = exec-Keeps I _ (k.hosts (of_agent agent) (at_stage stage))

    go_on-Keeps : (th : Option ℕ) → Keeps I (go_on env agent cmd stage message th)
    go_on-Keeps th =
        bind-Keeps I _ _
          (exec_if-Keeps I _ _
            (k.task_hosts th (host_progress stage (stage_line env stage message))))
          (λ _.
            bind-Keeps I _ _
              (exec-Keeps I _ (k.progressed cmd stage (stage_line env stage message)))
              (λ _. bind-Keeps I _ _ note_stage-Keeps (λ _. if_final-Keeps th _ refl)))

    noted-Keeps : Keeps I (note_stage env agent cmd stage message >> pure (commit tt))
    noted-Keeps = bind-Keeps I _ _ note_stage-Keeps (λ _. pure-Keeps I _)

    by_status-Keeps :
        (th : Option ℕ) (st : CommandStatus) → Keeps I (by_status env agent cmd stage message th st)
    by_status-Keeps th CommandStatus.pending = go_on-Keeps th
    by_status-Keeps th CommandStatus.dispatched = go_on-Keeps th
    by_status-Keeps th CommandStatus.accepted = go_on-Keeps th
    by_status-Keeps th CommandStatus.running = go_on-Keeps th
    by_status-Keeps th CommandStatus.success = noted-Keeps
    by_status-Keeps th CommandStatus.failed = noted-Keeps
    by_status-Keeps th CommandStatus.rolled_back = noted-Keeps
    by_status-Keeps th CommandStatus.timeout = noted-Keeps
    by_status-Keeps th CommandStatus.expired = pure-Keeps I _
    by_status-Keeps th CommandStatus.canceled = pure-Keeps I _

    read_again-Keeps :
        (th : Option ℕ) (o : Option Command) → Keeps I (read_again env agent cmd stage message th o)
    read_again-Keeps th none = record { keeps = λ d faults i. i }
    read_again-Keeps th (some c) = by_status-Keeps th c.status

    when_locked-Keeps :
        (th : Option ℕ) (locked : Bool)
        → Keeps I (when_locked env agent cmd stage message th locked)
    when_locked-Keeps th false = pure-Keeps I _
    when_locked-Keeps th true = bind-Keeps I _ _ (query-Keeps I _) (read_again-Keeps th)

    for_command-Keeps : (o : Option Command) → Keeps I (for_command env agent cmd stage message o)
    for_command-Keeps none = pure-Keeps I _
    for_command-Keeps (some c) = bind-Keeps I _ _ (query-Keeps I _) (when_locked-Keeps c.task_host)

    stage_body-Keeps : Keeps I (stage_body env agent cmd stage message)
    stage_body-Keeps = bind-Keeps I _ _ (query-Keeps I _) for_command-Keeps

  pub update_stage-Keeps :
      (cmd : ℕ) (stage message : Text) → Keeps I (update_stage env agent cmd stage message)
  unfolding update_stage
  update_stage-Keeps cmd stage message = transaction-Keeps I _ (stage_body-Keeps cmd _ _)
