-- ===== src/Agentgw/Lifecycle/Refines.antt =====
-- The gateway refines the abstract machine: its requests and its reconciliation move commands by turns
-- only (internal/logic/agentgw).
use iflygo.Prelude.{
  ℕ, ◌≡◌, refl, subst, true, Option, none, some, List, String, find_first, arith, leb,
}
use iflygo.Text.{Text}
use iflygo.Task.Rows.{CommandStatus}
use iflygo.Agentgw.Rows.{Command, GatewayDb, Env, owned, is_final, update_commands}
use iflygo.Agentgw.Dequeue.{is_due, dispatch}
use iflygo.Agentgw.Ack.{by_id, is_dispatched, accept, requeue, refuse}
use iflygo.Agentgw.Stage.{open_owned, progress, finalize}
use iflygo.Agentgw.Report.{Cleaned, open_by_id, command_write, report_final, report_running}
use iflygo.Agentgw.Reap.{
  seems_done, seems_failed, seems_lost, close_done, close_failed, close_lost, in_hand_by_id,
  time_out,
}
use iflygo.Agentgw.Keeps.{KeepsWrites}
use iflygo.Agentgw.Keeps.Reconcile.{KeepsReconcile}
use iflygo.Agentgw.Lifecycle.{Life}
use iflygo.Agentgw.Lifecycle.Lists.{find_first-true}
use iflygo.Agentgw.Lifecycle.Writes.{
  Lived, where_Lived, found_Lived, open_active, accept-Life, refuse-Life, requeue-Life,
  dispatch-Life, progress-Life, finalize-Life, report-Life, closed-Life,
}

pub owned_id : (cmd : ℕ) (agent : String) (c : Command) → owned cmd agent c ≡ true → c.id ≡ cmd
owned_id cmd agent c h = ground arith

module _ (cs : List Command) where
  -- An update by the id that a request names, of a command that was found to be the agent's.
  named_Lived :
      (cmd : ℕ) (agent : String) (f : Command → Command) (c : Command) (d : GatewayDb)
      → find_first (owned cmd agent) d.commands ≡ some c
      → ((x : Command) → (f x).id ≡ x.id)
      → Life c (f c)
      → Lived cs d
      → Lived cs (update_commands (by_id cmd) f d)
  named_Lived cmd agent f c d found same life lived =
      let id : c.id ≡ cmd =
        owned_id cmd agent c (find_first-true (owned cmd agent) c d.commands found) in
      subst (λ n. Lived cs (update_commands (by_id n) f d)) id
        (found_Lived cs (owned cmd agent) f c d found same life lived)

  module _ (env : Env) (agent : String) where
    dispatched_Lived :
        (c : Command) (d : GatewayDb)
        → find_first (is_due env.now agent) d.commands ≡ some c
        → Lived cs d
        → Lived cs (update_commands (by_id c.id) (dispatch env.now) d)
    unfolding dispatch
    dispatched_Lived c d found lived =
        let due = find_first-true (is_due env.now agent) c d.commands found in
        found_Lived cs (is_due env.now agent) (dispatch env.now) c d found (λ x. refl)
          (dispatch-Life env.now c (ground arith)) lived

    accepted_Lived :
        (cmd : ℕ) (c : Command) (d : GatewayDb)
        → find_first (owned cmd agent) d.commands ≡ some c
        → is_dispatched c.status ≡ true
        → Lived cs d
        → Lived cs (update_commands (by_id cmd) accept d)
    unfolding accept
    accepted_Lived cmd c d found sent lived =
        named_Lived cmd agent accept c d found (λ x. refl) (accept-Life c sent) lived

    refused_Lived :
        (cmd : ℕ) (reason : Text) (c : Command) (d : GatewayDb)
        → find_first (owned cmd agent) d.commands ≡ some c
        → is_dispatched c.status ≡ true
        → Lived cs d
        → Lived cs (update_commands (by_id cmd) (refuse env reason) d)
    unfolding refuse
    refused_Lived cmd reason c d found sent lived =
        named_Lived cmd agent (refuse env reason) c d found (λ x. refl)
          (refuse-Life env reason c sent) lived

    requeued_Lived :
        (cmd : ℕ) (line : Text) (c : Command) (d : GatewayDb)
        → find_first (owned cmd agent) d.commands ≡ some c
        → is_dispatched c.status ≡ true
        → leb c.attempts 1 ≡ true
        → Lived cs d
        → Lived cs (update_commands (by_id cmd) (requeue line) d)
    unfolding requeue
    requeued_Lived cmd line c d found sent few lived =
        named_Lived cmd agent (requeue line) c d found (λ x. refl) (requeue-Life line c sent few)
          lived

    progressed_Lived :
        (cmd : ℕ) (stage line : Text) (d : GatewayDb)
        → Lived cs d
        → Lived cs (update_commands (open_owned cmd agent) (progress env stage line) d)
    unfolding progress
    progressed_Lived cmd stage line d lived =
        where_Lived cs (open_owned cmd agent) (progress env stage line) d (λ x. refl)
          (λ c h. progress-Life env stage line c (open_active c.status (ground arith))) lived

    finalized_Lived :
        (cmd : ℕ) (st : CommandStatus) (stage version : Text) (d : GatewayDb)
        → is_final st ≡ true
        → Lived cs d
        → Lived cs (update_commands (open_owned cmd agent) (finalize env st stage version) d)
    unfolding finalize
    finalized_Lived cmd st stage version d final lived =
        where_Lived cs (open_owned cmd agent) (finalize env st stage version) d (λ x. refl)
          (λ c h. finalize-Life env st stage version c final (open_active c.status (ground arith)))
          lived

    command_write_id :
        (st : Option CommandStatus) (r : Cleaned) (c : Command)
        → (command_write env st r c).id ≡ c.id
    unfolding report_final report_running
    command_write_id none r c = refl
    command_write_id (some st) r c = refl

    pub lives_by_writes : KeepsWrites (Lived cs) env agent
    lives_by_writes = record {
      hosts = λ p f d h. h;
      agents = λ p f d h. h;
      task_hosts = λ th f d h. h;
      dispatched = dispatched_Lived;
      accepted = accepted_Lived;
      refused = refused_Lived;
      requeued = requeued_Lived;
      progressed = progressed_Lived;
      finalized = finalized_Lived;
      reported = λ cmd st r c d found o lived.
          where_Lived cs (open_by_id cmd) (command_write env st r) d (command_write_id st r)
            (λ x h. report-Life env st r x o (open_active x.status (ground arith))) lived;
    }

  module _ (env : Env) where
    pub lives_by_reconciling : KeepsReconcile (Lived cs) env
    unfolding close_done close_failed close_lost time_out
    lives_by_reconciling = record {
      done = λ d lived.
          where_Lived cs (seems_done env.now) (close_done env) d (λ x. refl)
            (λ c h. closed-Life c (close_done env c) (ground arith) refl refl refl refl) lived;
      failed = λ d lived.
          where_Lived cs (seems_failed env.now) (close_failed env) d (λ x. refl)
            (λ c h. closed-Life c (close_failed env c) (ground arith) refl refl refl refl) lived;
      lost = λ d lived.
          where_Lived cs (seems_lost env.now) (close_lost env) d (λ x. refl)
            (λ c h. closed-Life c (close_lost env c) (ground arith) refl refl refl refl) lived;
      timed_out = λ id d lived.
          where_Lived cs (in_hand_by_id id) (time_out env) d (λ x. refl)
            (λ c h. closed-Life c (time_out env c) (ground arith) refl refl refl refl) lived;
      host_timed_out = λ th d h. h;
      follows = λ d h. h;
      hosts = λ p f d h. h;
    }
