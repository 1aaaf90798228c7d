-- ===== src/Agentgw/Dequeue.antt =====
-- `Dequeue`, its transaction (internal/logic/agentgw/gateway.go): an agent takes its next command.
pub mod Order
use iflygo.Prelude.{
  ℕ, ◌+◌, ◌*◌, Bool, true, false, Option, none, some, String, ◌&&◌, ◌==◌, str_eq, ltb, find_first,
}
use iflygo.Task.Rows.{CommandStatus}
use iflygo.Db.{Db, Outcome, commit, rollback, transaction, query, exec, pure, ◌>>=◌, ◌>>◌}
use iflygo.Agentgw.Rows.{Command, GatewayDb, Env, update_commands, minute}

abbrev pub is_pending : CommandStatus → Bool
is_pending CommandStatus.pending = true
is_pending _ = false

-- `expire_at IS NULL OR expire_at > NOW()`
abbrev pub is_valid : ℕ → Option ℕ → Bool
is_valid now none = true
is_valid now (some t) = ltb now t

abbrev pub is_due : ℕ → String → Command → Bool
is_due now agent c = str_eq c.agent agent && is_pending c.status && is_valid now c.expire_at

unfoldable pub dispatch : ℕ → Command → Command
dispatch now c = record c {
  status = CommandStatus.dispatched;
  dispatched_at = some now;
  lease_expire_at = some (now + 30 * minute);
  attempts = c.attempts + 1;
}

abbrev pub take_command : ℕ → Option Command → Db GatewayDb (Outcome (Option Command))
take_command now none = pure (rollback none)
take_command now (some c) =
    exec (update_commands (λ x. x.id == c.id) (dispatch now))
    >> pure (commit (some (dispatch now c)))

-- The command that is taken; `none` where the agent has none.
unfoldable pub dequeue : Env → String → Db GatewayDb (Option Command)
dequeue env agent =
    transaction
      (do c ← query (λ d. find_first (is_due env.now agent) d.commands); take_command env.now c)
