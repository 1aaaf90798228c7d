-- ===== src/Agentgw/Ack.antt =====
-- `Ack`: an agent accepts or rejects a command (internal/logic/agentgw/gateway.go).
use iflygo.Prelude.{
  ℕ, Bool, true, false, Option, none, some, List, [], ◌∷◌, ◌++◌, String, ◌&&◌, ◌==◌, str_eq, leb,
  if◌then◌else◌, find_first, any_of, map,
}
use iflygo.Text.{Text, text, text_eq, contains, trim_space, to_lower, split}
use iflygo.Task.Rows.{CommandStatus}
use iflygo.Db.{
  Db, no_command, Outcome, commit, transaction, query, exec, pure, fail, or_default, ◌>>=◌, ◌>>◌,
}
use iflygo.Agentgw.Sanitize.{sanitize_and_truncate, max_reason_bytes}
use iflygo.Agentgw.Rows.{Command, AgentRow, GatewayDb, Env, owned, update_commands, update_agents}

-- `SignatureModeID`, `SignatureModeSignedPath`, `SignatureModeV2`
pub data SignatureMode : Type 0 where
  id signed_path v2 : SignatureMode

abbrev pub mode_text : SignatureMode → Text
mode_text SignatureMode.id = text "id"
mode_text SignatureMode.signed_path = text "signed_path"
mode_text SignatureMode.v2 = text "v2"

abbrev pub names_mode : SignatureMode → Text → Bool
names_mode m raw = text_eq (to_lower (trim_space raw)) (mode_text m)

abbrev pub if_any : SignatureMode → Bool → List SignatureMode → List SignatureMode
if_any m true ms = m ∷ ms
if_any m false ms = ms

-- The modes that are named, each once, in the order of `SupportedSignatureModes`.
unfoldable pub normalize_signature_modes : List Text → List SignatureMode
normalize_signature_modes raws =
    if_any SignatureMode.id (any_of (names_mode SignatureMode.id) raws) (
      if_any SignatureMode.signed_path (any_of (names_mode SignatureMode.signed_path) raws)
        (if_any SignatureMode.v2 (any_of (names_mode SignatureMode.v2) raws) []))

-- The other mode of an agent that has one of the two old ones only.
abbrev pub other_mode : List SignatureMode → Option SignatureMode
other_mode (SignatureMode.id ∷ []) = some SignatureMode.signed_path
other_mode (SignatureMode.signed_path ∷ []) = some SignatureMode.id
other_mode _ = none

abbrev pub is_dispatched : CommandStatus → Bool
is_dispatched CommandStatus.dispatched = true
is_dispatched _ = false

-- `truncateReason`: lines are joined, and what is empty is said to be so.
abbrev pub given_or_not : Text → Text
given_or_not [] = text "未提供原因"
given_or_not (c ∷ s) = c ∷ s

unfoldable pub truncate_reason : Text → Text
truncate_reason s =
    given_or_not (
      sanitize_and_truncate (trim_space (map (λ c. if c == 10 then 0x20 else c) s))
        max_reason_bytes)

unfoldable pub accept : Command → Command
accept c = record c { status = CommandStatus.accepted }

abbrev pub requeue_line : Env → SignatureMode → Text
requeue_line env next =
    text "["
    ++ (env.stamp
        ++ (text "] 检测到旧 Agent 签名路径不匹配，自动切换 legacy 签名为 "
            ++ (mode_text next ++ (text " 并重试" ++ 10 ∷ []))))

unfoldable pub requeue : Text → Command → Command
requeue line c = record c {
  status = CommandStatus.pending;
  dispatched_at = none;
  lease_expire_at = none;
  log = c.log ++ line;
}

abbrev pub refuse_line : Env → Text → Text
refuse_line env reason =
    text "[" ++ (env.stamp ++ (text "] Agent 拒绝指令：" ++ (truncate_reason reason ++ 10 ∷ [])))

unfoldable pub refuse : Env → Text → Command → Command
refuse env reason c = record c {
  status = CommandStatus.failed;
  finished_at = some env.now;
  log = c.log ++ refuse_line env reason;
}

abbrev pub by_id : ℕ → Command → Bool
by_id cmd c = c.id == cmd

-- The agent's row with its other mode.
abbrev pub switched : String → SignatureMode → GatewayDb → GatewayDb
switched agent next =
    update_agents (λ a. str_eq a.agent agent) (λ a. record a { signature_modes = mode_text next })

module _ (env : Env) (agent : String) (cmd : ℕ) where
  abbrev pub refuse_it : Text → Db GatewayDb (Outcome (Unit {0}))
  refuse_it reason = exec (update_commands (by_id cmd) (refuse env reason)) >> pure (commit tt)

  -- The agent's old mode is switched, and the command waits again.
  abbrev pub switch_to : Text → Option SignatureMode → Db GatewayDb (Outcome (Unit {0}))
  switch_to reason none = refuse_it reason
  switch_to reason (some next) =
      exec (switched agent next)
      >> (exec (update_commands (by_id cmd) (requeue (requeue_line env next))) >> pure (commit tt))

  abbrev pub with_modes : Text → Option AgentRow → Db GatewayDb (Outcome (Unit {0}))
  with_modes reason none = refuse_it reason
  with_modes reason (some a) =
      switch_to reason (other_mode (normalize_signature_modes (split b',' a.signature_modes)))

  abbrev pub modes_of_agent : Db GatewayDb (Option AgentRow)
  modes_of_agent = or_default none (query (λ d. find_first (λ a. str_eq a.agent agent) d.agents))

  -- Once only: at the first rejection that names the signature.
  abbrev pub reject : Text → Command → Db GatewayDb (Outcome (Unit {0}))
  reject reason c =
      if leb c.attempts 1 && contains reason (text "签名不匹配")
      then modes_of_agent >>= with_modes reason
      else refuse_it reason

  abbrev pub answer : Text → Text → Command → Db GatewayDb (Outcome (Unit {0}))
  answer status reason c =
      if text_eq status (text "rejected")
      then reject reason c
      else exec (update_commands (by_id cmd) accept) >> pure (commit tt)

  abbrev pub if_dispatched : Text → Text → Option Command → Db GatewayDb (Outcome (Unit {0}))
  if_dispatched status reason none = fail no_command
  if_dispatched status reason (some c) =
      if is_dispatched c.status then answer status reason c else fail no_command

  unfoldable pub ack : Text → Text → Db GatewayDb (Unit {0})
  ack status reason =
      transaction
        (do c ← query (λ d. find_first (owned cmd agent) d.commands); if_dispatched status reason c)
