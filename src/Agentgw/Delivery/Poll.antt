-- ===== src/Agentgw/Delivery/Poll.antt =====
-- Dequeue as a whole (internal/logic/agentgw/gateway.go): a command is taken, its dispatch committed, and
-- only then the data of its signature are read. The columns that `Rows` leaves out are parameters.
use iflygo.Prelude.{ℕ, Option, none, some, String}
use iflygo.Text.{Text, text}
use iflygo.Text.Utf8.{Bytes}
use iflygo.Db.{Db, pure, fail, query, ◌>>=◌, no_agent}
use iflygo.Agentgw.Rows.{Env, GatewayDb, CommandType}
use iflygo.Agentgw.Rows
use iflygo.Agentgw.Dequeue.{dequeue}
use iflygo.Protocol.{Command, Payload}
use iflygo.Agentgw.Delivery.{AgentSigning, deliver}

abbrev pub type_text : CommandType → Text
type_text CommandType.upgrade_component = text "upgrade_component"
type_text CommandType.rollback_component = text "rollback_component"
type_text CommandType.self_update = text "self_update"
type_text CommandType.uninstall_component = text "uninstall_component"
type_text CommandType.run_command = text "run_command"
type_text CommandType.resync = text "resync"
type_text CommandType.health_check = text "health_check"
type_text CommandType.restart_agent = text "restart_agent"

abbrev pub time_or : ℕ → Option ℕ → ℕ
time_or t none = t
time_or t (some u) = u

module _ {R : Type 0} (marshal : Payload R → Text) (mac : (key message : Bytes) → Text)
    (payload_of : ℕ → Payload R) (signing_of : String → Option AgentSigning) (nonce : Text) where
  abbrev pub sign_for : Env → Rows.Command → Option AgentSigning → Db GatewayDb (Option (Command R))
  sign_for env c none = fail no_agent
  sign_for env c (some signing) = pure (
      some (
        deliver marshal mac signing c.id (type_text c.type) (payload_of c.id)
          (time_or 0 c.lease_expire_at) env.now nonce))

  abbrev pub hand_over : Env → String → Option Rows.Command → Db GatewayDb (Option (Command R))
  hand_over env agent none = pure none
  hand_over env agent (some c) = query (λ d. signing_of agent) >>= sign_for env c

  unfoldable pub poll : Env → String → Db GatewayDb (Option (Command R))
  poll env agent = dequeue env agent >>= hand_over env agent
