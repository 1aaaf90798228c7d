-- ===== src/Agentgw/Maintenance.antt =====
-- The check of an agent's token, and the maintenance that an agent asks for
-- (internal/logic/agentgw/gateway.go). SHA-256, as a hexadecimal text, is the parameter `hash`.
use Prim.Native.Nat.{◌^◌}
use iflygo.Prelude.{
  ℕ, ◌+◌, ◌*◌, ◌≤◌, ◌<◌, ◌-◌, ◌%◌, ◌⊎◌, leb, Option, none, some, String, if◌then◌else◌, ltb, str_eq,
  arith, Bool-cases, inl, inr, find_first,
}
use iflygo.Prelude.Int.{ℤ, pos, negsuc}
use iflygo.Text.{Text, text_eq, is_empty}
use iflygo.Db.{Db, pure, fail, query, exec, ◌>>=◌, no_credential, bad_credential, no_agent}
use iflygo.Agentgw.Rows.{AgentRow, HostRow, GatewayDb, Env, second, update_hosts, of_agent}

abbrev has_hash : (Text → Text) → Text → Option AgentRow → Db GatewayDb (Unit {0})
has_hash hash token none = fail no_agent
has_hash hash token (some a) =
    if text_eq (hash token) a.token_hash then pure tt else fail bad_credential

unfoldable pub verify_token :
    (hash : Text → Text) → (agent : String) → (token : Text) → Db GatewayDb (Unit {0})
verify_token hash agent token =
    if str_eq agent ""
    then fail no_credential
    else if is_empty token
    then fail no_credential
    else do a ← query (λ d. find_first (λ a. str_eq a.agent agent) d.agents); has_hash hash token a

-- `expectedSeconds`, or ten minutes where that is not positive
abbrev pub expected : ℤ → ℕ
expected (pos n) = if ltb 0 n then n else 600
expected (negsuc n) = 600

-- `time.Duration(expectedSeconds+120) * time.Second`, in 64 bits without the sign
abbrev pub delay_bits : ℤ → ℕ
delay_bits seconds = (expected seconds + 120) * second % 2 ^ 64

-- `time.Now().Add(...)`, where a delay with the sign bit goes back
abbrev pub shifted : (now bits : ℕ) → ℕ
shifted now bits = if ltb bits (2 ^ 63) then now + bits else now - (2 ^ 64 - bits)

-- Two minutes more than expected, but an hour at most.
unfoldable pub maintenance_end : ℕ → ℤ → ℕ
maintenance_end now seconds =
    let until = shifted now (delay_bits seconds) in
    let max = now + 3600 * second in if ltb max until then max else until

abbrev pub in_maintenance : ℕ → HostRow → HostRow
in_maintenance until h = record h {
  maintenance_until = some until;
  maintenance_reason = "upgrading";
  agent_status = "upgrading";
}

unfoldable pub enter_maintenance : Env → String → ℤ → Db GatewayDb (Unit {0})
enter_maintenance env agent seconds =
    exec (update_hosts (of_agent agent) (in_maintenance (maintenance_end env.now seconds)))

-- A maintenance ends more than two minutes from now and within an hour, if so many seconds are nanoseconds
-- in 63 bits; with more seconds, up to twice as many, it has ended already.
pub maintenance_end_bounds :
    (now : ℕ) (seconds : ℤ)
    → expected seconds + 120 ≤ 18446744073
    → ((expected seconds + 120 ≤ 9223372036)
        × (now + 120 * second < maintenance_end now seconds)
        × (maintenance_end now seconds ≤ now + 3600 * second))
      ⊎ ((9223372036 < expected seconds + 120) × (maintenance_end now seconds ≤ now))
unfolding maintenance_end
maintenance_end_bounds now (pos n) h = elim (Bool-cases (leb (expected (pos n) + 120) 9223372036)) [
  | inl fits ↦ inl (ground arith)
  | inr over ↦ inr (ground arith)
]
maintenance_end_bounds now (negsuc n) h = inl (ground arith)
