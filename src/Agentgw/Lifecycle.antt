-- ===== src/Agentgw/Lifecycle.antt =====
-- The life of a command, as an abstract machine: what the gateway promises of each command, whatever
-- requests and reconciliations come in whatever order (internal/logic/agentgw).
pub mod Lists
pub mod Writes
pub mod Refines
use iflygo.Prelude.{
  ℕ, ◌+◌, ◌≤◌, ◌≡◌, refl, Bool, true, false, Option, none, some, String, arith, ap, sym, ◌∙◌,
}
use iflygo.Text.{Text}
use iflygo.Task.Rows.{CommandStatus, is_active}
use iflygo.Agentgw.Rows.{Command, CommandType, is_final}

-- A lease that is set ends no earlier, and one that is not set stays so.
abbrev pub LeaseKept : Option ℕ → Option ℕ → Type 0
LeaseKept none none = Unit
LeaseKept (some t) (some u) = t ≤ u
LeaseKept _ _ = ⊥

-- One turn in a command's life.
pub data Turn (c d : Command) : Type 0 where
  -- it waits, and is handed to its agent
  handed :
      c.status ≡ CommandStatus.pending
      → d.status ≡ CommandStatus.dispatched
      → d.attempts ≡ c.attempts + 1
      → Turn c d
  -- its agent accepts it
  accepted :
      c.status ≡ CommandStatus.dispatched
      → d.status ≡ CommandStatus.accepted
      → d.attempts ≡ c.attempts
      → LeaseKept c.lease_expire_at d.lease_expire_at
      → Turn c d
  -- its agent cannot read it, and it waits again; only the first time
  put_back :
      c.status ≡ CommandStatus.dispatched
      → c.attempts ≤ 1
      → d.status ≡ CommandStatus.pending
      → d.attempts ≡ c.attempts
      → Turn c d
  -- it is under way
  runs :
      is_active c.status ≡ true
      → d.status ≡ CommandStatus.running
      → d.attempts ≡ c.attempts
      → LeaseKept c.lease_expire_at d.lease_expire_at
      → Turn c d
  -- it ends with a result, or because it is given up
  ends :
      is_active c.status ≡ true
      → is_final d.status ≡ true
      → d.attempts ≡ c.attempts
      → LeaseKept c.lease_expire_at d.lease_expire_at
      → Turn c d
  -- a user cancels it
  stopped :
      is_active c.status ≡ true
      → d.status ≡ CommandStatus.canceled
      → d.attempts ≡ c.attempts
      → Turn c d

-- What never changes in a command.
pub record Identity : Type 0 where
  pub id : ℕ
  pub agent : String
  pub task_host : Option ℕ
  pub type : CommandType
  pub payload_version : Text
  pub created_at : ℕ
  pub expire_at : Option ℕ

abbrev pub identity : Command → Identity
identity c = record {
  id = c.id;
  agent = c.agent;
  task_host = c.task_host;
  type = c.type;
  payload_version = c.payload_version;
  created_at = c.created_at;
  expire_at = c.expire_at;
}

-- A part of a command's life, turn after turn.
pub data Life (c : Command) : Command → Type 0 where
  still : Life c c
  onward : {d e : Command} → Life c d → identity e ≡ identity d → Turn d e → Life c e

pub Life-trans : {c d e : Command} → Life c d → Life d e → Life c e
Life-trans l still = l
Life-trans l (onward m same turn) = onward (Life-trans l m) same turn

pub Turn-active : {c d : Command} → Turn c d → is_active c.status ≡ true
Turn-active (handed p q r) = rw p
Turn-active (accepted p q r l) = rw p
Turn-active (put_back p few q r) = rw p
Turn-active (runs a q r l) = a
Turn-active (ends a q r l) = a
Turn-active (stopped a q r) = a

pub Life-identity : {c d : Command} → Life c d → identity d ≡ identity c
Life-identity still = refl
Life-identity (onward l same turn) = same ∙ Life-identity l

-- A command that has ended has no further turn.
pub Life-ended : {c d : Command} → Life c d → is_active c.status ≡ false → d ≡ c
Life-ended still h = refl
Life-ended (onward l same turn) h =
    let e = Life-ended l h in
    let a = Turn-active turn in
    absurd (false_ne_true (sym h ∙ sym (ap (λ x. is_active x.status) e) ∙ a))
  where
    false_ne_true : false ≡ true → ⊥
    false_ne_true p = cc

-- How often a command may have been handed out: once, and once more if it was put back.
abbrev pub most_attempts : CommandStatus → ℕ
most_attempts CommandStatus.pending = 1
most_attempts _ = 2

abbrev pub FewAttempts : Command → Type 0
FewAttempts c = (c.attempts ≤ most_attempts c.status)

most_attempts-le : (st : CommandStatus) → most_attempts st ≤ 2
most_attempts-le CommandStatus.pending = omega arith
most_attempts-le _ = omega arith

final_most : (st : CommandStatus) → is_final st ≡ true → most_attempts st ≡ 2
final_most st h = ground arith

Turn-FewAttempts : {c d : Command} → Turn c d → FewAttempts c → FewAttempts d
Turn-FewAttempts (handed p q r) h = rw (q, r) (ground arith)
Turn-FewAttempts {c} (accepted p q r l) h = rw (q, r) (omega (arith, most_attempts-le c.status))
Turn-FewAttempts (put_back p few q r) h = rw (q, r) few
Turn-FewAttempts {c} (runs a q r l) h = rw (q, r) (omega (arith, most_attempts-le c.status))
Turn-FewAttempts {c} {d} (ends a q r l) h =
    omega (arith, most_attempts-le c.status, final_most d.status q)
Turn-FewAttempts {c} (stopped a q r) h = rw (q, r) (omega (arith, most_attempts-le c.status))

pub Life-FewAttempts : {c d : Command} → Life c d → FewAttempts c → FewAttempts d
Life-FewAttempts still h = h
Life-FewAttempts (onward l same turn) h = Turn-FewAttempts turn (Life-FewAttempts l h)
