-- ===== src/Agentgw/Delivery.antt =====
-- The rest of Dequeue, after its commit (internal/logic/agentgw/gateway.go): what the agent can do, and
-- the command that is signed for it.
pub mod Genuine
pub mod Poll
use iflygo.Prelude.{
  ℕ, ◌*◌, ◌/◌, Bool, true, false, Option, none, some, List, [], ◌∷◌, if◌then◌else◌, ◌&&◌, not,
}
use iflygo.Text.{Text, text, is_empty, contains, split}
use iflygo.Text.Utf8.{Bytes}
use iflygo.Text.Decimal.{decimal}
use iflygo.Agentgw.Rows.{second}
use iflygo.Agentgw.Ack.{SignatureMode, normalize_signature_modes}
use iflygo.Signer.{Envelope, sign}
use iflygo.Protocol.{
  CommandSpec, Payload, Command, signed_path, has_capability, is_uninstall_action,
  canonical_payload_with_legacy_command,
}

-- `AgentSigning`
pub record AgentSigning : Type 0 where
  pub secret : Text
  pub legacy_signature_mode : SignatureMode
  pub legacy_command_field : Bool
  pub uninstall_detect : Bool

abbrev pub prefers : List SignatureMode → SignatureMode
prefers [] = SignatureMode.id
prefers (SignatureMode.signed_path ∷ ms) = SignatureMode.signed_path
prefers (SignatureMode.id ∷ ms) = prefers ms
prefers (SignatureMode.v2 ∷ ms) = prefers ms

unfoldable pub preferred_legacy_signature_mode : List Text → SignatureMode
preferred_legacy_signature_mode modes = prefers (normalize_signature_modes modes)

-- `AgentSigningInfo`, of the columns of the agent's row
unfoldable pub agent_signing_info :
    (secret stored_modes capabilities build_version : Text) → AgentSigning
agent_signing_info secret stored_modes capabilities build_version =
    let optional = has_capability capabilities (text "optional_command") in
    let field = has_capability capabilities (text "run_command") && not optional in
    record {
      secret = secret;
      legacy_signature_mode = preferred_legacy_signature_mode (split b',' stored_modes);
      legacy_command_field =
          if not field && not optional && contains build_version (text "g512d1f9")
          then true
          else field;
      uninstall_detect = has_capability capabilities (text "uninstall_detect");
    }

abbrev pub none_given : List Text → Bool
none_given [] = true
none_given (x ∷ xs) = false

unfoldable pub is_empty_command_spec : CommandSpec → Bool
is_empty_command_spec c =
    is_empty c.script
    && is_empty c.interpreter
    && none_given c.args
    && none_given c.env
    && is_empty c.work_dir
    && is_empty c.timeout
    && is_empty c.stdin
    && not c.tty
    && not c.ignore_error

abbrev pub unless_blank : Option CommandSpec → Option CommandSpec
unless_blank none = none
unless_blank (some spec) = if is_empty_command_spec spec then none else some spec

abbrev pub is_none : Option CommandSpec → Bool
is_none none = true
is_none (some spec) = false

-- The payload as this agent can take it.
unfoldable pub adapted : {R : Type 0} → AgentSigning → Payload R → Payload R
adapted signing p = record p {
  command = unless_blank p.command;
  service_name =
      if not signing.uninstall_detect
        && not (is_empty p.service_name)
        && is_uninstall_action p.exec_args
      then []
      else p.service_name;
}

module _ {R : Type 0} (marshal : Payload R → Text) (mac : (key message : Bytes) → Text) where
  abbrev pub canonical : AgentSigning → Payload R → Text
  canonical signing p =
      if signing.legacy_command_field && is_none p.command
      then canonical_payload_with_legacy_command (marshal p)
      else marshal p

  abbrev pub legacy_path : SignatureMode → Command R → Text
  legacy_path SignatureMode.signed_path c = signed_path c
  legacy_path _ c = c.id

  -- The command before it is signed; the end of the lease is cut to seconds.
  abbrev pub unsigned :
      AgentSigning → (id : ℕ) → (type : Text) → Payload R → (lease now : ℕ) → Text → Command R
  unsigned signing id type payload lease now nonce = record {
    id = decimal id;
    type = type;
    payload = adapted signing payload;
    timestamp = now / second;
    nonce = nonce;
    signature = [];
    signature_v2 = [];
    expire_at = some (lease / second * second);
  }

  abbrev pub server_envelope : AgentSigning → Command R → Text → Envelope
  server_envelope signing c path = record {
    method = text "CMD";
    path = path;
    body = canonical signing c.payload;
    timestamp = c.timestamp;
    nonce = c.nonce;
  }

  abbrev pub signed_by : AgentSigning → Command R → Command R
  signed_by signing c = record c {
    signature =
        sign mac signing.secret
          (server_envelope signing c (legacy_path signing.legacy_signature_mode c));
    signature_v2 = sign mac signing.secret (server_envelope signing c (signed_path c));
  }

  unfoldable pub deliver :
      AgentSigning
      → (id : ℕ) → (type : Text) → Payload R
      → (lease now : ℕ) → (nonce : Text) → Command R
  deliver signing id type payload lease now nonce =
      signed_by signing (unsigned signing id type payload lease now nonce)
