-- ===== src/Agent.antt =====
-- How an agent checks a command before it runs it (internal/agent/agentrun/run.go, verifyCommand). The
-- payload's JSON is the parameter `marshal`, HMAC-SHA256 the parameter `mac`.
use iflygo.Prelude.{ℕ, ◌*◌, Bool, false, Option, none, some, if◌then◌else◌, ltb}
use iflygo.Text.{Text, text, is_empty}
use iflygo.Text.Utf8.{Bytes}
use iflygo.Agentgw.Rows.{minute}
use iflygo.Signer.{Envelope, Verdict, accepted, no_secret, expired, verify}
use iflygo.Protocol.{Payload, Command, signed_path}

-- `AgentConfig`; the clock skew if it can be read and is positive.
pub record Config : Type 0 where
  pub secret : Text
  pub clock_skew : Option ℕ

abbrev pub skew_of : Option ℕ → ℕ
skew_of none = 10 * minute
skew_of (some s) = s

abbrev pub is_past : ℕ → Option ℕ → Bool
is_past now none = false
is_past now (some t) = ltb t now

abbrev pub or_verdict : Verdict → Verdict → Verdict
or_verdict accepted v = accepted
or_verdict _ accepted = accepted
or_verdict e _ = e

module _ {R : Type 0} (marshal : Payload R → Text) (mac : (key message : Bytes) → Text) where
  -- The envelope of a command, with the path that its signature covers.
  abbrev pub envelope : Command R → Text → Envelope
  envelope c path = record {
    method = text "CMD";
    path = path;
    body = marshal c.payload;
    timestamp = c.timestamp;
    nonce = c.nonce;
  }

  abbrev pub check : Config → (now : ℕ) → Command R → (signature path : Text) → Verdict
  check cfg now c signature path =
      verify mac now cfg.secret signature (envelope c path) (skew_of cfg.clock_skew)

  unfoldable pub verify_command : Config → (now : ℕ) → Command R → Verdict
  verify_command cfg now c =
      if is_empty cfg.secret
      then no_secret
      else if is_past now c.expire_at
      then expired
      else if is_empty c.signature_v2
      then or_verdict (check cfg now c c.signature (signed_path c))
          (check cfg now c c.signature c.id)
      else check cfg now c c.signature_v2 (signed_path c)
