-- ===== src/Signer.antt =====
-- The signature of a command's envelope and its check (internal/pkg/signer/signer.go). HMAC-SHA256, as
-- a hexadecimal text, is the parameter `mac`; times are nanoseconds.
pub mod Messages
use iflygo.Prelude.{ℕ, ◌+◌, ◌/◌, Bool, List, [], ◌∷◌, ◌++◌, if◌then◌else◌, ltb, not, ◌||◌}
use iflygo.Text.{Text, text_eq, trim_space, is_empty}
use iflygo.Text.Utf8.{Bytes, encode}
use iflygo.Text.Decimal.{decimal}
use iflygo.Text.Pieces.{joined}
use iflygo.Agentgw.Rows.{second}

pub record Envelope : Type 0 where
  pub method : Text
  pub path : Text
  pub body : Text
  -- in Unix seconds
  pub timestamp : ℕ
  pub nonce : Text

-- What is written to the hash, as a text.
unfoldable pub message : Envelope → Text
message e =
    joined 10 e.method
      (joined 10 e.path (joined 10 e.body (joined 10 (decimal e.timestamp) e.nonce)))

pub data Verdict : Type 0 where
  accepted no_nonce mismatch out_of_window no_secret expired : Verdict

-- `e.Timestamp < now-skewSec || e.Timestamp > now+skewSec`
abbrev pub is_outside : (now skew timestamp : ℕ) → Bool
is_outside now skew timestamp =
    ltb (timestamp + skew / second) (now / second) || ltb (now / second + skew / second) timestamp

module _ (mac : (key message : Bytes) → Text) where
  unfoldable pub sign : Text → Envelope → Text
  sign secret e = mac (encode secret) (encode (message e))

  unfoldable pub verify : (now : ℕ) → (secret signature : Text) → Envelope → (skew : ℕ) → Verdict
  verify now secret signature e skew =
      if is_empty (trim_space e.nonce)
      then no_nonce
      else if not (text_eq (sign secret e) signature)
      then mismatch
      else if is_outside now skew e.timestamp
      then out_of_window
      else accepted
