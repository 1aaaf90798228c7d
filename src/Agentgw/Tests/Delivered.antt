-- ===== src/Agentgw/Tests/Delivered.antt =====
-- A command that is delivered, and one that is forged from it (internal/logic/agentgw/gateway.go,
-- internal/agent/agentrun/run.go).
use iflygo.Prelude.{ℕ, ◌+◌, ◌*◌, ◌≡◌, refl, ap, false, none, [], ◌∷◌, ◌++◌, arith, All}
use iflygo.Text.{Text, text, text_eq, has_prefix, to_lower, is_empty, trim_space}
use iflygo.Text.Utf8.{Bytes, encode, IsRune}
use iflygo.Text.Decimal.{decimal, digits}
use iflygo.Text.Pieces.{count}
use iflygo.Agentgw.Rows.{second}
use iflygo.Agentgw.Ack.{SignatureMode}
use iflygo.Signer.{message, sign, accepted}
use iflygo.Protocol.{Command, Payload, signed_path, unix_text, is_uninstall_action}
use iflygo.Agent.{verify_command, envelope}
use iflygo.Agentgw.Delivery.{AgentSigning, adapted, deliver}
use iflygo.Agentgw.Delivery.Genuine.{delivered_accepted, accepted_is_delivered, forged_accepted}

abbrev marshal : Payload ℕ → Text
marshal p = text "{" ++ p.service_name ++ text "}"

abbrev mac : (key message : Bytes) → Text
mac key m = b'#' ∷ m

abbrev signing : AgentSigning
signing = record {
  secret = text "s3cret";
  legacy_signature_mode = SignatureMode.id;
  legacy_command_field = false;
  uninstall_detect = false;
}

-- A removal, whose service the old agent must not start again.
abbrev payload : Payload ℕ
payload = record {
  service_name = text "nginx";
  exec_args = text "-y" ∷ text "Remove" ∷ [];
  command = none;
  other = 0;
}

abbrev lease : ℕ
lease = 130 * second + 7

abbrev sent : Command ℕ
sent =
    deliver marshal mac signing 42 (text "uninstall_component") payload lease (100 * second)
      (text "a1")

delivered_accepted_example :
    (verify_command marshal mac
        (record { secret = text "s3cret"; clock_skew = none })
        (120 * second)
        sent
      ≡ accepted)
    × (verify_command marshal mac
          (record { secret = text "s3cret"; clock_skew = none })
          (120 * second)
          (record sent { signature_v2 = [] })
        ≡ accepted)
unfolding is_empty trim_space
delivered_accepted_example =
    delivered_accepted marshal mac signing 42 (text "uninstall_component") payload lease
      (100 * second) (text "a1") none (120 * second) refl refl refl (λ key m. refl) refl refl

abbrev after_first : Bytes → Bytes
after_first [] = []
after_first (b ∷ bs) = bs

same_bytes :
    (m : Bytes)
    → mac (encode (text "s3cret")) m ≡ sent.signature_v2
    → m ≡ encode (message (envelope marshal mac sent (signed_path sent)))
unfolding deliver sign signed_path
same_bytes m e = ap after_first e

sent_runes : All IsRune (message (envelope marshal mac sent (signed_path sent)))
unfolding deliver message decimal digits adapted signed_path is_empty is_uninstall_action to_lower
    trim_space has_prefix text_eq
sent_runes = omega arith

accepted_is_delivered_example :
    (sent.id ≡ sent.id)
    × (sent.type ≡ sent.type)
    × (unix_text sent.expire_at ≡ unix_text sent.expire_at)
    × (marshal sent.payload ≡ marshal sent.payload)
    × (sent.timestamp ≡ sent.timestamp)
    × (sent.nonce ≡ sent.nonce)
unfolding deliver sign is_empty adapted count is_uninstall_action to_lower trim_space has_prefix
    text_eq
accepted_is_delivered_example =
    accepted_is_delivered marshal mac signing 42 (text "uninstall_component") payload lease
      (100 * second) (text "a1") none (120 * second) sent refl (refl, refl) (refl, refl) same_bytes
      sent_runes sent_runes refl refl
      (delivered_accepted marshal mac signing 42 (text "uninstall_component") payload lease
        (100 * second) (text "a1") none (120 * second) refl refl refl (λ key m. refl) refl refl).0

forged_accepted_example :
    verify_command marshal mac
      (record { secret = text "s3cret"; clock_skew = none })
      (500 * second)
      (record sent { type = text "self_update"; expire_at = none; signature_v2 = [] })
    ≡ accepted
unfolding is_empty trim_space
forged_accepted_example =
    forged_accepted marshal mac signing 42 (text "uninstall_component") payload lease (100 * second)
      (text "a1") none (500 * second) (text "self_update") refl refl refl refl refl
