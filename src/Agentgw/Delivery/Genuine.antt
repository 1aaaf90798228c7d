-- ===== src/Agentgw/Delivery/Genuine.antt =====
-- What the agent makes of a command that the server delivered, whole or tampered with
-- (internal/logic/agentgw/gateway.go, internal/agent/agentrun/run.go).
use iflygo.Prelude.{
  ℕ, ◌*◌, ◌/◌, ◌≡◌, refl, true, false, Option, none, some, [], ap, ◌∙◌, sym, arith, All, inl, inr,
}
use iflygo.Text.{Text, text_eq, text_eq_iff, is_empty, trim_space}
use iflygo.Text.Utf8.{Bytes, encode, decode, decode-encode, IsRune}
use iflygo.Text.Decimal.{decimal}
use iflygo.Text.Pieces.{count, count-decimal}
use iflygo.Agentgw.Rows.{second}
use iflygo.Agentgw.Ack.{SignatureMode}
use iflygo.Signer.{Envelope, message, sign, verify, Verdict, accepted, is_outside}
use iflygo.Protocol.{Command, Payload, signed_path, unix_text}
use iflygo.Protocol.Paths.{signed_path-newlines, signed_path-same}
use iflygo.Signer.Messages.{message-same}
use iflygo.Agent.{Config, skew_of, is_past, or_verdict, verify_command, envelope}
use iflygo.Agentgw.Delivery.{AgentSigning, adapted, deliver, unsigned, legacy_path}

text_eq_refl : (s : Text) → text_eq s s ≡ true
text_eq_refl s = (text_eq_iff s s).1 refl

or_verdict-accepted : (v : Verdict) → or_verdict v accepted ≡ accepted
or_verdict-accepted v = ground arith

module _ {R : Type 0} (marshal : Payload R → Text) (mac : (key message : Bytes) → Text) where
  verify-sign :
      (now : ℕ) (secret : Text) (e : Envelope) (skew : ℕ)
      → is_empty (trim_space e.nonce) ≡ false
      → is_outside now skew e.timestamp ≡ false
      → verify mac now secret (sign mac secret e) e skew ≡ accepted
  unfolding verify
  verify-sign now secret e skew named inside =
      rw (named, text_eq_refl (sign mac secret e), inside) refl

  verify-accepted :
      (now : ℕ) (secret signature : Text) (e : Envelope) (skew : ℕ)
      → verify mac now secret signature e skew ≡ accepted
      → sign mac secret e ≡ signature
  unfolding verify
  verify-accepted now secret signature e skew h =
      (text_eq_iff (sign mac secret e) signature).0 (ground arith)

  verify_command-accepted :
      (cfg : Config) (now : ℕ) (c : Command R)
      → is_empty c.signature_v2 ≡ false
      → verify_command marshal mac cfg now c ≡ accepted
      → sign mac cfg.secret (envelope marshal mac c (signed_path c)) ≡ c.signature_v2
  unfolding verify_command
  verify_command-accepted cfg now c some_v2 h =
      verify-accepted now cfg.secret c.signature_v2 (envelope marshal mac c (signed_path c))
        (skew_of cfg.clock_skew) (ground arith)

  sign-some :
      ((key m : Bytes) → is_empty (mac key m) ≡ false)
      → (secret : Text) (e : Envelope) → is_empty (sign mac secret e) ≡ false
  unfolding sign
  sign-some h secret e = h (encode secret) (encode (message e))

  -- Where each envelope passes with its own signature, the old signature passes in either mode.
  old_signature :
      (mode : SignatureMode) (c : Command R) (now : ℕ) (secret : Text) (skew : ℕ)
      (e : Text → Envelope)
      → ((path : Text) → verify mac now secret (sign mac secret (e path)) (e path) skew ≡ accepted)
      → or_verdict
          (verify mac now secret
            (sign mac secret (e (legacy_path marshal mac mode c)))
            (e (signed_path c))
            skew)
          (verify mac now secret
            (sign mac secret (e (legacy_path marshal mac mode c)))
            (e c.id)
            skew)
        ≡ accepted
  old_signature SignatureMode.signed_path c now secret skew e passes =
      rw (passes (signed_path c)) refl
  old_signature SignatureMode.id c now secret skew e passes =
      rw (passes c.id) (or_verdict-accepted _)
  old_signature SignatureMode.v2 c now secret skew e passes =
      rw (passes c.id) (or_verdict-accepted _)

  module _ (signing : AgentSigning) (id : ℕ) (type : Text) (payload : Payload R) (lease now : ℕ)
      (nonce : Text) where
    abbrev sent : Command R
    sent = deliver marshal mac signing id type payload lease now nonce

    -- A command that the server delivers is taken by an agent that has the secret and marshals payloads
    -- as the server does, until the lease is over and while the clocks differ by less than the skew;
    -- and also without the new signature, in both of the old modes. (The secret is not empty and the nonce
    -- not blank, no signature is empty, and the agent is none that wants the old command field.)
    pub delivered_accepted :
        (clock_skew : Option ℕ) (now' : ℕ)
        → is_empty signing.secret ≡ false
        → signing.legacy_command_field ≡ false
        → is_empty (trim_space nonce) ≡ false
        → ((key m : Bytes) → is_empty (mac key m) ≡ false)
        → is_past now' (some (lease / second * second)) ≡ false
        → is_outside now' (skew_of clock_skew) (now / second) ≡ false
        → (verify_command marshal mac
              (record { secret = signing.secret; clock_skew = clock_skew })
              now'
              sent
            ≡ accepted)
          × (verify_command marshal mac
                (record { secret = signing.secret; clock_skew = clock_skew })
                now'
                (record sent { signature_v2 = [] })
              ≡ accepted)
    unfolding deliver verify_command signed_path is_empty
    delivered_accepted clock_skew now' known plain named some_mac in_time inside =
        let c = unsigned marshal mac signing id type payload lease now nonce in
        let passes = λ (path : Text).
          verify-sign now' signing.secret (envelope marshal mac c path) (skew_of clock_skew) named
            inside in
        let v2 = sign-some some_mac signing.secret (envelope marshal mac c (signed_path c)) in
        (
          simp (known, plain, in_time, v2) (passes (signed_path c)),
          simp (known, plain, in_time)
              (old_signature signing.legacy_signature_mode c now' signing.secret
                (skew_of clock_skew) (envelope marshal mac c) passes),
        )

    -- Whatever command an agent with the same secret takes by the new signature of a delivered one has
    -- the id, the type, the second of expiry, the payload's JSON, the time and the nonce of that one. (No
    -- other message has its signature, its type has no bar, the parts of its envelope are on one line,
    -- both messages are of valid characters, the signature is not empty, and the agent for which the
    -- command was signed is none that wants the old command field.)
    pub accepted_is_delivered :
        (clock_skew : Option ℕ) (now' : ℕ) (f : Command R)
        → signing.legacy_command_field ≡ false
        → (count b'|' type ≡ 0) × (count 10 type ≡ 0)
        → (count 10 (marshal (adapted signing payload)) ≡ 0) × (count 10 nonce ≡ 0)
        → ((m : Bytes)
            → mac (encode signing.secret) m ≡ sent.signature_v2
            → m ≡ encode (message (envelope marshal mac sent (signed_path sent))))
        → All IsRune (message (envelope marshal mac sent (signed_path sent)))
        → All IsRune (message (envelope marshal mac f (signed_path f)))
        → is_empty sent.signature_v2 ≡ false
        → f.signature_v2 ≡ sent.signature_v2
        → verify_command marshal mac
            (record { secret = signing.secret; clock_skew = clock_skew })
            now'
            f
          ≡ accepted
        → (f.id ≡ sent.id)
          × (f.type ≡ sent.type)
          × (unix_text f.expire_at ≡ unix_text sent.expire_at)
          × (marshal f.payload ≡ marshal sent.payload)
          × (f.timestamp ≡ sent.timestamp)
          × (f.nonce ≡ sent.nonce)
    unfolding deliver sign count
    accepted_is_delivered clock_skew now' f plain (bars, lines) (body, named) unique runes runes'
          some_v2 same taken =
        let cfg : Config = record { secret = signing.secret; clock_skew = clock_skew } in
        let e = envelope marshal mac sent (signed_path sent) in
        let e' = envelope marshal mac f (signed_path f) in
        let by_v2 = verify_command-accepted cfg now' f (ap is_empty same ∙ some_v2) taken in
        let bytes = unique (encode (message e')) (by_v2 ∙ same) in
        let texts =
          sym (decode-encode (message e') runes')
          ∙ ap decode bytes
          ∙ decode-encode (message e) runes in
        let path = signed_path-newlines sent (count-decimal 10 id (inl (omega arith))) lines in
        let (m, p, b, t, n) = message-same e e' (refl, path, body, named) texts in
        let (i, y, x) =
          signed_path-same sent f (count-decimal b'|' id (inr (omega arith))) bars p in
        (i, y, x, b, t, n)

    -- By the old signature of the mode `id`, an agent takes a delivered command whose type is changed
    -- and that never expires, once the new signature is taken off it. (The secret is not empty and the
    -- nonce not blank, the clocks differ by less than the skew, and the agent is none that wants the old
    -- command field.)
    pub forged_accepted :
        (clock_skew : Option ℕ) (now' : ℕ) (other : Text)
        → is_empty signing.secret ≡ false
        → signing.legacy_command_field ≡ false
        → signing.legacy_signature_mode ≡ SignatureMode.id
        → is_empty (trim_space nonce) ≡ false
        → is_outside now' (skew_of clock_skew) (now / second) ≡ false
        → verify_command marshal mac
            (record { secret = signing.secret; clock_skew = clock_skew })
            now'
            (record sent { type = other; expire_at = none; signature_v2 = [] })
          ≡ accepted
    unfolding deliver verify_command is_empty
    forged_accepted clock_skew now' other known plain by_id named inside =
        let c = unsigned marshal mac signing id type payload lease now nonce in
        let passes =
          verify-sign now' signing.secret (envelope marshal mac c (decimal id)) (skew_of clock_skew)
            named inside in
        simp (known, plain, by_id) (rw passes (or_verdict-accepted _))
