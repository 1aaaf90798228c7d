-- ===== src/Signer/Messages.antt =====
-- Two envelopes that are written to the hash as the same text are the same (internal/pkg/signer/signer.go).
use iflygo.Prelude.{ℕ, ◌+◌, ◌≡◌, ap, arith, inl}
use iflygo.Text.Decimal.{decimal, decimal-same}
use iflygo.Text.Pieces.{count, joined, count-joined, joined-same, count-decimal}
use iflygo.Signer.{Envelope, message}

-- The parts of an envelope are on one line each.
abbrev pub IsPlain : Envelope → Type 0
IsPlain e =
    (count 10 e.method ≡ 0) × (count 10 e.path ≡ 0) × (count 10 e.body ≡ 0) × (count 10 e.nonce ≡ 0)

decimal-count : (n : ℕ) → count 10 (decimal n) ≡ 0
decimal-count n = count-decimal 10 n (inl (omega arith))

count-message :
    (e : Envelope)
    → count 10 (message e)
      ≡ count 10 e.method + count 10 e.path + count 10 e.body + count 10 e.nonce + 4
unfolding message
count-message e = omega (
  arith,
  decimal-count e.timestamp,
  count-joined 10 e.method
      (joined 10 e.path (joined 10 e.body (joined 10 (decimal e.timestamp) e.nonce))),
  count-joined 10 e.path (joined 10 e.body (joined 10 (decimal e.timestamp) e.nonce)),
  count-joined 10 e.body (joined 10 (decimal e.timestamp) e.nonce),
  count-joined 10 (decimal e.timestamp) e.nonce,
)

message-IsPlain : (e f : Envelope) → IsPlain e → message f ≡ message e → IsPlain f
message-IsPlain e f (m, p, b, n) same =
    let c = ap (count 10) same in
    let ce = count-message e in
    let cf = count-message f in (omega arith, omega arith, omega arith, omega arith)

-- The pieces of two envelopes.
abbrev pub AreSame : Envelope → Envelope → Type 0
AreSame e f =
    (e.method ≡ f.method)
    × (e.path ≡ f.path)
    × (e.body ≡ f.body)
    × (e.timestamp ≡ f.timestamp)
    × (e.nonce ≡ f.nonce)

-- An envelope with the message of a plain one, whatever is in it, has the same parts.
pub message-same : (e f : Envelope) → IsPlain e → message f ≡ message e → AreSame f e
unfolding message
message-same e f plain same =
    let (m, p, b, n) = plain in
    let (m', p', b', n') = message-IsPlain e f plain same in
    let (r1, t1) = joined-same 10 f.method e.method _ _ m' m same in
    let (r2, t2) = joined-same 10 f.path e.path _ _ p' p t1 in
    let (r3, t3) = joined-same 10 f.body e.body _ _ b' b t2 in
    let (r4, t4) =
      joined-same 10 (decimal f.timestamp) (decimal e.timestamp) _ _ (decimal-count f.timestamp)
        (decimal-count e.timestamp) t3 in
    (r1, r2, r3, decimal-same f.timestamp e.timestamp r4, t4)
