-- ===== src/Agentgw/Sanitize/Cut.antt =====
-- Where a text is cut by bytes, no character is broken (internal/logic/agentgw/sanitize.go).
use iflygo.Prelude.{
  ℕ, zero, suc, ◌+◌, ◌-◌, ◌≤◌, ◌<◌, ◌≡◌, refl, true, false, [], ◌∷◌, ◌++◌, if◌then◌else◌, leb, ◌==◌,
  length, leb→le, All, arith, ap, ◌∙◌, Bool-cases, inl, inr,
}
use iflygo.Text.{Text}
use iflygo.Text.Utf8.{
  Bytes, encode, encode_rune, decode, decode-encode, rune_start, width, size, length-encode, IsRune,
  length-encode_rune,
}
use iflygo.Agentgw.Sanitize.{byte_at, take, back_up, truncate_utf8}

-- The longest beginning of a text that fits in so many bytes.
unfoldable pub fitting : ℕ → Text → Text
fitting n [] = []
fitting n (r ∷ s) = let rest = fitting (n - width r) s in if leb (width r) n then r ∷ rest else []

-- The first byte of what follows, if there is any, begins a character.
starts_rune : (s : Text) → All IsRune s → rune_start (byte_at (encode s) 0) ≡ true
unfolding encode encode_rune rune_start
starts_rune [] h = refl
starts_rune (r ∷ s) h = ground arith

-- Within the bytes of a character the cut goes back to its beginning.
back_up-within :
    (r : ℕ) (bs : Bytes) (n : ℕ) → IsRune r → n < width r → back_up (encode_rune r ++ bs) n ≡ 0
unfolding encode_rune rune_start back_up
back_up-within r bs zero h lt = refl
back_up-within r bs (suc zero) h lt = ground arith
back_up-within r bs (suc (suc zero)) h lt = ground arith
back_up-within r bs (suc (suc (suc zero))) h lt = ground arith
back_up-within r bs (suc (suc (suc (suc n)))) h lt = absurd (ground arith)

byte_at-append : (cs bs : Bytes) (k : ℕ) → byte_at (cs ++ bs) (length cs + k) ≡ byte_at bs k
byte_at-append [] bs k = ap (byte_at bs) {y = k} (omega arith)
byte_at-append (c ∷ cs) bs k =
    ap (byte_at (c ∷ cs ++ bs)) {y = suc (length cs + k)} (omega arith) ∙ byte_at-append cs bs k

take-append : (cs bs : Bytes) (k : ℕ) → take (length cs + k) (cs ++ bs) ≡ cs ++ take k bs
take-append [] bs k = ap (λ n. take n bs) {y = k} (omega arith)
take-append (c ∷ cs) bs k =
    ap (λ n. take n (c ∷ cs ++ bs)) {y = suc (length cs + k)} (omega arith)
    ∙ ap (λ l. c ∷ l) (take-append cs bs k)

back_up-end :
    (cs bs : Bytes) → rune_start (byte_at bs 0) ≡ true → back_up (cs ++ bs) (length cs) ≡ length cs
unfolding back_up
back_up-end [] bs h = refl
back_up-end (c ∷ cs) bs h =
    let first : byte_at (cs ++ bs) (length cs) ≡ byte_at bs 0 =
      ap (byte_at (cs ++ bs)) {y = length cs + 0} (omega arith) ∙ byte_at-append cs bs 0 in
    simp (first, h)

-- A cut behind a whole character goes back no further than its end.
back_up-past :
    (cs bs : Bytes) (k : ℕ)
    → rune_start (byte_at bs 0) ≡ true
    → back_up (cs ++ bs) (length cs + k) ≡ length cs + back_up bs k
unfolding back_up
back_up-past cs bs zero h =
    let whole : length cs + 0 ≡ length cs = omega arith in rw whole (back_up-end cs bs h)
back_up-past cs bs (suc k) h =
    let ih = back_up-past cs bs k h in
    let longer : length cs + suc k ≡ suc (length cs + k) = omega arith in
    let same : byte_at (cs ++ bs) (suc (length cs + k)) ≡ byte_at bs (suc k) =
      ap (byte_at (cs ++ bs)) {y = length cs + suc k} (omega arith)
      ∙ byte_at-append cs bs (suc k) in
    rw (longer, same) (ground (arith, ih))

take_none : (n : ℕ) → take n [] ≡ []
take_none zero = refl
take_none (suc n) = refl

cut_past :
    (r : ℕ) (bs : Bytes) (n : ℕ)
    → rune_start (byte_at bs 0) ≡ true
    → width r ≤ n
    → take (back_up (encode_rune r ++ bs) n) (encode_rune r ++ bs)
      ≡ encode_rune r ++ take (back_up bs (n - width r)) bs
cut_past r bs n h fits =
    let w = length-encode_rune r in
    let split : n ≡ length (encode_rune r) + (n - width r) = omega arith in
    ap (λ k. take (back_up (encode_rune r ++ bs) k) (encode_rune r ++ bs)) split
    ∙ ap (λ k. take k (encode_rune r ++ bs)) (back_up-past (encode_rune r) bs (n - width r) h)
    ∙ take-append (encode_rune r) bs (back_up bs (n - width r))

-- The bytes up to the cut are those of the longest beginning that fits.
cut_fitting :
    (s : Text) (n : ℕ)
    → All IsRune s
    → take (back_up (encode s) n) (encode s) ≡ encode (fitting n s)
unfolding encode fitting
cut_fitting [] n h = take_none (back_up [] n)
cut_fitting (r ∷ s) n h = elim (Bool-cases (leb (width r) n)) [
  | inl fits ↦ simp fits (
      cut_past r (encode s) n (starts_rune s h.1) (leb→le (width r) n fits)
      ∙ ap (λ t. encode_rune r ++ t) (cut_fitting s (n - width r) h.1))
  | inr not_fits ↦ simp (not_fits, back_up-within r (encode s) n h.0 (ground arith)) refl
]

fitting-IsRune : (n : ℕ) (s : Text) → All IsRune s → All IsRune (fitting n s)
unfolding fitting
fitting-IsRune n [] h = tt
fitting-IsRune n (r ∷ s) h = ground (arith, fitting-IsRune (n - width r) s h.1)

fitting_all : (n : ℕ) (s : Text) → size s ≤ n → fitting n s ≡ s
unfolding fitting size
fitting_all n [] h = refl
fitting_all n (r ∷ s) h = ground (arith, fitting_all (n - width r) s)

-- `truncateUTF8` keeps the longest beginning of a text whose bytes are within the limit, and never
-- breaks a character.
pub truncate_utf8-fitting :
    (s : Text) (max : ℕ) → 0 < max → All IsRune s → truncate_utf8 s max ≡ fitting max s
unfolding truncate_utf8
truncate_utf8-fitting s max pos h = elim (Bool-cases (leb (length (encode s)) max)) [
  | inl short ↦ ground (arith, fitting_all max s, length-encode s)
  | inr long ↦
      let ne : (max == 0) ≡ false = ground arith in
      simp (ne, long)
        (ap decode (cut_fitting s max h) ∙ decode-encode (fitting max s) (fitting-IsRune max s h))
]

size-fitting : (n : ℕ) (s : Text) → size (fitting n s) ≤ n
unfolding fitting size
size-fitting n [] = omega arith
size-fitting n (r ∷ s) = ground (arith, size-fitting (n - width r) s)
