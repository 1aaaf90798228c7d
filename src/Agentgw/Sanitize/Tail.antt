-- ===== src/Agentgw/Sanitize/Tail.antt =====
-- What is kept of a log that is too long: its end, and a note (internal/logic/agentgw/sanitize.go).
use iflygo.Prelude.{
  ℕ, zero, suc, ◌+◌, ◌-◌, ◌≤◌, ◌<◌, ◌≡◌, refl, false, [], ◌∷◌, ◌++◌, if◌then◌else◌, ltb, leb, ◌==◌,
  length, leb→le, All, All-append, arith, ap, ◌∙◌, sym, Bool-cases, inl, inr, ◌⊎◌,
}
use iflygo.Text.{Text, is_empty}
use iflygo.Text.Utf8.{
  Bytes, encode, encode_rune, decode, decode-encode, rune_start, width, size, length-encode, IsRune,
  length-encode_rune,
}
use iflygo.Agentgw.Sanitize.{drop, skip_continued, tail_utf8, append_log, with_note, note}

-- The longest end of a text that fits in so many bytes.
unfoldable pub ending : ℕ → Text → Text
ending n [] = []
ending n (r ∷ s) = let rest = ending n s in if leb (size (r ∷ s)) n then r ∷ s else rest

ending_all : (n : ℕ) (s : Text) → size s ≤ n → ending n s ≡ s
unfolding ending
ending_all n [] h = refl
ending_all n (r ∷ s) h = ground arith

drop-append : (cs bs : Bytes) (k : ℕ) → drop (length cs + k) (cs ++ bs) ≡ drop k bs
drop-append [] bs k = ap (λ n. drop n bs) {y = k} (omega arith)
drop-append (c ∷ cs) bs k =
    ap (λ n. drop n (c ∷ cs ++ bs)) {y = suc (length cs + k)} (omega arith) ∙ drop-append cs bs k

skip_start : (s : Text) → All IsRune s → skip_continued (encode s) ≡ encode s
unfolding skip_continued encode encode_rune rune_start
skip_start [] h = refl
skip_start (r ∷ s) h = ground arith

-- A cut inside a character drops the rest of it.
skip_within :
    (r : ℕ) (bs : Bytes) (d : ℕ)
    → IsRune r
    → 0 < d
    → d < width r
    → skip_continued bs ≡ bs
    → skip_continued (drop d (encode_rune r ++ bs)) ≡ bs
unfolding skip_continued encode_rune rune_start
skip_within r bs zero h pos lt e = absurd (omega arith)
skip_within r bs (suc zero) h pos lt e = ground arith
skip_within r bs (suc (suc zero)) h pos lt e = ground arith
skip_within r bs (suc (suc (suc zero))) h pos lt e = ground arith
skip_within r bs (suc (suc (suc (suc n)))) h pos lt e = absurd (ground arith)

-- Where the limit is not below the size, nothing is dropped.
skip_none :
    (s : Text) (n : ℕ)
    → All IsRune s
    → size s ≤ n
    → skip_continued (drop (size s - n) (encode s)) ≡ encode (ending n s)
skip_none s n h le =
    let d : size s - n ≡ 0 = omega arith in rw (d, ending_all n s le) (skip_start s h)

skip_long :
    (r : ℕ) (s : Text) (n : ℕ)
    → All IsRune (r ∷ s)
    → n < width r + size s
    → skip_continued (drop (size s - n) (encode s)) ≡ encode (ending n s)
    → skip_continued (drop (width r + size s - n) (encode_rune r ++ encode s)) ≡ encode (ending n s)
skip_long r s n h lt ih = elim (Bool-cases (ltb (size s) n)) [
  | inl last ↦
      skip_within r (encode s) (width r + size s - n) h.0 (omega arith) (ground arith)
        (skip_start s h.1)
      ∙ ap encode (sym (ending_all n s (ground arith)))
  | inr more ↦
      let w = length-encode_rune r in
      let d : width r + size s - n ≡ length (encode_rune r) + (size s - n) = ground arith in
      ap (λ k. skip_continued (drop k (encode_rune r ++ encode s))) d
      ∙ ap skip_continued (drop-append (encode_rune r) (encode s) (size s - n))
      ∙ ih
]

skip_fitting :
    (s : Text) (n : ℕ)
    → All IsRune s
    → skip_continued (drop (size s - n) (encode s)) ≡ encode (ending n s)
unfolding ending encode size
skip_fitting [] n h = skip_none [] n h (omega arith)
skip_fitting (r ∷ s) n h = elim (Bool-cases (leb (width r + size s) n)) [
  | inl all ↦ skip_none (r ∷ s) n h (leb→le (width r + size s) n all)
  | inr long ↦ simp long (skip_long r s n h (ground arith) (skip_fitting s n h.1))
]

ending-IsRune : (n : ℕ) (s : Text) → All IsRune s → All IsRune (ending n s)
unfolding ending
ending-IsRune n [] h = tt
ending-IsRune n (r ∷ s) h = ground (arith, ending-IsRune n s h.1)

-- `tailUTF8` keeps the longest end of a text whose bytes are within the limit, and never breaks a
-- character.
pub tail_utf8-ending :
    (s : Text) (max : ℕ) → 0 < max → All IsRune s → tail_utf8 s max ≡ ending max s
unfolding tail_utf8
tail_utf8-ending s max pos h = elim (Bool-cases (leb (size s) max)) [
  | inl short ↦ ground (arith, ending_all max s, length-encode s)
  | inr long ↦
      let ne : (max == 0) ≡ false = ground arith in
      let e : length (encode s) ≡ size s = length-encode s in
      simp (ne, e, long)
        (ap decode (skip_fitting s max h) ∙ decode-encode (ending max s) (ending-IsRune max s h))
]

size-append : (s t : Text) → size (s ++ t) ≡ size s + size t
unfolding size
size-append [] t = omega arith
size-append (r ∷ s) t = omega (arith, size-append s t)

ending_bounds :
    (n : ℕ) (s : Text) → n < size s → (size (ending n s) ≤ n) × (n ≤ size (ending n s) + 3)
unfolding ending size
ending_bounds n [] h = absurd (omega arith)
ending_bounds n (r ∷ s) h = elim (Bool-cases (ltb n (size s))) [
  | inl more ↦ ground (arith, ending_bounds n s)
  | inr last ↦ ground (arith, ending_all n s)
]

note_size : size note ≡ 37
unfolding size
note_size = refl

with_note_bounds :
    (t : Text) (max : ℕ)
    → size t ≤ max
    → max ≤ size t + 3
    → 40 < max
    → (size (with_note t) ≤ max + 37) × (max < size (with_note t))
unfolding with_note
with_note_bounds t max le ge enough =
    let longer : leb (size t) (size note) ≡ false = rw note_size (ground arith) in
    let a = length-encode t in
    let b = length-encode note in rw (a, b, longer) (omega (arith, size-append note t, note_size))

-- A log that has grown past its limit of more than 40 bytes is cut to its end, but with the note
-- before it that is past the limit again, by up to 37 bytes; a log within the limit is kept whole.
pub append_log_bounds :
    (current line : Text) (max : ℕ)
    → 40 < max
    → All IsRune current
    → All IsRune line
    → is_empty line ≡ false
    → (size (append_log current line max) ≤ max + 37)
      × ((append_log current line max ≡ current ++ line)
          ⊎ (max < size (append_log current line max)))
unfolding append_log
append_log_bounds current line max enough hc hl some_line =
    let e = length-encode (current ++ line) in
    let ne : (max == 0) ≡ false = ground arith in
    let runes = All-append IsRune current line hc hl in
    elim (Bool-cases (leb (size (current ++ line)) max)) [
      | inl short ↦
          simp (some_line, ne, e, short)
            (omega (arith, leb→le (size (current ++ line)) max short), inl refl)
      | inr long ↦
          let ends = tail_utf8-ending (current ++ line) max (omega arith) runes in
          let b = ending_bounds max (current ++ line) (ground arith) in
          let n = with_note_bounds (ending max (current ++ line)) max b.0 b.1 enough in
          simp (some_line, ne, e, long, ends) (n.0, inr n.1)
    ]
