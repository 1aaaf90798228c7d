-- ===== src/Text/Utf8.antt =====
-- The bytes of a text in UTF-8, by the rules of Go's unicode/utf8.
use iflygo.Prelude.{
  ℕ, zero, suc, ◌+◌, ◌-◌, ◌*◌, ◌/◌, ◌%◌, ◌<◌, Bool, List, [], ◌∷◌, ◌++◌, ◌≡◌, refl, if◌then◌else◌,
  ltb, ◌==◌, not, length, length-append, All, arith, ap, ◌∙◌,
}

abbrev Text : Type 0
Text = List ℕ

abbrev pub Bytes : Type 0
Bytes = List ℕ

unfoldable pub encode_rune : ℕ → Bytes
encode_rune r =
    if ltb r 0x80
    then r ∷ []
    else if ltb r 0x800
    then (0xC0 + r / 64) ∷ (0x80 + r % 64) ∷ []
    else if ltb r 0x10000
    then (0xE0 + r / 4096) ∷ (0x80 + r / 64 % 64) ∷ (0x80 + r % 64) ∷ []
    else (0xF0 + r / 262144) ∷ (0x80 + r / 4096 % 64) ∷ (0x80 + r / 64 % 64) ∷ (0x80 + r % 64) ∷ []

unfoldable pub encode : Text → Bytes
unfolding encode_rune
encode [] = []
encode (r ∷ s) = encode_rune r ++ encode s

-- How many bytes follow a first byte, and the bits that it carries.
abbrev follows : ℕ → ℕ
follows b = if ltb b 0xC0 then 0 else if ltb b 0xE0 then 1 else if ltb b 0xF0 then 2 else 3

abbrev lead_bits : ℕ → ℕ
lead_bits b =
    if ltb b 0xC0
    then 0
    else if ltb b 0xE0
    then b - 0xC0
    else if ltb b 0xF0
    then b - 0xE0
    else b - 0xF0

abbrev emit : ℕ → Text → Text
emit b s = if ltb b 0x80 then b ∷ s else s

-- The text of valid bytes, with `need` more bytes wanted for a character that has begun.
decode_from : (need bits : ℕ) → Bytes → Text
decode_from need bits [] = []
decode_from zero bits (b ∷ bs) = emit b (decode_from (follows b) (lead_bits b) bs)
decode_from (suc zero) bits (b ∷ bs) = (bits * 64 + (b - 0x80)) ∷ decode_from 0 0 bs
decode_from (suc (suc n)) bits (b ∷ bs) = decode_from (suc n) (bits * 64 + (b - 0x80)) bs

unfoldable pub decode : Bytes → Text
unfolding decode_from
decode bs = decode_from 0 0 bs

-- `utf8.RuneStart`: `b & 0xC0 != 0x80`
unfoldable pub rune_start : ℕ → Bool
rune_start b = not (b / 64 == 2)

abbrev pub IsRune : ℕ → Type 0
IsRune r = (r < 0x110000)

decode_rune :
    (r : ℕ) (bs : Bytes) → IsRune r → decode_from 0 0 (encode_rune r ++ bs) ≡ r ∷ decode_from 0 0 bs
unfolding decode_from encode_rune
decode_rune r bs h = ground arith

-- Every text of code points is read back from its bytes.
pub decode-encode : (s : Text) → All IsRune s → decode (encode s) ≡ s
unfolding decode encode
decode-encode [] h = refl
decode-encode (r ∷ s) h = decode_rune r (encode s) h.0 ∙ ap (λ t. r ∷ t) (decode-encode s h.1)

-- How many bytes a character takes, and a text.
abbrev pub width : ℕ → ℕ
width r = if ltb r 0x80 then 1 else if ltb r 0x800 then 2 else if ltb r 0x10000 then 3 else 4

unfoldable pub size : Text → ℕ
size [] = 0
size (r ∷ s) = width r + size s

pub length-encode_rune : (r : ℕ) → length (encode_rune r) ≡ width r
unfolding encode_rune
length-encode_rune r = ground arith

pub length-encode : (s : Text) → length (encode s) ≡ size s
unfolding encode size
length-encode [] = refl
length-encode (r ∷ s) =
    omega (arith, length-append (encode_rune r) (encode s), length-encode_rune r, length-encode s)
