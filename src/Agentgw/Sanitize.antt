-- ===== src/Agentgw/Sanitize.antt =====
-- The cleaning of what agents send before it is stored (internal/logic/agentgw/sanitize.go).
pub mod Cut
pub mod Tail
use iflygo.Prelude.{
  ℕ, zero, suc, ◌+◌, ◌-◌, Bool, true, false, ◌&&◌, ◌||◌, not, List, [], ◌∷◌, ◌++◌, if◌then◌else◌,
  ltb, leb, ◌==◌, length,
}
use iflygo.Text.{Text, text, is_empty, trim_space}
use iflygo.Text.Utf8.{Bytes, encode, decode, rune_start}

-- `maxStageMessageBytes`, `maxReportLogBytes`, `maxStageBytes`, `maxVersionBytes`, `maxReasonBytes`
abbrev pub max_stage_message_bytes : ℕ
max_stage_message_bytes = 4096

abbrev pub max_report_log_bytes : ℕ
max_report_log_bytes = 131072

abbrev pub max_stage_bytes : ℕ
max_stage_bytes = 32

abbrev pub max_version_bytes : ℕ
max_version_bytes = 64

abbrev pub max_reason_bytes : ℕ
max_reason_bytes = 300

-- NUL is removed first, with the other control characters but line feed, return and tabulator.
abbrev pub is_control : ℕ → Bool
is_control r = ltb r 0x20 && not (r == 10) && not (r == 13) && not (r == 9) || r == 0x7F

unfoldable pub sanitize_log : Text → Text
sanitize_log [] = []
sanitize_log (r ∷ s) = let rest = sanitize_log s in if is_control r then rest else r ∷ rest

abbrev pub byte_at : Bytes → ℕ → ℕ
byte_at [] i = 0
byte_at (b ∷ bs) zero = b
byte_at (b ∷ bs) (suc i) = byte_at bs i

abbrev pub take : ℕ → Bytes → Bytes
take zero bs = []
take (suc n) [] = []
take (suc n) (b ∷ bs) = b ∷ take n bs

abbrev pub drop : ℕ → Bytes → Bytes
drop zero bs = bs
drop (suc n) [] = []
drop (suc n) (b ∷ bs) = drop n bs

-- `for cut > 0 && !utf8.RuneStart(s[cut]) { cut-- }`
unfoldable pub back_up : Bytes → ℕ → ℕ
back_up bs zero = zero
back_up bs (suc n) =
    let rest = back_up bs n in if rune_start (byte_at bs (suc n)) then suc n else rest

unfoldable pub truncate_utf8 : Text → ℕ → Text
truncate_utf8 s max =
    let bs = encode s in
    if max == 0 || leb (length bs) max then s else decode (take (back_up bs max) bs)

unfoldable pub sanitize_and_truncate : Text → ℕ → Text
unfolding truncate_utf8
sanitize_and_truncate s max = truncate_utf8 (sanitize_log s) max

-- `for start < len(s) && !utf8.RuneStart(s[start]) { start++ }`
unfoldable pub skip_continued : Bytes → Bytes
skip_continued [] = []
skip_continued (b ∷ bs) = let rest = skip_continued bs in if rune_start b then b ∷ bs else rest

unfoldable pub tail_utf8 : Text → ℕ → Text
unfolding skip_continued
tail_utf8 s max =
    let bs = encode s in
    if max == 0 || leb (length bs) max
    then s
    else decode (skip_continued (drop (length bs - max) bs))

abbrev pub note : Text
note = text "…（日志过长，已截断）…" ++ 10 ∷ []

-- The end of what is too long, after the note if the note is the shorter.
unfoldable pub with_note : Text → Text
with_note t = if leb (length (encode t)) (length (encode note)) then t else note ++ t

unfoldable pub append_log : Text → Text → ℕ → Text
append_log current line max =
    if is_empty line
    then current
    else if max == 0 || leb (length (encode (current ++ line))) max
    then current ++ line
    else with_note (tail_utf8 (current ++ line) max)

unfoldable pub normalize_version : Text → Text
unfolding truncate_utf8
normalize_version s = truncate_utf8 (trim_space (sanitize_log s)) max_version_bytes

unfoldable pub normalize_stage : Text → Text
unfolding truncate_utf8
normalize_stage s = truncate_utf8 (trim_space (sanitize_log s)) max_stage_bytes
