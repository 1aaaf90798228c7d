-- ===== src/Protocol.antt =====
-- What server and agent agree on (internal/protocol/protocol.go): a command as it is delivered, its
-- signed path, and the abilities that agents report. A text is the list of its characters; the fields
-- of a payload that nothing here reads are of a type `R`.
pub mod Paths
use iflygo.Prelude.{
  ℕ, ◌/◌, ◌≡◌, Bool, true, false, Option, none, some, List, [], ◌∷◌, ◌++◌, map, if◌then◌else◌, ◌==◌,
  ◌&&◌, ◌||◌, not, leb, any_of,
}
use iflygo.Text.{
  Text, text, text_eq, is_empty, has_prefix, contains, trim_space, to_lower, lower, split,
}
use iflygo.Text.Utf8.{size}
use iflygo.Text.Decimal.{decimal}
use iflygo.Text.Pieces.{joined}
use iflygo.Agentgw.Rows.{second}

pub record CommandSpec : Type 0 where
  pub script : Text
  pub interpreter : Text
  pub args : List Text
  pub env : List Text
  pub work_dir : Text
  pub timeout : Text
  pub stdin : Text
  pub tty : Bool
  pub ignore_error : Bool

pub record Payload (R : Type 0) : Type 0 where
  pub service_name : Text
  pub exec_args : List Text
  pub command : Option CommandSpec
  pub other : R

-- The zero time is `none`.
pub record Command (R : Type 0) : Type 0 where
  pub id : Text
  pub type : Text
  pub payload : Payload R
  pub timestamp : ℕ
  pub nonce : Text
  pub signature : Text
  pub signature_v2 : Text
  pub expire_at : Option ℕ

-- `strconv.FormatInt(t.Unix(), 10)`
abbrev pub unix_text : Option ℕ → Text
unix_text none = text "-62135596800"
unix_text (some t) = decimal (t / second)

-- `SignedPath`
unfoldable pub signed_path : {R : Type 0} → Command R → Text
signed_path c = joined b'|' c.id (joined b'|' c.type (unix_text c.expire_at))

-- `strings.EqualFold`, with a text of ASCII letters: but for two, no other character folds to one.
abbrev pub fold : ℕ → ℕ
fold c = if c == 0x17F then b's' else lower c

abbrev pub equal_fold : Text → Text → Bool
equal_fold s t = text_eq (map fold s) (map fold t)

unfoldable pub has_capability : (caps want : Text) → Bool
has_capability caps want = any_of (λ raw. equal_fold (trim_space raw) want) (split b',' caps)

-- The first argument that is no flag decides.
unfoldable pub is_uninstall_action : List Text → Bool
is_uninstall_action [] = false
is_uninstall_action (arg ∷ args) =
    let a = to_lower (trim_space arg) in
    let rest = is_uninstall_action args in
    if is_empty a || has_prefix (text "-") a
    then rest
    else text_eq a (text "uninstall") || text_eq a (text "remove") || text_eq a (text "purge")

-- All but the last character, if that is a `}`.
abbrev pub grown : ℕ → Option Text → Option Text
grown c none = none
grown c (some s) = some (c ∷ s)

unfoldable pub before_brace : Text → Option Text
before_brace [] = none
before_brace (c ∷ []) = if c == b'}' then some [] else none
before_brace (c ∷ d ∷ s) = grown c (before_brace (d ∷ s))

abbrev pub legacy_command_fragment : Text
legacy_command_fragment = text ",\"command\":{\"script\":\"\"}}"

abbrev pub with_fragment : Text → Option Text → Text
with_fragment s none = s
with_fragment s (some front) =
    if contains s (text "\"command\"") then s else front ++ legacy_command_fragment

unfoldable pub canonical_payload_with_legacy_command : Text → Text
canonical_payload_with_legacy_command canonical =
    if leb (size canonical) 2 then canonical else with_fragment canonical (before_brace canonical)
