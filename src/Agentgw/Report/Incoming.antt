-- ===== src/Agentgw/Report/Incoming.antt =====
-- A report as it comes in, and as it counts once its texts are cleaned (internal/protocol/protocol.go,
-- internal/logic/agentgw/gateway.go).
use iflygo.Prelude.{Bool, true, false, Option, none, some, [], ◌∷◌, ◌++◌, ◌||◌, if◌then◌else◌, zero}
use iflygo.Prelude.Int.{ℤ, pos}
use iflygo.Text.{Text, text, text_eq, is_empty, trim_space}
use iflygo.Task.Rows.{CommandStatus}
use iflygo.Agentgw.Sanitize.{
  sanitize_and_truncate, normalize_stage, normalize_version, append_log, max_report_log_bytes,
}
use iflygo.Agentgw.Rows.{Env}

-- `ReportRequest`
pub record ReportRequest : Type 0 where
  pub status : Text
  pub stage : Text
  pub to_version : Text
  pub exit_code : ℤ
  pub log : Text

-- The final status that a text names, if any (`isFinalStatus` of a text).
unfoldable pub final_of : Text → Option CommandStatus
final_of s =
    if text_eq s (text "success")
    then some CommandStatus.success
    else if text_eq s (text "failed")
    then some CommandStatus.failed
    else if text_eq s (text "rolled_back")
    then some CommandStatus.rolled_back
    else if text_eq s (text "timeout")
    then some CommandStatus.timeout
    else none

abbrev pub is_given : Option CommandStatus → Bool
is_given none = false
is_given (some s) = true

-- What the status of a report counts as: `none` stands for running.
abbrev pub or_failed : Option CommandStatus → Option CommandStatus
or_failed none = some CommandStatus.failed
or_failed (some s) = some s

abbrev pub is_running_text : Text → Bool
is_running_text s = is_empty s || text_eq s (text "running")

unfoldable pub reported : Text → Option CommandStatus
unfolding final_of
reported status =
    let s = trim_space status in if is_running_text s then none else or_failed (final_of s)

-- A status that is unknown is noted in the log; `quoted` is the text as `%q` prints it.
unfoldable pub reported_log : Env → (quoted : Text → Text) → Text → Text → Text
unfolding final_of append_log
reported_log env quoted status log =
    let s = trim_space status in
    if is_running_text s || is_given (final_of s)
    then log
    else append_log log
        (text "["
          ++ (env.stamp ++ (text "] Agent 上报了未知状态 " ++ (quoted s ++ (text "，按失败处理" ++ 10 ∷ [])))))
        max_report_log_bytes

abbrev pub code_or_none : ℤ → Option ℤ
code_or_none (pos zero) = none
code_or_none c = some c

-- A request with its texts cleaned and its status read.
pub record Cleaned : Type 0 where
  pub status : Option CommandStatus
  pub stage : Text
  pub to_version : Text
  pub exit_code : ℤ
  pub log : Text

unfoldable pub cleaned : Env → (Text → Text) → ReportRequest → Cleaned
cleaned env quoted r = record {
  status = reported r.status;
  stage = normalize_stage r.stage;
  to_version = normalize_version r.to_version;
  exit_code = r.exit_code;
  log = reported_log env quoted r.status (sanitize_and_truncate r.log max_report_log_bytes);
}
