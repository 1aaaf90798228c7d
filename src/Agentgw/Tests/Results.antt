-- ===== src/Agentgw/Tests/Results.antt =====
-- Stages and results that come in late, and texts that are too long.
use iflygo.Prelude.{◌≡◌, ◌≤◌, ◌<◌, ◌+◌, ◌*◌, ◌⊎◌, refl, some, [], arith}
use iflygo.Prelude.Int.{pos}
use iflygo.Text.{Text, text, text_eq, is_empty, trim_space}
use iflygo.Text.Utf8.{}
use iflygo.Db.{ok, at}
use iflygo.Agentgw.Sanitize.{truncate_utf8}
use iflygo.Agentgw.Sanitize.Cut.{truncate_utf8-fitting, fitting}
use iflygo.Agentgw.Stage.{update_stage}
use iflygo.Agentgw.Report.{ReportRequest, report, final_of, reported}
use iflygo.Agentgw.Report.Newer.{padded_not_dropped, late_consul, written}
use iflygo.Agentgw.Maintenance.{expected, maintenance_end, maintenance_end_bounds}
use iflygo.Agentgw.Rows.{second}
use iflygo.Agentgw.Late.{withdrawn_ignored}
use iflygo.Agentgw.Tests.{an_env, some_rows, canceled_command, run_again, ended_command}

abbrev quoted : Text → Text
quoted s = s

abbrev a_report : Text → ReportRequest
a_report status = record {
  status = status;
  stage = text "done";
  to_version = text "1.2";
  exit_code = pos 0;
  log = [];
}

withdrawn_ignored_example :
    ((update_stage (an_env 10) "b" 3 (text "failed") [] (at some_rows [])).1.db ≡ some_rows)
    × ((report (an_env 10) quoted "b" (some 3) (a_report (text "success")) (at some_rows [])).1.db
        ≡ some_rows)
withdrawn_ignored_example =
    withdrawn_ignored (an_env 10) quoted "b" 3 (text "failed") [] (a_report (text "success"))
      some_rows [] canceled_command refl refl

padded_not_dropped_example :
    report (an_env 10) quoted "a" (some 1) (a_report (text " success")) (at run_again []) ≡ (
      ok (late_consul (an_env 10) quoted 1 (a_report (text " success")) run_again "a"),
      at (written (an_env 10) quoted 1 (a_report (text " success")) run_again) [],
    )
unfolding final_of reported text_eq trim_space is_empty
padded_not_dropped_example =
    padded_not_dropped (an_env 10) quoted "a" 1 (a_report (text " success")) run_again ended_command
      refl refl refl refl refl

-- Six characters of three bytes each, cut at ten bytes.
truncate_utf8-fitting_example : truncate_utf8 (text "升级成功完成") 10 ≡ fitting 10 (text "升级成功完成")
truncate_utf8-fitting_example = truncate_utf8-fitting (text "升级成功完成") 10 (omega arith) (omega arith)

-- So many seconds that their nanoseconds overflow.
maintenance_end_bounds_example :
    ((expected (pos 9300000000) + 120 ≤ 9223372036)
      × (1000 + 120 * second < maintenance_end 1000 (pos 9300000000))
      × (maintenance_end 1000 (pos 9300000000) ≤ 1000 + 3600 * second))
    ⊎ ((9223372036 < expected (pos 9300000000) + 120)
        × (maintenance_end 1000 (pos 9300000000) ≤ 1000))
maintenance_end_bounds_example = maintenance_end_bounds 1000 (pos 9300000000) (omega arith)
