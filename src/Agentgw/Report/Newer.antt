-- ===== src/Agentgw/Report/Newer.antt =====
-- A result of an earlier run, while a newer command is under way
-- (internal/logic/agentgw/gateway.go).
use iflygo.Prelude.{
  ℕ, ◌≡◌, refl, ap, ◌∙◌, Bool, true, false, not, Option, none, some, [], String, ◌&&◌, find_first,
  ◌==◌,
}
use iflygo.Text.{Text}
use iflygo.Task.Rows.{CommandStatus}
use iflygo.Db.{ok, at, transaction, statement, or_default, ◌>>=◌}
use iflygo.Agentgw.Rows.{Command, GatewayDb, Env, owned, of_agent, is_final, update_commands}
use iflygo.Agentgw.Stage.{lock_exists, is_some}
use iflygo.Agentgw.Report.{
  ReportRequest, report, final_of, reported, newer_active, is_stale, is_given, to_consul,
  runs_command, ip_of, cleaned, by_status, late, unless_stale, write, write_as, Written,
  command_write, open_by_id,
}
use iflygo.Db.{commit}

abbrev success : Option CommandStatus
success = some CommandStatus.success

module _ (env : Env) (quoted : Text → Text) (cmd : ℕ) (req : ReportRequest) (d : GatewayDb) where
  -- The rows after the write of a success, which leaves alone a command that has ended.
  abbrev pub written : GatewayDb
  written = update_commands (open_by_id cmd) (command_write env success (cleaned env quoted req)) d

  abbrev pub late_consul : String → Written
  late_consul agent =
      to_consul (not (runs_command (find_first (λ x. x.id == cmd) written.commands)))
        (ip_of (find_first (of_agent agent) d.hosts)) (cleaned env quoted req).to_version

module _ (env : Env) (quoted : Text → Text) (agent : String) (cmd : ℕ) (req : ReportRequest)
    (d : GatewayDb) (c : Command) (found : find_first (owned cmd agent) d.commands ≡ some c)
    (locked : lock_exists c.task_host cmd d ≡ true) where
  -- The body comes to the decision by the command's status.
  report-by_status :
      report env quoted agent (some cmd) req (at d [])
      ≡ transaction (by_status env quoted agent req cmd c.task_host c.status) (at d [])
  unfolding report transaction statement ◌>>=◌
  report-by_status = simp (found, locked) refl

  stale_or_newer :
      (stale : Bool)
      → newer_active c.task_host agent cmd d ≡ true
      → unless_stale env quoted agent req cmd c.task_host stale (at d [])
        ≡ (ok (commit none), at d [])
  unfolding statement ◌>>=◌ or_default
  stale_or_newer true newer = refl
  stale_or_newer false newer = simp newer refl

  late_newer :
      newer_active c.task_host agent cmd d ≡ true
      → late env quoted agent req cmd c.task_host (at d []) ≡ (ok (commit none), at d [])
  unfolding statement ◌>>=◌ or_default
  late_newer newer = stale_or_newer (is_some c.task_host && is_stale c.task_host cmd d) newer

  module _ (status : CommandStatus) (final : is_final status ≡ true) where
    final_late :
        is_given (final_of req.status) ≡ true
        → by_status env quoted agent req cmd c.task_host status
          ≡ late env quoted agent req cmd c.task_host
    final_late given = by_cases status final
      where
        by_cases :
            (st : CommandStatus)
            → is_final st ≡ true
            → by_status env quoted agent req cmd c.task_host st
              ≡ late env quoted agent req cmd c.task_host
        by_cases CommandStatus.success h = simp given refl
        by_cases CommandStatus.failed h = simp given refl
        by_cases CommandStatus.rolled_back h = simp given refl
        by_cases CommandStatus.timeout h = simp given refl
        by_cases CommandStatus.pending h = absurd (cc)
        by_cases CommandStatus.dispatched h = absurd (cc)
        by_cases CommandStatus.accepted h = absurd (cc)
        by_cases CommandStatus.running h = absurd (cc)
        by_cases CommandStatus.expired h = absurd (cc)
        by_cases CommandStatus.canceled h = absurd (cc)

    final_write :
        is_given (final_of req.status) ≡ false
        → by_status env quoted agent req cmd c.task_host status
          ≡ write env quoted agent req cmd c.task_host false
    final_write not_given = by_cases status final
      where
        by_cases :
            (st : CommandStatus)
            → is_final st ≡ true
            → by_status env quoted agent req cmd c.task_host st
              ≡ write env quoted agent req cmd c.task_host false
        by_cases CommandStatus.success h = simp not_given refl
        by_cases CommandStatus.failed h = simp not_given refl
        by_cases CommandStatus.rolled_back h = simp not_given refl
        by_cases CommandStatus.timeout h = simp not_given refl
        by_cases CommandStatus.pending h = absurd (cc)
        by_cases CommandStatus.dispatched h = absurd (cc)
        by_cases CommandStatus.accepted h = absurd (cc)
        by_cases CommandStatus.running h = absurd (cc)
        by_cases CommandStatus.expired h = absurd (cc)
        by_cases CommandStatus.canceled h = absurd (cc)

  -- A final result for a command that has ended is dropped while a newer command is under way.
  dropped :
      is_final c.status ≡ true
      → is_given (final_of req.status) ≡ true
      → newer_active c.task_host agent cmd d ≡ true
      → report env quoted agent (some cmd) req (at d []) ≡ (ok none, at d [])
  unfolding transaction statement ◌>>=◌
  dropped final given newer =
      report-by_status
      ∙ ap (λ m. transaction m (at d [])) (final_late c.status final given)
      ∙ rw (late_newer newer) refl

  late_write :
      (th : Option ℕ)
      → write_as env quoted agent req cmd success th false (at d []) ≡ (
        ok (commit (late_consul env quoted cmd req d agent)),
        at (written env quoted cmd req d) [],
      )
  unfolding statement ◌>>=◌ or_default
  late_write none = refl
  late_write (some h) = refl

  -- A success whose status is not the bare word passes by that test.
  passed_by :
      is_final c.status ≡ true
      → is_given (final_of req.status) ≡ false
      → reported req.status ≡ success
      → report env quoted agent (some cmd) req (at d [])
        ≡ (ok (late_consul env quoted cmd req d agent), at (written env quoted cmd req d) [])
  unfolding transaction statement ◌>>=◌ cleaned
  passed_by final not_given counts =
      report-by_status
      ∙ ap (λ m. transaction m (at d [])) (final_write c.status final not_given)
      ∙ ap (λ st. transaction (write_as env quoted agent req cmd st c.task_host false) (at d []))
          counts
      ∙ rw (late_write c.task_host) refl

-- A final result for a command that has ended is dropped while a newer command is under way for the same
-- target, if its status is the bare word: nothing is written, to the rows or to Consul. (The row that the
-- request locks exists, and no statement fails.)
pub superseded_dropped :
    (env : Env) (quoted : Text → Text) (agent : String) (cmd : ℕ) (req : ReportRequest)
    (d : GatewayDb) (c : Command)
    → find_first (owned cmd agent) d.commands ≡ some c
    → lock_exists c.task_host cmd d ≡ true
    → is_final c.status ≡ true
    → is_given (final_of req.status) ≡ true
    → newer_active c.task_host agent cmd d ≡ true
    → report env quoted agent (some cmd) req (at d []) ≡ (ok none, at d [])
superseded_dropped env quoted agent cmd req d c found locked final given newer =
    dropped env quoted agent cmd req d c found locked final given newer

-- A success that is reported with blanks around the word, for a command that has ended, is not held
-- against newer commands: its version is passed on to Consul, whatever is under way for the host. (The
-- row that the request locks exists, and no statement fails.)
pub padded_not_dropped :
    (env : Env) (quoted : Text → Text) (agent : String) (cmd : ℕ) (req : ReportRequest)
    (d : GatewayDb) (c : Command)
    → find_first (owned cmd agent) d.commands ≡ some c
    → lock_exists c.task_host cmd d ≡ true
    → is_final c.status ≡ true
    → is_given (final_of req.status) ≡ false
    → reported req.status ≡ some CommandStatus.success
    → report env quoted agent (some cmd) req (at d [])
      ≡ (ok (late_consul env quoted cmd req d agent), at (written env quoted cmd req d) [])
padded_not_dropped env quoted agent cmd req d c found locked final not_given counts =
    passed_by env quoted agent cmd req d c found locked final not_given counts
