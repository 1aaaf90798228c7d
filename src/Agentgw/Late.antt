-- ===== src/Agentgw/Late.antt =====
-- What comes in late, for a command that is withdrawn, is ignored (internal/logic/agentgw/gateway.go).
use iflygo.Prelude.{
  ℕ, ◌≡◌, refl, sym, subst, Bool, true, false, Option, some, List, String, find_first,
}
use iflygo.Text.{Text}
use iflygo.Task.Rows.{CommandStatus}
use iflygo.Db.{Db, World, Result, Outcome, at, query, ◌>>=◌}
use iflygo.Db.Atomic.{Post, Settled, query-Post, transaction-Post}
use iflygo.Agentgw.Sanitize.{normalize_stage, sanitize_and_truncate, max_stage_message_bytes}
use iflygo.Agentgw.Rows.{Command, GatewayDb, Env, owned}
use iflygo.Agentgw.Stage
use iflygo.Agentgw.Stage.{update_stage}
use iflygo.Agentgw.Report
use iflygo.Agentgw.Report.{ReportRequest, Written, report}

-- A command of an earlier run: its host is run again, or its task is canceled, or it was never taken.
abbrev pub is_withdrawn : CommandStatus → Bool
is_withdrawn CommandStatus.canceled = true
is_withdrawn CommandStatus.expired = true
is_withdrawn _ = false

module _ (d : GatewayDb) where
  -- The rows are those of the beginning.
  abbrev Same : {A : Type 0} → Result A × World GatewayDb → Type 0
  Same = Post (λ a d'. d' ≡ d) (λ d'. d' ≡ d)

  abbrev SameBody : {A : Type 0} → Result (Outcome A) × World GatewayDb → Type 0
  SameBody = Post (Settled (λ a d'. d' ≡ d) (λ d'. d' ≡ d) d) (λ d'. Unit)

  Same-rows : {A : Type 0} (rw : Result A × World GatewayDb) → Same rw → rw.1.db ≡ d
  Same-rows (Result.ok a, w) h = h
  Same-rows (Result.err e, w) h = h

  -- A query in the body, whose answer is known.
  known-Post :
      {A B : Type 0} (f : GatewayDb → A) (a : A) (k : A → Db GatewayDb (Outcome B)) (fs : List Bool)
      → f d ≡ a
      → ((fs' : List Bool) → SameBody (k a (at d fs')))
      → SameBody ((query f >>= k) (at d fs))
  known-Post f a k fs e h =
      query-Post _ _ f k d fs tt (λ fs'. subst (λ x. SameBody (k x (at d fs'))) (sym e) (h fs'))

  module _ (env : Env) (agent : String) (cmd : ℕ) (c : Command)
      (found : find_first (owned cmd agent) d.commands ≡ some c)
      (withdrawn : is_withdrawn c.status ≡ true) where
    module _ (stage message : Text) where
      stage_ignored :
          (th : Option ℕ) (st : CommandStatus) (fs : List Bool)
          → is_withdrawn st ≡ true
          → SameBody (Stage.by_status env agent cmd stage message th st (at d fs))
      stage_ignored th CommandStatus.canceled fs h = refl
      stage_ignored th CommandStatus.expired fs h = refl
      stage_ignored th CommandStatus.pending fs h = absurd (cc)
      stage_ignored th CommandStatus.dispatched fs h = absurd (cc)
      stage_ignored th CommandStatus.accepted fs h = absurd (cc)
      stage_ignored th CommandStatus.running fs h = absurd (cc)
      stage_ignored th CommandStatus.success fs h = absurd (cc)
      stage_ignored th CommandStatus.failed fs h = absurd (cc)
      stage_ignored th CommandStatus.rolled_back fs h = absurd (cc)
      stage_ignored th CommandStatus.timeout fs h = absurd (cc)

      stage_locked :
          (th : Option ℕ) (b : Bool) (fs : List Bool)
          → SameBody (Stage.when_locked env agent cmd stage message th b (at d fs))
      stage_locked th false fs = refl
      stage_locked th true fs =
          known-Post _ (some c) _ fs found (λ fs'. stage_ignored th c.status fs' withdrawn)

      stage_body_ignored :
          (fs : List Bool) → SameBody (Stage.stage_body env agent cmd stage message (at d fs))
      stage_body_ignored fs =
          known-Post _ (some c) _ fs found
            (λ fs1. known-Post _ _ _ fs1 refl (λ fs2. stage_locked c.task_host _ fs2))

    module _ (quoted : Text → Text) (req : ReportRequest) where
      report_ignored :
          (th : Option ℕ) (st : CommandStatus) (fs : List Bool)
          → is_withdrawn st ≡ true
          → SameBody (Report.by_status env quoted agent req cmd th st (at d fs))
      report_ignored th CommandStatus.canceled fs h = refl
      report_ignored th CommandStatus.expired fs h = refl
      report_ignored th CommandStatus.pending fs h = absurd (cc)
      report_ignored th CommandStatus.dispatched fs h = absurd (cc)
      report_ignored th CommandStatus.accepted fs h = absurd (cc)
      report_ignored th CommandStatus.running fs h = absurd (cc)
      report_ignored th CommandStatus.success fs h = absurd (cc)
      report_ignored th CommandStatus.failed fs h = absurd (cc)
      report_ignored th CommandStatus.rolled_back fs h = absurd (cc)
      report_ignored th CommandStatus.timeout fs h = absurd (cc)

      report_locked :
          (th : Option ℕ) (b : Bool) (fs : List Bool)
          → SameBody (Report.when_locked env quoted agent req cmd th b (at d fs))
      report_locked th false fs = refl
      report_locked th true fs =
          known-Post _ (some c) _ fs found (λ fs'. report_ignored th c.status fs' withdrawn)

      report_body_ignored :
          (fs : List Bool) → SameBody (Report.report_body env quoted agent req cmd (at d fs))
      report_body_ignored fs =
          known-Post _ (some c) _ fs found
            (λ fs1. known-Post _ _ _ fs1 refl (λ fs2. report_locked c.task_host _ fs2))

-- A stage or a result that an agent sends for a command of its own that is canceled or expired changes no row of
-- any table, whatever it says and whatever statements fail.
pub withdrawn_ignored :
    (env : Env) (quoted : Text → Text) (agent : String) (cmd : ℕ) (stage message : Text)
    (req : ReportRequest) (d : GatewayDb) (faults : List Bool) (c : Command)
    → find_first (owned cmd agent) d.commands ≡ some c
    → is_withdrawn c.status ≡ true
    → ((update_stage env agent cmd stage message (at d faults)).1.db ≡ d)
      × ((report env quoted agent (some cmd) req (at d faults)).1.db ≡ d)
unfolding update_stage report
withdrawn_ignored env quoted agent cmd stage message req d faults c found withdrawn = (
  Same-rows d (update_stage env agent cmd stage message (at d faults)) (
      transaction-Post _ _
        (Stage.stage_body env agent cmd (normalize_stage stage)
          (sanitize_and_truncate message max_stage_message_bytes))
        d faults refl (λ fs. stage_body_ignored d env agent cmd c found withdrawn _ _ fs)),
  Same-rows d (report env quoted agent (some cmd) req (at d faults)) (
      transaction-Post _ _ (Report.report_body env quoted agent req cmd) d faults refl
        (λ fs. report_body_ignored d env agent cmd c found withdrawn quoted req fs)),
)
