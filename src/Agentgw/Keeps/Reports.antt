-- ===== src/Agentgw/Keeps/Reports.antt =====
-- A report of an agent keeps what the writes keep (internal/logic/agentgw/gateway.go).
use iflygo.Prelude.{
  ℕ, ◌≡◌, refl, ap, ◌∙◌, Bool, true, false, Option, none, some, List, [], String, ◌&&◌, find_first,
  if◌then◌else◌, Bool-cases, inl, inr, arith,
}
use iflygo.Text.{Text, trim_space}
use iflygo.Task.Rows.{CommandStatus}
use iflygo.Db.{Db, World, Result, at, exec_if, ◌>>◌}
use iflygo.Db.Atomic.{Post, exec-Post, exec_if-Post, default-Post, if-Post}
use iflygo.Db.Keeps.{
  Keeps, pure-Keeps, query-Keeps, exec_if-Keeps, bind-Keeps, default-Keeps, transaction-Keeps,
  seen-Keeps,
}
use iflygo.Agentgw.Rows.{
  Command, TaskHost, GatewayDb, Env, is_final, owned, of_agent, back_online, update_task_hosts,
  update_commands,
}
use iflygo.Agentgw.Stage.{open_host}
use iflygo.Agentgw.Report.{
  ReportRequest, Cleaned, cleaned, reported, final_of, or_failed, is_running_text, r, upgraded,
  leave_maintenance, write, unless_newer, unless_stale, late, by_status, read_again, when_locked,
  for_command, report_body, body_for, report, is_given, is_success, is_host_given, host_write,
  command_write, open_by_id,
}
use iflygo.Agentgw.Keeps.{KeepsWrites, IsOutcome}

or_failed-IsOutcome : (o : Option CommandStatus) → IsOutcome o → IsOutcome (or_failed o)
or_failed-IsOutcome none h = refl
or_failed-IsOutcome (some st) h = h

final_of-final : (s : Text) (st : CommandStatus) → final_of s ≡ some st → is_final st ≡ true
unfolding final_of
final_of-final s st h = ground arith

all-IsOutcome :
    (o : Option CommandStatus)
    → ((st : CommandStatus) → o ≡ some st → is_final st ≡ true)
    → IsOutcome o
all-IsOutcome none h = tt
all-IsOutcome (some st) h = h st refl

final_of-IsOutcome : (s : Text) → IsOutcome (final_of s)
final_of-IsOutcome s = all-IsOutcome (final_of s) (final_of-final s)

-- What a report says is that the command runs, or a final status.
reported-IsOutcome : (s : Text) → IsOutcome (reported s)
unfolding reported
reported-IsOutcome s = elim (Bool-cases (is_running_text (trim_space s))) [
  | inl runs ↦ simp runs tt
  | inr ends ↦
      simp ends (or_failed-IsOutcome (final_of (trim_space s)) (final_of-IsOutcome (trim_space s)))
]

cleaned-IsOutcome :
    (env : Env) (quoted : Text → Text) (req : ReportRequest)
    → IsOutcome (cleaned env quoted req).status
unfolding cleaned
cleaned-IsOutcome env quoted req = reported-IsOutcome req.status

module _ (I : GatewayDb → Type 0) (env : Env) (agent : String) (k : KeepsWrites I env agent) where
  abbrev PostI : {A : Type 0} → Result A × World GatewayDb → Type 0
  PostI = Post (λ a d. I d) I

  -- The hosts' rows are written first, the commands' rows are as they were.
  hosts_first-Post :
      {A : Type 0} (b : Bool) (th : Option ℕ) (f : TaskHost → TaskHost) (m : Db GatewayDb A)
      (d : GatewayDb) (fs : List Bool)
      → I d
      → ((d' : GatewayDb) (fs' : List Bool)
          → d'.commands ≡ d.commands
          → I d'
          → PostI (m (at d' fs')))
      → PostI ((exec_if b (update_task_hosts (open_host th) f) >> m) (at d fs))
  hosts_first-Post true th f m d fs i h =
      exec_if-Post (λ a d'. I d') I true _ m d fs i (λ fs'. h _ fs' refl (k.task_hosts th f d i))
  hosts_first-Post false th f m d fs i h =
      exec_if-Post (λ a d'. I d') I false (update_task_hosts (open_host th) f) m d fs i
        (λ fs'. h d fs' refl i)

  module _ (quoted : Text → Text) (req : ReportRequest) (cmd : ℕ) where
    abbrev q : Cleaned
    q = cleaned env quoted req

    abbrev Found : Command → GatewayDb → Type 0
    Found c d = (find_first (owned cmd agent) d.commands ≡ some c) × I d

    upgraded-Keeps : (b : Bool) → Keeps I (upgraded env quoted agent req cmd b)
    upgraded-Keeps false = pure-Keeps I _
    upgraded-Keeps true =
        bind-Keeps I _ _ (default-Keeps I false _ (query-Keeps I _))
          (λ _. bind-Keeps I _ _ (default-Keeps I [] _ (query-Keeps I _)) (λ _. pure-Keeps I _))

    rest-Keeps :
        (ends good : Bool)
        → Keeps I (
            leave_maintenance env quoted agent req cmd ends
            >> upgraded env quoted agent req cmd good)
    rest-Keeps ends good =
        bind-Keeps I _ _
          (default-Keeps I tt _ (
            exec_if-Keeps I ends _
              (k.hosts (of_agent agent) (back_online (r env quoted agent req cmd).stage))))
          (λ _. upgraded-Keeps good)

    write-Post :
        (th : Option ℕ) (active : Bool) (c : Command) (d : GatewayDb) (fs : List Bool)
        → Found c d
        → PostI (write env quoted agent req cmd th active (at d fs))
    write-Post th active c d fs (found, i) =
        hosts_first-Post (is_host_given th q.status active) th (host_write env q.status q) _ d fs i
          (λ d' fs1 same i'.
            let found' = ap (find_first (owned cmd agent)) same ∙ found in
            exec-Post (λ a d2. I d2) I
              (update_commands (open_by_id cmd) (command_write env q.status q)) _ d' fs1 i'
              (λ fs2.
                (rest-Keeps (is_given q.status && active) (is_success q.status)).keeps _ fs2
                  (k.reported cmd q.status q c d' found' (cleaned-IsOutcome env quoted req) i')))

    unless_newer-Post :
        (th : Option ℕ) (newer : Bool) (c : Command) (d : GatewayDb) (fs : List Bool)
        → Found c d
        → PostI (unless_newer env quoted agent req cmd th newer (at d fs))
    unless_newer-Post th true c d fs h = h.1
    unless_newer-Post th false c d fs h = write-Post th false c d fs h

    unless_stale-Post :
        (th : Option ℕ) (stale : Bool) (c : Command) (d : GatewayDb) (fs : List Bool)
        → Found c d
        → PostI (unless_stale env quoted agent req cmd th stale (at d fs))
    unless_stale-Post th true c d fs h = h.1
    unless_stale-Post th false c d fs h =
        default-Post (λ a d'. I d') I false _ _ d fs (λ fs'. unless_newer-Post th _ c d fs' h)
          (λ fs'. unless_newer-Post th false c d fs' h)

    late-Post :
        (th : Option ℕ) (c : Command) (d : GatewayDb) (fs : List Bool)
        → Found c d
        → PostI (late env quoted agent req cmd th (at d fs))
    late-Post th c d fs h =
        default-Post (λ a d'. I d') I false _ _ d fs (λ fs'. unless_stale-Post th _ c d fs' h)
          (λ fs'. unless_stale-Post th false c d fs' h)

    ended-Post :
        (th : Option ℕ) (c : Command) (d : GatewayDb) (fs : List Bool)
        → Found c d
        → PostI (
            (if is_given (final_of req.status) && true
                then late env quoted agent req cmd th
                else write env quoted agent req cmd th false)
              (at d fs))
    ended-Post th c d fs h =
        if-Post (λ a d'. I d') I (is_given (final_of req.status) && true) _ _ _
          (λ _. late-Post th c d fs h) (λ _. write-Post th false c d fs h)

    open-Post :
        (th : Option ℕ) (c : Command) (d : GatewayDb) (fs : List Bool)
        → Found c d
        → PostI (
            (if is_given (final_of req.status) && false
                then late env quoted agent req cmd th
                else write env quoted agent req cmd th true)
              (at d fs))
    open-Post th c d fs h =
        if-Post (λ a d'. I d') I (is_given (final_of req.status) && false) _ _ _
          (λ _. late-Post th c d fs h) (λ _. write-Post th true c d fs h)

    by_status-Post :
        (th : Option ℕ) (st : CommandStatus) (c : Command) (d : GatewayDb) (fs : List Bool)
        → Found c d
        → PostI (by_status env quoted agent req cmd th st (at d fs))
    by_status-Post th CommandStatus.pending c d fs h = open-Post th c d fs h
    by_status-Post th CommandStatus.dispatched c d fs h = open-Post th c d fs h
    by_status-Post th CommandStatus.accepted c d fs h = open-Post th c d fs h
    by_status-Post th CommandStatus.running c d fs h = open-Post th c d fs h
    by_status-Post th CommandStatus.success c d fs h = ended-Post th c d fs h
    by_status-Post th CommandStatus.failed c d fs h = ended-Post th c d fs h
    by_status-Post th CommandStatus.rolled_back c d fs h = ended-Post th c d fs h
    by_status-Post th CommandStatus.timeout c d fs h = ended-Post th c d fs h
    by_status-Post th CommandStatus.expired c d fs h = h.1
    by_status-Post th CommandStatus.canceled c d fs h = h.1

    read_again-Post :
        (th : Option ℕ) (o : Option Command) (d : GatewayDb) (fs : List Bool)
        → find_first (owned cmd agent) d.commands ≡ o
        → I d
        → PostI (read_again env quoted agent req cmd th o (at d fs))
    read_again-Post th none d fs e i = i
    read_again-Post th (some c) d fs e i = by_status-Post th c.status c d fs (e, i)

    when_locked-Keeps :
        (th : Option ℕ) (locked : Bool) → Keeps I (when_locked env quoted agent req cmd th locked)
    when_locked-Keeps th false = pure-Keeps I _
    when_locked-Keeps th true = seen-Keeps I _ _ (λ d fs i. read_again-Post th _ d fs refl i)

    for_command-Keeps : (o : Option Command) → Keeps I (for_command env quoted agent req cmd o)
    for_command-Keeps none = record { keeps = λ d faults i. i }
    for_command-Keeps (some c) = bind-Keeps I _ _ (query-Keeps I _) (when_locked-Keeps c.task_host)

    report_body-Keeps : Keeps I (report_body env quoted agent req cmd)
    report_body-Keeps = bind-Keeps I _ _ (query-Keeps I _) for_command-Keeps

  body_for-Keeps :
      (quoted : Text → Text) (cmd : Option ℕ) (req : ReportRequest)
      → Keeps I (body_for env quoted agent req cmd)
  body_for-Keeps quoted none req = record { keeps = λ d faults i. i }
  body_for-Keeps quoted (some cmd) req = report_body-Keeps quoted req cmd

  pub report-Keeps :
      (quoted : Text → Text) (cmd : Option ℕ) (req : ReportRequest)
      → Keeps I (report env quoted agent cmd req)
  unfolding report
  report-Keeps quoted cmd req = transaction-Keeps I _ (body_for-Keeps quoted cmd req)
