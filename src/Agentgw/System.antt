-- ===== src/Agentgw/System.antt =====
-- Any sequence of requests of agents, of reconciliations, and of what users and the orchestrator do to
-- commands, with any statements failing (internal/logic/agentgw).
pub mod Lives
pub mod Active
pub mod Own
pub mod Hosts
use iflygo.Prelude.{
  ℕ, ◌<◌, ◌≡◌, Bool, true, false, Option, none, some, List, [], ◌∷◌, ◌++◌, String, ◌&&◌, All,
  any_of, not,
}
use iflygo.Text.{Text}
use iflygo.Task.Rows.{CommandStatus, is_active}
use iflygo.Db.{World, Result, at}
use iflygo.Db.Keeps.{kept}
use iflygo.Agentgw.Rows.{Command, TaskHost, GatewayDb, Env, set_where}
use iflygo.Agentgw.Dequeue.{dequeue}
use iflygo.Agentgw.Ack.{ack}
use iflygo.Agentgw.Stage.{update_stage}
use iflygo.Agentgw.Report.{ReportRequest, report}
use iflygo.Agentgw.Sync.{reconcile_tasks, active_for}
use iflygo.Agentgw.Keeps.{KeepsWrites}
use iflygo.Agentgw.Keeps.Requests.{dequeue-Keeps, ack-Keeps}
use iflygo.Agentgw.Keeps.Stages.{update_stage-Keeps}
use iflygo.Agentgw.Keeps.Reports.{report-Keeps}

pub data Request : Type 0 where
  next_command : Request
  acknowledge : (cmd : ℕ) (status reason : Text) → Request
  tell_stage : (cmd : ℕ) (stage message : Text) → Request
  tell_result : (cmd : Option ℕ) → ReportRequest → Request

abbrev pub rows_after : {A : Type 0} → Result A × World GatewayDb → GatewayDb
rows_after rw = rw.1.db

-- The rows after an agent's request.
abbrev pub serve :
    Env → (quoted : Text → Text) → (agent : String) → Request → World GatewayDb → GatewayDb
serve env quoted agent next_command w = rows_after (dequeue env agent w)
serve env quoted agent (acknowledge cmd status reason) w =
    rows_after (ack env agent cmd status reason w)
serve env quoted agent (tell_stage cmd stage message) w =
    rows_after (update_stage env agent cmd stage message w)
serve env quoted agent (tell_result cmd req) w = rows_after (report env quoted agent cmd req w)

-- A request keeps what its writes keep.
pub serve_keeps :
    (I : GatewayDb → Type 0) (env : Env) (quoted : Text → Text) (agent : String) (q : Request)
    (d : GatewayDb) (faults : List Bool)
    → KeepsWrites I env agent
    → I d
    → I (serve env quoted agent q (at d faults))
serve_keeps I env quoted agent next_command d faults k i =
    kept I (dequeue env agent (at d faults)) ((dequeue-Keeps I env agent k).keeps d faults i)
serve_keeps I env quoted agent (acknowledge cmd status reason) d faults k i =
    kept I (ack env agent cmd status reason (at d faults))
      ((ack-Keeps I env agent k cmd status reason).keeps d faults i)
serve_keeps I env quoted agent (tell_stage cmd stage message) d faults k i =
    kept I (update_stage env agent cmd stage message (at d faults))
      ((update_stage-Keeps I env agent k cmd stage message).keeps d faults i)
serve_keeps I env quoted agent (tell_result cmd req) d faults k i =
    kept I (report env quoted agent cmd req (at d faults))
      ((report-Keeps I env agent k quoted cmd req).keeps d faults i)

-- As `Cancel` and `Retry` of internal/logic/task do it.
unfoldable pub cancel : ℕ → Command → Command
cancel now c = record c { status = CommandStatus.canceled; finished_at = some now }

-- The orchestrator makes no command for a host that has one under way.
abbrev pub host_is_free : Option ℕ → List Command → Bool
host_is_free none cs = true
host_is_free (some h) cs = not (any_of (active_for h) cs)

module _ (quoted : Text → Text) where
  pub data Step : GatewayDb → GatewayDb → Type 0 where
    request_step :
        (env : Env) (agent : String) (q : Request) (d : GatewayDb) (faults : List Bool)
        → Step d (serve env quoted agent q (at d faults))
    reconcile_step :
        (env : Env) (d : GatewayDb) (faults : List Bool)
        → Step d (rows_after (reconcile_tasks env (at d faults)))
    -- A new command, for a host that has none under way or for an agent itself. The rows of the
    -- hosts change as the task wants it.
    create_step :
        (c : Command) (d : GatewayDb) (hosts : List TaskHost)
        → c.status ≡ CommandStatus.pending
        → c.attempts ≡ 0
        → All (λ x. x.id < c.id) d.commands
        → host_is_free c.task_host d.commands ≡ true
        → Step d (record d { commands = d.commands ++ (c ∷ []); task_hosts = hosts })
    -- A task is canceled, or some of its hosts are run again.
    cancel_step :
        (now : ℕ) (p : Command → Bool) (d : GatewayDb) (hosts : List TaskHost)
        → Step d (record d {
          commands = set_where (λ c. p c && is_active c.status) (cancel now) d.commands;
          task_hosts = hosts;
        })

  pub data Reach (d : GatewayDb) : GatewayDb → Type 0 where
    here : Reach d d
    next : {d1 d2 : GatewayDb} → Reach d d1 → Step d1 d2 → Reach d d2
