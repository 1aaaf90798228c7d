-- ===== src/Agentgw/System/Active.antt =====
-- At most one command is under way per host of a task (internal/logic/agentgw).
use iflygo.Prelude.{
  String, ℕ, ◌+◌, ◌≤◌, ◌≡◌, refl, sym, ◌∙◌, ap, subst, Bool, true, not, Option, none, some, List,
  [], ◌∷◌, ◌++◌, map, ◌&&◌, ◌==◌, if◌then◌else◌, arith, length, count_if, count_if-append, any_of,
  count_if-==-zero, inl, inr, Bool-cases,
}
use iflygo.Text.{Text}
use iflygo.Task.Rows.{is_active}
use iflygo.Db.{at}
use iflygo.Db.Keeps.{kept}
use iflygo.Agentgw.Rows.{Command, GatewayDb, Env}
use iflygo.Agentgw.Sync.{reconcile_tasks, active_for, is_for}
use iflygo.Agentgw.Keeps.{KeepsWrites}
use iflygo.Agentgw.Keeps.Reconcile.{KeepsReconcile, reconcile_tasks-Keeps}
use iflygo.Agentgw.Lifecycle.{Life, Life-ended, Life-identity}
use iflygo.Agentgw.Lifecycle.Lists.{Evolve, news, both, Ascending, Evolve-refl}
use iflygo.Agentgw.System.{
  host_is_free, Step, request_step, reconcile_step, create_step, cancel_step, Reach, here, next,
  serve_keeps,
}
use iflygo.Agentgw.System.Lives.{Step-Lived, Reach-Lived}

-- No host of a task has two commands under way.
abbrev pub OneActive : GatewayDb → Type 0
OneActive d = (host : ℕ) → count_if (active_for host) d.commands ≤ 1

abbrev weight : ℕ → Command → ℕ
weight host c = if active_for host c then 1 else 0

Life-weight : (host : ℕ) {c d : Command} → Life c d → weight host d ≤ weight host c
Life-weight host {c} {d} l = elim (Bool-cases (is_active c.status)) [
  | inl active ↦
      let same : d.task_host ≡ c.task_host = ap (λ x. x.task_host) (Life-identity l) in
      simp (active, same) (by_host (is_for host c.task_host) (is_active d.status))
  | inr ended ↦ subst (λ x. weight host x ≤ weight host c) (sym (Life-ended l ended)) (omega arith)
]
  where
    by_host : (b a : Bool) → (if b && a then 1 else 0) ≤ (if b && true then 1 else 0)
    by_host b a = ground arith

Evolve-active :
    (host : ℕ) {cs ds : List Command}
    → Evolve cs ds
    → length ds ≡ length cs
    → count_if (active_for host) ds ≤ count_if (active_for host) cs
Evolve-active host (news [] b) same = omega arith
Evolve-active host (news (d ∷ ds) b) same = absurd (omega arith)
Evolve-active host (both l e) same =
    omega (arith, Life-weight host l, Evolve-active host e (omega arith))

length-map : (f : Command → Command) (cs : List Command) → length (map f cs) ≡ length cs
length-map f [] = refl
length-map f (c ∷ cs) = omega (arith, length-map f cs)

abbrev HasLength : ℕ → GatewayDb → Type 0
HasLength n d = (length d.commands ≡ n)

writes_length : (n : ℕ) (env : Env) (agent : String) → KeepsWrites (HasLength n) env agent
writes_length n env agent = record {
  hosts = λ p f d h. h;
  agents = λ p f d h. h;
  task_hosts = λ th f d h. h;
  dispatched = λ c d found h. length-map _ d.commands ∙ h;
  accepted = λ cmd c d found sent h. length-map _ d.commands ∙ h;
  refused = λ cmd reason c d found sent h. length-map _ d.commands ∙ h;
  requeued = λ cmd line c d found sent few h. length-map _ d.commands ∙ h;
  progressed = λ cmd stage line d h. length-map _ d.commands ∙ h;
  finalized = λ cmd st stage version d final h. length-map _ d.commands ∙ h;
  reported = λ cmd st r c d found o h. length-map _ d.commands ∙ h;
}

reconciling_length : (n : ℕ) (env : Env) → KeepsReconcile (HasLength n) env
reconciling_length n env = record {
  done = λ d h. length-map _ d.commands ∙ h;
  failed = λ d h. length-map _ d.commands ∙ h;
  lost = λ d h. length-map _ d.commands ∙ h;
  timed_out = λ id d h. length-map _ d.commands ∙ h;
  host_timed_out = λ th d h. h;
  follows = λ d h. h;
  hosts = λ p f d h. h;
}

free_weight :
    (th : Option ℕ) (active : Bool) (cs : List Command) (host : ℕ)
    → host_is_free th cs ≡ true
    → count_if (active_for host) cs ≤ 1
    → count_if (active_for host) cs + (if is_for host th && active then 1 else 0) ≤ 1
free_weight none active cs host free one = omega arith
free_weight (some h) active cs host free one = elim (Bool-cases (h == host)) [
  | inl same ↦
      let e : h ≡ host = ground arith in
      let idle : (count_if (active_for host) cs == 0) ≡ true =
        count_if-==-zero (active_for host) cs
        ∙ subst (λ n. not (any_of (active_for n) cs) ≡ true) e free in
      ground arith
  | inr other ↦ simp other (omega arith)
]

new_active :
    (c : Command) (d : GatewayDb)
    → host_is_free c.task_host d.commands ≡ true
    → OneActive d
    → (host : ℕ) → count_if (active_for host) (d.commands ++ (c ∷ [])) ≤ 1
new_active c d free one host = omega (
  arith,
  count_if-append (active_for host) d.commands (c ∷ []),
  free_weight c.task_host (is_active c.status) d.commands host free (one host),
)

module _ (quoted : Text → Text) where
  -- A step under which all commands live on, and none is new.
  lived_OneActive :
      {cs ds : List Command}
      → Evolve cs ds
      → length ds ≡ length cs
      → ((host : ℕ) → count_if (active_for host) cs ≤ 1)
      → (host : ℕ) → count_if (active_for host) ds ≤ 1
  lived_OneActive e same one host = omega (arith, Evolve-active host e same, one host)

  Step-OneActive :
      {d d' : GatewayDb} → Ascending d.commands → Step quoted d d' → OneActive d → OneActive d'
  Step-OneActive asc (request_step env agent q d faults) one =
      lived_OneActive
        (Step-Lived quoted d.commands (request_step env agent q d faults)
          (Evolve-refl d.commands, asc)).0
        (serve_keeps (HasLength (length d.commands)) env quoted agent q d faults
          (writes_length (length d.commands) env agent) refl)
        one
  Step-OneActive asc (reconcile_step env d faults) one =
      lived_OneActive
        (Step-Lived quoted d.commands (reconcile_step env d faults) (Evolve-refl d.commands, asc)).0
        (kept (HasLength (length d.commands)) (reconcile_tasks env (at d faults)) (
          (reconcile_tasks-Keeps (HasLength (length d.commands)) env
              (reconciling_length (length d.commands) env)).keeps
            d faults refl))
        one
  Step-OneActive asc (create_step c d hosts waits fresh above free) one = new_active c d free one
  Step-OneActive asc (cancel_step now p d hosts) one =
      lived_OneActive
        (Step-Lived quoted d.commands (cancel_step now p d hosts) (Evolve-refl d.commands, asc)).0
        (length-map _ d.commands) one

  -- If every host of a task has at most one command under way, then so it is after any requests of
  -- agents, reconciliations and cancellations, whatever statements fail, and after any commands
  -- that the orchestrator makes for hosts that it finds free. (The ids of the commands rise.)
  pub no_second_command :
      (d d' : GatewayDb) → Ascending d.commands → OneActive d → Reach quoted d d' → OneActive d'
  no_second_command d _ asc one here = one
  no_second_command d d' asc one (next {d1} path step) =
      Step-OneActive (Reach-Lived quoted path asc).1 step (no_second_command d d1 asc one path)
