-- ===== src/Agentgw/System/Hosts.antt =====
-- Hosts of a task that have a result keep it (internal/logic/agentgw).
use iflygo.Prelude.{
  ℕ, zero, suc, ◌≡◌, refl, ap, ◌∙◌, Bool, false, Option, some, List, [], ◌∷◌, map, String, arith,
  get_elem?,
}
use iflygo.Text.{Text}
use iflygo.Db.{at}
use iflygo.Db.Keeps.{kept}
use iflygo.Agentgw.Rows.{TaskHost, GatewayDb, Env, host_is_unsettled, host_is_waiting}
use iflygo.Agentgw.Stage.{open_host}
use iflygo.Agentgw.Reap.{waiting_host, host_time_out}
use iflygo.Agentgw.Sync.{synced, reconcile_tasks}
use iflygo.Agentgw.Keeps.{KeepsWrites}
use iflygo.Agentgw.Keeps.Reconcile.{KeepsReconcile, reconcile_tasks-Keeps}
use iflygo.Agentgw.System.{Request, serve, serve_keeps, rows_after}
use iflygo.Agentgw.System.Own.{get_elem?-set_where}

module _ (i : ℕ) (h : TaskHost) where
  -- The host stands at its place.
  abbrev Stands : GatewayDb → Type 0
  Stands d = (get_elem? d.task_hosts i ≡ some h)

  module _ (settled : host_is_unsettled h.status ≡ false) where
    not_open : (th : Option ℕ) → open_host th h ≡ false
    not_open th = ground arith

    not_waiting : (th : Option ℕ) → waiting_host th h ≡ false
    not_waiting th = ground arith

    Stands-by_writes : (env : Env) (agent : String) → KeepsWrites Stands env agent
    Stands-by_writes env agent = record {
      hosts = λ p f d e. e;
      agents = λ p f d e. e;
      task_hosts =
          λ th f d e. get_elem?-set_where (open_host th) f d.task_hosts i h (not_open th) e;
      dispatched = λ c d found e. e;
      accepted = λ cmd c d found sent e. e;
      refused = λ cmd reason c d found sent e. e;
      requeued = λ cmd line c d found sent few e. e;
      progressed = λ cmd stage line d e. e;
      finalized = λ cmd st stage version d final e. e;
      reported = λ cmd st r c d found o e. e;
    }

    get_elem?-map :
        (f : TaskHost → TaskHost) (hs : List TaskHost) (n : ℕ)
        → f h ≡ h
        → get_elem? hs n ≡ some h
        → get_elem? (map f hs) n ≡ some h
    get_elem?-map f [] n same e = absurd (cc)
    get_elem?-map f (g ∷ hs) zero same e = let g_h : g ≡ h = cc in ap some (ap f g_h ∙ same)
    get_elem?-map f (g ∷ hs) (suc n) same e = get_elem?-map f hs n same e

    synced_same : (now : ℕ) (d : GatewayDb) → synced now d.commands h ≡ h
    unfolding synced
    synced_same now d = let e : host_is_waiting h.status ≡ false = ground arith in simp e refl

    Stands-by_reconciling : (env : Env) → KeepsReconcile Stands env
    Stands-by_reconciling env = record {
      done = λ d e. e;
      failed = λ d e. e;
      lost = λ d e. e;
      timed_out = λ id d e. e;
      host_timed_out = λ th d e.
          get_elem?-set_where (waiting_host th) (host_time_out env) d.task_hosts i h
            (not_waiting th) e;
      follows =
          λ d e. get_elem?-map (synced env.now d.commands) d.task_hosts i (synced_same env.now d) e;
      hosts = λ p f d e. e;
    }

-- A host of a task that has a result, or is canceled, keeps its row through any request of any agent
-- and through any reconciliation, whatever statements fail.
pub settled_stays :
    (env : Env) (quoted : Text → Text) (agent : String) (q : Request) (d : GatewayDb)
    (faults : List Bool) (i : ℕ) (h : TaskHost)
    → get_elem? d.task_hosts i ≡ some h
    → host_is_unsettled h.status ≡ false
    → (get_elem? (serve env quoted agent q (at d faults)).task_hosts i ≡ some h)
      × (get_elem? (rows_after (reconcile_tasks env (at d faults))).task_hosts i ≡ some h)
settled_stays env quoted agent q d faults i h e settled = (
  serve_keeps (Stands i h) env quoted agent q d faults (Stands-by_writes i h settled env agent) e,
  kept (Stands i h) (reconcile_tasks env (at d faults)) (
      (reconcile_tasks-Keeps (Stands i h) env (Stands-by_reconciling i h settled env)).keeps d
        faults e),
)
