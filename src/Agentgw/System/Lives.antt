-- ===== src/Agentgw/System/Lives.antt =====
-- The commands' lives in any history (internal/logic/agentgw).
use iflygo.Prelude.{
  ℕ, zero, suc, ◌≡◌, refl, ◌∙◌, ap, Bool, true, false, some, List, ◌&&◌, All, arith, get_elem?,
}
use iflygo.Text.{Text}
use iflygo.Task.Rows.{CommandStatus, is_active}
use iflygo.Db.{at}
use iflygo.Db.Keeps.{kept}
use iflygo.Agentgw.Rows.{Command, GatewayDb}
use iflygo.Agentgw.Sync.{reconcile_tasks}
use iflygo.Agentgw.Keeps.Reconcile.{reconcile_tasks-Keeps}
use iflygo.Agentgw.Lifecycle.{
  Life, still, onward, stopped, Life-ended, FewAttempts, Life-FewAttempts,
}
use iflygo.Agentgw.Lifecycle.Lists.{
  Evolve, news, both, Ascending, Evolve-refl, Evolve-append, append-Ascending, Evolve-All,
}
use iflygo.Agentgw.Lifecycle.Writes.{Lived, where_Lived}
use iflygo.Agentgw.Lifecycle.Refines.{lives_by_writes, lives_by_reconciling}
use iflygo.Agentgw.System.{
  cancel, Step, request_step, reconcile_step, create_step, cancel_step, Reach, here, next,
  serve_keeps,
}

cancel-Life :
    (now : ℕ) (p : Command → Bool) (c : Command)
    → (p c && is_active c.status) ≡ true
    → Life c (cancel now c)
unfolding cancel
cancel-Life now p c h = onward still refl (stopped (ground arith) refl refl)

Evolve-ended :
    (i : ℕ) (k : Command) {cs ds : List Command}
    → Evolve cs ds
    → get_elem? cs i ≡ some k
    → is_active k.status ≡ false
    → get_elem? ds i ≡ some k
Evolve-ended i k (news ds b) e h = absurd (cc)
Evolve-ended zero k (both {c} {d} l ev) e h =
    let same : c ≡ k = cc in ap some (Life-ended l (ap (λ x. is_active x.status) same ∙ h) ∙ same)
Evolve-ended (suc i) k (both l ev) e h = Evolve-ended i k ev e h

new_few : (c : Command) → c.status ≡ CommandStatus.pending → c.attempts ≡ 0 → FewAttempts c
new_few c waits fresh = rw (waits, fresh) (omega arith)

module _ (quoted : Text → Text) where
  pub Step-Lived :
      (cs : List Command) {d d' : GatewayDb} → Step quoted d d' → Lived cs d → Lived cs d'
  unfolding cancel
  Step-Lived cs (request_step env agent q d faults) h =
      serve_keeps (Lived cs) env quoted agent q d faults (lives_by_writes cs env agent) h
  Step-Lived cs (reconcile_step env d faults) h =
      kept (Lived cs) (reconcile_tasks env (at d faults))
        ((reconcile_tasks-Keeps (Lived cs) env (lives_by_reconciling cs env)).keeps d faults h)
  Step-Lived cs (create_step c d hosts waits fresh above free) (e, asc) = (
    Evolve-append c e (record { first = c; waits = waits; fresh = fresh; life = still }),
    append-Ascending c d.commands above asc,
  )
  Step-Lived cs (cancel_step now p d hosts) h =
      where_Lived cs (λ c. p c && is_active c.status) (cancel now) d (λ x. refl) (cancel-Life now p)
        h

  pub Reach-Lived :
      {d d' : GatewayDb} → Reach quoted d d' → Ascending d.commands → Lived d.commands d'
  Reach-Lived {d} here asc = (Evolve-refl d.commands, asc)
  Reach-Lived {d} (next path step) asc = Step-Lived d.commands step (Reach-Lived path asc)

  -- Whatever agents request, whenever the server reconciles, and whatever statements fail: each
  -- command stays at its place and lives by the turns of the abstract machine, each new one began
  -- waiting and not handed out, and the ids still rise, if they did.
  pub Reach-Evolve :
      (d d' : GatewayDb)
      → Ascending d.commands
      → Reach quoted d d'
      → Evolve d.commands d'.commands × Ascending d'.commands
  Reach-Evolve d d' asc path = Reach-Lived path asc

  -- Whatever happens, the row of a command that has ended is never written again: no late report, no
  -- reconciliation and no cancellation touches it. (The ids of the commands rise.)
  pub ended_stays :
      (d d' : GatewayDb) (i : ℕ) (c : Command)
      → Ascending d.commands
      → get_elem? d.commands i ≡ some c
      → is_active c.status ≡ false
      → Reach quoted d d'
      → get_elem? d'.commands i ≡ some c
  ended_stays d d' i c asc found ended path =
      Evolve-ended i c (Reach-Evolve d d' asc path).0 found ended

  -- No command is ever handed out more than twice, and none that waits more than once before, if it
  -- was so at the beginning.
  pub Reach-FewAttempts :
      (d d' : GatewayDb)
      → Ascending d.commands
      → All FewAttempts d.commands
      → Reach quoted d d'
      → All FewAttempts d'.commands
  Reach-FewAttempts d d' asc few path =
      Evolve-All FewAttempts (λ c e l h. Life-FewAttempts l h) new_few
        (Reach-Evolve d d' asc path).0 few
