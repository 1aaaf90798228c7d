-- ===== src/Agentgw/Sync/Ends.antt =====
-- A reconciliation only ends commands in hand, and settles hosts that wait (internal/logic/agentgw/reap.go).
use iflygo.Prelude.{
  ℕ, ◌≡◌, refl, subst, ◌⊎◌, inl, inr, Bool, true, false, List, [], ◌∷◌, map, arith, Option,
  if◌then◌else◌,
}
use iflygo.Task.Rows.{is_active}
use iflygo.Task.Reconcile.{Pairwise, Pairwise-refl, Pairwise-trans}
use iflygo.Db.{at}
use iflygo.Db.Keeps.{kept}
use iflygo.Agentgw.Rows.{Command, TaskHost, GatewayDb, Env, in_hand, set_where, host_is_waiting}
use iflygo.Agentgw.Reap.{
  seems_done, seems_failed, seems_lost, close_done, close_failed, close_lost, in_hand_by_id,
  time_out, waiting_host, host_time_out,
}
use iflygo.Agentgw.Sync.{synced, reconcile_tasks}
use iflygo.Agentgw.Sync.Settles.{Follows, is_stuck, synced-Follows}
use iflygo.Agentgw.Keeps.Reconcile.{KeepsReconcile, reconcile_tasks-Keeps}
use iflygo.Agentgw.System.{rows_after}

-- A command stays, or was in hand and has ended.
abbrev pub Ends : Command → Command → Type 0
Ends c c' =
    (c' ≡ c)
    ⊎ ((in_hand c.status ≡ true) × (is_active c'.status ≡ false) × (c'.task_host ≡ c.task_host))

-- A host stays, or waited and waits no more.
abbrev pub Rests : TaskHost → TaskHost → Type 0
Rests h h' =
    (h' ≡ h)
    ⊎ ((host_is_waiting h.status ≡ true) × (host_is_waiting h'.status ≡ false) × (h'.id ≡ h.id))

Ends-trans : (a b c : Command) → Ends a b → Ends b c → Ends a c
Ends-trans a b c (inl same) k = subst (λ x. Ends x c) same k
Ends-trans a b c (inr (hand, ended, host)) (inl same) = inr (hand, cc, cc)
Ends-trans a b c (inr (hand, ended, host)) (inr (hand', ended', host')) = absurd (ground arith)

Rests-trans : (a b c : TaskHost) → Rests a b → Rests b c → Rests a c
Rests-trans a b c (inl same) k = subst (λ x. Rests x c) same k
Rests-trans a b c (inr (waits, rests, id)) (inl same) = inr (waits, cc, cc)
Rests-trans a b c (inr (waits, rests, id)) (inr (waits', rests', id')) = absurd (cc)

-- An update of some rows relates them to what they become, if it does so for each of them.
Pairwise-set_where :
    {A : Type 0} (R : A → A → Type 0) (p : A → Bool) (f : A → A)
    → ((x : A) → R x x)
    → ((x : A) → p x ≡ true → R x (f x))
    → (xs : List A) → Pairwise R xs (set_where p f xs)
Pairwise-set_where R p f same change [] = tt
Pairwise-set_where R p f same change (x ∷ xs) =
    (row (p x) refl, Pairwise-set_where R p f same change xs)
  where
    row : (b : Bool) → p x ≡ b → R x (if b then f x else x)
    row true e = change x e
    row false e = same x

stuck_waits :
    (cs : List Command) (h : TaskHost) → is_stuck cs h ≡ true → host_is_waiting h.status ≡ true
stuck_waits cs h e = ground arith

Follows-Rests : (cs : List Command) (h h' : TaskHost) → Follows cs h h' → Rests h h'
Follows-Rests cs h h' (inl (quiet, same)) = inl same
Follows-Rests cs h h' (inr (c, stuck, last, id, status, rests)) =
    inr (stuck_waits cs h stuck, rests, id)

Pairwise-synced :
    (now : ℕ) (cs : List Command) (hs : List TaskHost) → Pairwise Rests hs (map (synced now cs) hs)
Pairwise-synced now cs [] = tt
Pairwise-synced now cs (h ∷ hs) =
    (Follows-Rests cs h (synced now cs h) (synced-Follows now cs h), Pairwise-synced now cs hs)

module _ (start : GatewayDb) where
  abbrev Only : GatewayDb → Type 0
  Only d = Pairwise Ends start.commands d.commands × Pairwise Rests start.task_hosts d.task_hosts

  commands-Only :
      (p : Command → Bool) (f : Command → Command) (d : GatewayDb)
      → ((c : Command) → p c ≡ true → Ends c (f c))
      → Only d
      → Only (record d { commands = set_where p f d.commands })
  commands-Only p f d ends (commands, hosts) = (
    Pairwise-trans Ends Ends-trans start.commands d.commands (set_where p f d.commands) commands
        (Pairwise-set_where Ends p f (λ c. inl refl) ends d.commands),
    hosts,
  )

  hosts-Only :
      (d : GatewayDb) (hs : List TaskHost)
      → Pairwise Rests d.task_hosts hs
      → Only d
      → Only (record d { task_hosts = hs })
  hosts-Only d hs rests (commands, hosts) =
      (commands, Pairwise-trans Rests Rests-trans start.task_hosts d.task_hosts hs hosts rests)

done-Ends : (env : Env) (c : Command) → seems_done env.now c ≡ true → Ends c (close_done env c)
unfolding close_done
done-Ends env c h = inr (ground arith, refl, refl)

failed-Ends :
    (env : Env) (c : Command) → seems_failed env.now c ≡ true → Ends c (close_failed env c)
unfolding close_failed
failed-Ends env c h = inr (ground arith, refl, refl)

lost-Ends : (env : Env) (c : Command) → seems_lost env.now c ≡ true → Ends c (close_lost env c)
unfolding close_lost
lost-Ends env c h = inr (ground arith, refl, refl)

time_out-Ends :
    (env : Env) (id : ℕ) (c : Command) → in_hand_by_id id c ≡ true → Ends c (time_out env c)
unfolding time_out
time_out-Ends env id c h = inr (ground arith, refl, refl)

time_out-Rests :
    (env : Env) (th : Option ℕ) (h : TaskHost)
    → waiting_host th h ≡ true
    → Rests h (host_time_out env h)
time_out-Rests env th h e = inr (ground arith, refl, refl)

Only-by_reconciling : (start : GatewayDb) (env : Env) → KeepsReconcile (Only start) env
Only-by_reconciling start env = record {
  done = λ d i. commands-Only start (seems_done env.now) (close_done env) d (done-Ends env) i;
  failed =
      λ d i. commands-Only start (seems_failed env.now) (close_failed env) d (failed-Ends env) i;
  lost = λ d i. commands-Only start (seems_lost env.now) (close_lost env) d (lost-Ends env) i;
  timed_out =
      λ id d i. commands-Only start (in_hand_by_id id) (time_out env) d (time_out-Ends env id) i;
  host_timed_out = λ th d i.
      hosts-Only start d (set_where (waiting_host th) (host_time_out env) d.task_hosts)
        (Pairwise-set_where Rests (waiting_host th) (host_time_out env) (λ h. inl refl)
          (time_out-Rests env th) d.task_hosts)
        i;
  follows = λ d i.
      hosts-Only start d (map (synced env.now d.commands) d.task_hosts)
        (Pairwise-synced env.now d.commands d.task_hosts) i;
  hosts = λ p f d i. i;
}

-- Whatever statements fail, a reconciliation leaves each command as it is, or ends it where it was in
-- hand, and leaves each host of a task as it is, or gives it a result where it waited. The orchestrator
-- is shown no more of it (`Task.Reconcile.Reconciled`).
reconcile_tasks-Only :
    (env : Env) (d : GatewayDb) (faults : List Bool)
    → Pairwise Ends d.commands (rows_after (reconcile_tasks env (at d faults))).commands
      × Pairwise Rests d.task_hosts (rows_after (reconcile_tasks env (at d faults))).task_hosts
reconcile_tasks-Only env d faults = kept (Only d) (reconcile_tasks env (at d faults)) (
    (reconcile_tasks-Keeps (Only d) env (Only-by_reconciling d env)).keeps d faults (
      Pairwise-refl Ends (λ c. inl refl) d.commands,
      Pairwise-refl Rests (λ h. inl refl) d.task_hosts,
    ))
