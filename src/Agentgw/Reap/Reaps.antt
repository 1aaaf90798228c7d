-- ===== src/Agentgw/Reap/Reaps.antt =====
-- After a reaping, no command is in hand with its lease over (internal/logic/agentgw/reap.go).
use iflygo.Prelude.{
  ℕ, ◌+◌, ◌≤◌, ◌≡◌, refl, sym, ◌∙◌, subst, Bool, true, false, Option, none, some, List, [], ◌∷◌,
  String, ◌==◌, if◌then◌else◌, find_first, All, arith, count_if, keep_if,
}
use iflygo.Db.{Db, World, Result, commit, at, exec_if, pure, ◌>>◌}
use iflygo.Db.Atomic.{
  Post, Settled, query-Post, exec-Post, exec_if-Post, bind-Post, transaction-Post, if-Post,
}
use iflygo.Agentgw.Rows.{Command, GatewayDb, Env, update_commands, update_task_hosts}
use iflygo.Agentgw.Stage.{is_some}
use iflygo.Agentgw.Reap.{
  is_expired, first, batch, time_out, host_time_out, in_hand_by_id, waiting_host, Reaped, lock_host,
  give_up, if_still, if_locked, reap_one, reap_each, release, release_each, finish_reap, reap_body,
  reap_expired,
}
use iflygo.Agentgw.Reap.Clears.{
  IsClear, first_all, length-keep_if, All-listed, given_up_list, IsClear-list, not_over, absent,
  lock_host-update, timed_out_id,
}
use iflygo.Agentgw.Lifecycle.Lists.{Ascending, map-Ascending}
use iflygo.Agentgw.Reap.Calm.{reap_expired-Sure}

module _ (env : Env) where
  -- What is left to do: the hosts of the listed commands are there, and all else is clear.
  abbrev Left : List Command → GatewayDb → Type 0
  Left cs d =
      All (λ c. lock_host c.task_host d ≡ true) cs
      × Ascending d.commands
      × All (IsClear env.now cs) d.commands

  abbrev PostLeft : {A : Type 0} → List Command → Result A × World GatewayDb → Type 0
  PostLeft cs = Post (λ a d. Left cs d) (λ d. Unit)

  hosts_there :
      (th : Option ℕ) (cs : List Command) (d : GatewayDb)
      → All (λ c. lock_host c.task_host d ≡ true) cs
      → All
          (λ c.
            lock_host c.task_host (update_task_hosts (waiting_host th) (host_time_out env) d)
            ≡ true)
          cs
  hosts_there th [] d h = tt
  hosts_there th (c ∷ cs) d h = (
    lock_host-update (host_time_out env) (waiting_host th) c.task_host d (λ t. refl) ∙ h.0,
    hosts_there th cs d h.1,
  )

  if_given_up_id : (b : Bool) (x : Command) → (if b then time_out env x else x).id ≡ x.id
  if_given_up_id true x = timed_out_id env x
  if_given_up_id false x = refl

  module _ (c : Command) (cs : List Command) where
    give_up-Post :
        (acc : Reaped) (d : GatewayDb) (fs : List Bool)
        → Left (c ∷ cs) d
        → PostLeft cs (give_up env c acc (at d fs))
    give_up-Post (agents, n) d fs (there, asc, clear) =
        exec-Post _ _ (update_commands (in_hand_by_id c.id) (time_out env)) _ d fs tt
          (λ fs1. hosts_written (is_some c.task_host) fs1)
      where
        d1 : GatewayDb
        d1 = update_commands (in_hand_by_id c.id) (time_out env) d

        left : Left cs d1
        left = (
          there.1,
          map-Ascending _ d.commands (λ x. if_given_up_id (in_hand_by_id c.id x) x) asc,
          given_up_list env c cs d.commands clear,
        )

        hosts_written :
            (b : Bool) (fs1 : List Bool)
            → PostLeft {A = Reaped} cs (
                (exec_if b (update_task_hosts (waiting_host c.task_host) (host_time_out env))
                    >> pure (c.agent ∷ agents, n + 1))
                  (at d1 fs1))
        hosts_written true fs1 =
            exec_if-Post _ _ true _ _ d1 fs1 tt
              (λ fs2. (hosts_there c.task_host cs d1 left.0, left.1, left.2))
        hosts_written false fs1 =
            exec_if-Post _ _ false
              (update_task_hosts (waiting_host c.task_host) (host_time_out env)) _ d1 fs1 tt
              (λ fs2. left)

    if_still-Post :
        (acc : Reaped) (o : Option Command) (d : GatewayDb) (fs : List Bool)
        → find_first (λ x. x.id == c.id) d.commands ≡ o
        → Left (c ∷ cs) d
        → PostLeft cs (if_still env c acc o (at d fs))
    if_still-Post acc none d fs e (there, asc, clear) =
        (there.1, asc, IsClear-list env c cs d.commands (absent env c d.commands e) clear)
    if_still-Post acc (some c') d fs e (there, asc, clear) =
        if-Post (λ a d'. Left cs d') (λ d'. Unit) (is_expired env.now c') _ _ _
          (λ over. give_up-Post acc d fs (there, asc, clear))
          (λ idle. (
            there.1,
            asc,
            IsClear-list env c cs d.commands (not_over env c d.commands c' asc e idle) clear,
          ))

    if_locked-Post :
        (acc : Reaped) (b : Bool) (d : GatewayDb) (fs : List Bool)
        → b ≡ true
        → Left (c ∷ cs) d
        → PostLeft cs (if_locked env c acc b (at d fs))
    if_locked-Post acc false d fs h left = absurd (cc)
    if_locked-Post acc true d fs h left =
        query-Post _ _ _ _ d fs tt (λ fs'. if_still-Post acc _ d fs' refl left)

    reap_one-Post :
        (acc : Reaped) (d : GatewayDb) (fs : List Bool)
        → Left (c ∷ cs) d
        → PostLeft cs (reap_one env c acc (at d fs))
    reap_one-Post acc d fs left =
        query-Post _ _ _ _ d fs tt (λ fs'. if_locked-Post acc _ d fs' left.0.0 left)

  followed :
      {A B : Type 0} (cs : List Command) (k : A → Db GatewayDb B)
      → ((a : A) (d : GatewayDb) (fs : List Bool) → Left cs d → PostLeft [] (k a (at d fs)))
      → (rw : Result A × World GatewayDb) → PostLeft cs rw
      → Post (λ a d. (fs : List Bool) → PostLeft [] (k a (at d fs))) (λ d. Unit) rw
  followed cs k ih (Result.ok a, w) left = λ fs. ih a w.db fs left
  followed cs k ih (Result.err e, w) left = tt

  reap_each-Post :
      (cs : List Command) (acc : Reaped) (d : GatewayDb) (fs : List Bool)
      → Left cs d
      → PostLeft [] (reap_each env cs acc (at d fs))
  unfolding reap_each
  reap_each-Post [] acc d fs left = left
  reap_each-Post (c ∷ cs) acc d fs left =
      let rest = reap_each-Post cs in
      bind-Post _ _ (reap_one env c acc) (reap_each env cs) (at d fs) (
        followed cs (reap_each env cs) rest (reap_one env c acc (at d fs))
          (reap_one-Post c cs acc d fs left))

  -- The hosts' list does not matter for what is clear.
  release_each-Post :
      (agents : List String) (d : GatewayDb) (fs : List Bool)
      → Left [] d
      → PostLeft [] (release_each agents (at d fs))
  unfolding release_each
  release_each-Post [] d fs left = left
  release_each-Post (a ∷ agents) d fs left =
      let rest = release_each-Post agents in
      exec-Post _ _ (release a) _ d fs tt (λ fs'. rest (release a d) fs' left)

  abbrev AllClear : GatewayDb → Type 0
  AllClear d = All (λ c. is_expired env.now c ≡ false) d.commands

  clear-All :
      (xs : List Command) → All (IsClear env.now []) xs → All (λ c. is_expired env.now c ≡ false) xs
  clear-All [] h = tt
  clear-All (x ∷ xs) h = (ground arith, clear-All xs h.1)

  module _ (d0 : GatewayDb) where
    finish_reap-Post :
        (acc : Reaped) (d : GatewayDb) (fs : List Bool)
        → Left [] d
        → Post
            (Settled (λ n d'. AllClear d') (λ d'. d' ≡ d0) d0)
            (λ d'. Unit)
            (finish_reap acc (at d fs))
    finish_reap-Post (agents, n) d fs left =
        bind-Post _ _ _ _ _
          (last (release_each agents (at d fs)) (release_each-Post agents d fs left))
      where
        last :
            (rw : Result (Unit {0}) × World GatewayDb)
            → PostLeft [] rw
            → Post
                (λ a d'.
                  (fs' : List Bool)
                  → Post
                      (Settled (λ m d''. AllClear d'') (λ d''. d'' ≡ d0) d0)
                      (λ d''. Unit)
                      (pure (commit n) (at d' fs')))
                (λ d'. Unit)
                rw
        last (Result.ok a, w) h = λ fs'. clear-All w.db.commands h.2
        last (Result.err e, w) h = tt

    finish_followed :
        (rw : Result Reaped × World GatewayDb)
        → PostLeft [] rw
        → Post
            (λ a d.
              (fs : List Bool)
              → Post
                  (Settled (λ n d'. AllClear d') (λ d'. d' ≡ d0) d0)
                  (λ d'. Unit)
                  (finish_reap a (at d fs)))
            (λ d. Unit)
            rw
    finish_followed (Result.ok a, w) left = λ fs. finish_reap-Post a w.db fs left
    finish_followed (Result.err e, w) left = tt

    -- The first 500 of the expired commands are all of them.
    All-first :
        count_if (is_expired env.now) d0.commands ≤ batch
        → All (λ c. lock_host c.task_host d0 ≡ true) (keep_if (is_expired env.now) d0.commands)
        → Ascending d0.commands
        → Left (first batch (keep_if (is_expired env.now) d0.commands)) d0
    All-first few there asc =
        let cs = keep_if (is_expired env.now) d0.commands in
        let all : first batch cs ≡ cs =
          first_all env.now batch cs
            (omega (arith, length-keep_if env.now (is_expired env.now) d0.commands)) in
        subst (λ l. Left l d0) (sym all) (there, asc, All-listed env.now d0.commands)

    reap_body-Post :
        (fs : List Bool)
        → Left (first batch (keep_if (is_expired env.now) d0.commands)) d0
        → Post
            (Settled (λ n d'. AllClear d') (λ d'. d' ≡ d0) d0)
            (λ d'. Unit)
            (reap_body env (at d0 fs))
    reap_body-Post fs left = query-Post _ _ _ _ d0 fs tt (λ fs1.
        bind-Post _ _
          (reap_each env (first batch (keep_if (is_expired env.now) d0.commands)) ([], 0))
          finish_reap (at d0 fs1)
          (finish_followed
            (reap_each env (first batch (keep_if (is_expired env.now) d0.commands)) ([], 0)
              (at d0 fs1))
            (reap_each-Post _ ([], 0) d0 fs1 left)))

reap_expired-Post :
    (env : Env) (d : GatewayDb) (faults : List Bool)
    → Left env (first batch (keep_if (is_expired env.now) d.commands)) d
    → Post (λ n d'. AllClear env d') (λ d'. d' ≡ d) (reap_expired env (at d faults))
unfolding reap_expired
reap_expired-Post env d faults left =
    transaction-Post _ _ (reap_body env) d faults refl (λ fs. reap_body-Post env d fs left)

-- If the ids of the commands rise, at most 500 commands are expired and the hosts that they are for exist, then after a reaping that
-- succeeds no command is in hand with its lease over, however silent its agent is; a reaping that fails
-- changes nothing, and one in which no statement fails succeeds.
pub reap_expired_clears :
    (env : Env) (d : GatewayDb) (faults : List Bool)
    → Ascending d.commands
    → count_if (is_expired env.now) d.commands ≤ batch
    → All (λ c. lock_host c.task_host d ≡ true) (keep_if (is_expired env.now) d.commands)
    → Post
        (λ n d'. All (λ c. is_expired env.now c ≡ false) d'.commands)
        (λ d'. d' ≡ d)
        (reap_expired env (at d faults))
      × ((n : ℕ) × (d' : GatewayDb) × (reap_expired env (at d []) ≡ (Result.ok n, at d' [])))
reap_expired_clears env d faults asc few there = (
  reap_expired-Post env d faults (All-first env d few there asc),
  (reap_expired-Sure env).succeeds d,
)
