-- ===== src/Agentgw/Dequeue/Order.antt =====
-- Which command an agent is handed (internal/logic/agentgw/gateway.go).
use iflygo.Prelude.{
  str_eq, ℕ, ◌<◌, ◌≤◌, ◌≡◌, refl, sym, ◌∙◌, subst, ◌⊎◌, Bool, true, false, Option, none, some, List,
  [], ◌∷◌, String, ◌==◌, ◌&&◌, find_first, find_first-hit, find_first-miss, All, get_elem?, suc,
  arith, inl, inr, Bool-cases,
}
use iflygo.Task.Rows.{CommandStatus}
use iflygo.Task.Reconcile.{Pairwise}
use iflygo.Db.{World, Result, ok, err, at}
use iflygo.Db.Atomic.{Post, Settled, query-Post, exec-Post, transaction-Post}
use iflygo.Agentgw.Rows.{Command, GatewayDb, Env, set_where, update_commands}
use iflygo.Agentgw.Dequeue.{is_due, is_valid, is_pending, dispatch, take_command, dequeue}
use iflygo.Agentgw.Lifecycle.Lists.{Ascending, found-All, find_first-true}

module _ (env : Env) (agent : String) where
  -- The rows after a command has been taken.
  abbrev taken_from : GatewayDb → Command → GatewayDb
  taken_from d c = update_commands (λ x. x.id == c.id) (dispatch env.now) d

  -- What a dequeue has done: nothing was due, or the first due command is marked and returned.
  abbrev pub Took : GatewayDb → Option Command → GatewayDb → Type 0
  Took d none d' = (find_first (is_due env.now agent) d.commands ≡ none) × (d' ≡ d)
  Took d (some a) d' =
      (c : Command) × (find_first (is_due env.now agent) d.commands ≡ some c)
      × (a ≡ dispatch env.now c)
      × (d' ≡ taken_from d c)

  take-Post :
      (o : Option Command) (d : GatewayDb) (fs : List Bool)
      → find_first (is_due env.now agent) d.commands ≡ o
      → Post (Settled (Took d) (λ d'. d' ≡ d) d) (λ d'. Unit) (take_command env.now o (at d fs))
  take-Post none d fs e = (e, refl)
  take-Post (some c) d fs e = exec-Post _ _ _ _ d fs tt (λ fs'. (c, e, refl, refl))

  -- Whatever statements fail, a dequeue takes the first command that is due, or finds that none is,
  -- or fails and leaves the rows as they were.
  pub dequeue-Post :
      (d : GatewayDb) (faults : List Bool)
      → Post (Took d) (λ d'. d' ≡ d) (dequeue env agent (at d faults))
  unfolding dequeue
  dequeue-Post d faults =
      transaction-Post (Took d) (λ d'. d' ≡ d) _ d faults refl
        (λ fs. query-Post _ _ _ _ d fs tt (λ fs'. take-Post _ d fs' refl))

-- The command waits for the agent, and its time has not run out.
abbrev pub IsWaiting : ℕ → String → Command → Type 0
IsWaiting now agent c =
    (str_eq c.agent agent ≡ true)
    × (c.status ≡ CommandStatus.pending)
    × ((c.expire_at ≡ none) ⊎ ((t : ℕ) × (c.expire_at ≡ some t) × (now < t)))

-- Of the two rows the second is the first, or the command marked as handed out.
abbrev pub IsMarked : ℕ → Command → Command → Command → Type 0
IsMarked now c x y = ((x ≡ c) × (y ≡ dispatch now c)) ⊎ ((¬ (x.id ≡ c.id)) × (y ≡ x))

-- Nothing waited, or the waiting command with the least id is handed out, and nothing else changes.
abbrev pub Handed : ℕ → String → GatewayDb → Option Command → GatewayDb → Type 0
Handed now agent d none d' = All (λ x. ¬ (IsWaiting now agent x)) d.commands × (d' ≡ d)
Handed now agent d (some a) d' =
    (c : Command) × (i : ℕ) × (get_elem? d.commands i ≡ some c)
    × (IsWaiting now agent c)
    × (a ≡ dispatch now c)
    × All (λ x. (¬ (IsWaiting now agent x)) ⊎ (c.id ≤ x.id)) d.commands
    × Pairwise (IsMarked now c) d.commands d'.commands
    × (d' ≡ record d { commands = d'.commands })

module _ (now : ℕ) (agent : String) where
  due-IsWaiting : (c : Command) → is_due now agent c ≡ true → IsWaiting now agent c
  due-IsWaiting c h = by_parts (str_eq c.agent agent) c.status c.expire_at h
    where
      by_parts :
          (own : Bool) (st : CommandStatus) (t : Option ℕ)
          → (own && is_pending st && is_valid now t) ≡ true
          → (own ≡ true)
            × (st ≡ CommandStatus.pending)
            × ((t ≡ none) ⊎ ((e : ℕ) × (t ≡ some e) × (now < e)))
      by_parts true CommandStatus.pending none q = (refl, refl, inl refl)
      by_parts true CommandStatus.pending (some e) q = (refl, refl, inr (e, refl, ground arith))
      by_parts own st t q = absurd (ground arith)

  idle-IsWaiting : (c : Command) → is_due now agent c ≡ false → ¬ (IsWaiting now agent c)
  idle-IsWaiting c h (own, waits, inl never) = ground arith
  idle-IsWaiting c h (own, waits, inr (t, e, lt)) = ground arith

  none-IsWaiting :
      (cs : List Command)
      → find_first (is_due now agent) cs ≡ none
      → All (λ x. ¬ (IsWaiting now agent x)) cs
  none-IsWaiting [] e = tt
  none-IsWaiting (x ∷ cs) e = elim (Bool-cases (is_due now agent x)) [
    | inl due ↦ absurd (clash (sym (find_first-hit (is_due now agent) x cs due) ∙ e))
    | inr idle ↦ (
      idle-IsWaiting x idle,
      none-IsWaiting cs (sym (find_first-miss (is_due now agent) x cs idle) ∙ e),
    )
  ]
    where
      clash : some x ≡ none → ⊥
      clash q = cc

  -- Behind the command that is taken, all ids are greater.
  behind-IsMarked :
      (c : Command) (cs : List Command)
      → All (λ x. c.id < x.id) cs
      → Pairwise (IsMarked now c) cs (set_where (λ x. x.id == c.id) (dispatch now) cs)
  behind-IsMarked c [] h = tt
  behind-IsMarked c (x ∷ cs) h =
      let differs : (x.id == c.id) ≡ false = ground arith in
      (inr ((λ q. omega (arith, q, h.0)), rw differs refl), behind-IsMarked c cs h.1)

  All-above :
      (c : Command) (cs : List Command)
      → All (λ x. c.id < x.id) cs
      → All (λ x. (¬ (IsWaiting now agent x)) ⊎ (c.id ≤ x.id)) cs
  All-above c [] h = tt
  All-above c (x ∷ cs) h = (inr (omega (arith, h.0)), All-above c cs h.1)

  -- What the first due command of the rows is, and what marking it does.
  abbrev IsNext : Command → List Command → Type 0
  IsNext c cs =
      ((i : ℕ) × (get_elem? cs i ≡ some c))
      × All (λ x. (¬ (IsWaiting now agent x)) ⊎ (c.id ≤ x.id)) cs
      × Pairwise (IsMarked now c) cs (set_where (λ x. x.id == c.id) (dispatch now) cs)

  at_head : (c : Command) (cs : List Command) → All (λ x. c.id < x.id) cs → IsNext c (c ∷ cs)
  at_head c cs h =
      let same : (c.id == c.id) ≡ true = ground arith in
      (
        (0, refl),
        (inr (omega arith), All-above c cs h),
        (inl (refl, rw same refl), behind-IsMarked c cs h),
      )

  in_tail :
      (c x : Command) (cs : List Command)
      → is_due now agent x ≡ false
      → x.id < c.id
      → IsNext c cs
      → IsNext c (x ∷ cs)
  in_tail c x cs idle lt ((i, e), out, marked) =
      let differs : (x.id == c.id) ≡ false = ground arith in
      (
        (suc i, e),
        (inl (idle-IsWaiting x idle), out),
        (inr ((λ q. omega (arith, q, lt)), rw differs refl), marked),
      )

  found-IsNext :
      (c : Command) (cs : List Command)
      → Ascending cs
      → find_first (is_due now agent) cs ≡ some c
      → IsNext c cs
  found-IsNext c [] asc e = absurd (cc)
  found-IsNext c (x ∷ cs) asc e = elim (Bool-cases (is_due now agent x)) [
    | inl due ↦
        let x_c = some_eq (sym (find_first-hit (is_due now agent) x cs due) ∙ e) in
        subst (λ y. All (λ z. y.id < z.id) cs → IsNext c (y ∷ cs)) (sym x_c) (at_head c cs) asc.0
    | inr idle ↦
        let e' = sym (find_first-miss (is_due now agent) x cs idle) ∙ e in
        in_tail c x cs idle (found-All (λ y. x.id < y.id) (is_due now agent) c cs e' asc.0)
          (found-IsNext c cs asc.1 e')
  ]
    where
      some_eq : {a b : Command} → some a ≡ some b → a ≡ b
      some_eq q = cc

Took-Handed :
    (env : Env) (agent : String) (d d' : GatewayDb) (o : Option Command)
    → Ascending d.commands
    → Took env agent d o d'
    → Handed env.now agent d o d'
Took-Handed env agent d d' none asc (out, same) =
    (none-IsWaiting env.now agent d.commands out, same)
Took-Handed env agent d d' (some a) asc (c, found, a_c, marked) =
    let due = find_first-true (is_due env.now agent) c d.commands found in
    let (at_place, least, rows) = found-IsNext env.now agent c d.commands asc found in
    subst (Handed env.now agent d (some a)) (sym marked)
      (c, at_place.0, at_place.1, due-IsWaiting env.now agent c due, a_c, least, rows, refl)

-- An agent is handed the waiting command with the least id, whatever statements fail: a dequeue fails
-- and changes nothing; or it answers that none waits, which is so, and changes nothing; or it marks a
-- command that waits for the agent (pending, its time not run out), below whose id none waits, returns
-- it, and changes nothing else. (The ids of the rows rise.)
pub dequeue_takes_first :
    (env : Env) (agent : String) (d : GatewayDb) (faults : List Bool)
    → Ascending d.commands
    → Post (Handed env.now agent d) (λ d'. d' ≡ d) (dequeue env agent (at d faults))
dequeue_takes_first env agent d faults asc =
    widen (dequeue env agent (at d faults)) (dequeue-Post env agent d faults)
  where
    widen :
        (rw : Result (Option Command) × World GatewayDb)
        → Post (Took env agent d) (λ d'. d' ≡ d) rw
        → Post (Handed env.now agent d) (λ d'. d' ≡ d) rw
    widen (ok o, w) h = Took-Handed env agent d w.db o asc h
    widen (err e, w) h = h
