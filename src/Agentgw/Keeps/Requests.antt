-- ===== src/Agentgw/Keeps/Requests.antt =====
-- Each request of an agent keeps what its writes keep (internal/logic/agentgw/gateway.go).
use iflygo.Prelude.{
  ℕ, ◌≡◌, refl, Bool, true, ◌&&◌, Option, none, some, List, String, find_first, leb, arith, str_eq,
}
use iflygo.Text.{Text, text, text_eq, contains}
use iflygo.Db.{World, at, Result}
use iflygo.Db.Atomic.{Post, exec-Post, default-Post, if-Post}
use iflygo.Db.Keeps.{Keeps, transaction-Keeps, seen-Keeps}
use iflygo.Agentgw.Rows.{Command, AgentRow, GatewayDb, Env, owned}
use iflygo.Agentgw.Dequeue.{is_due, take_command, dequeue}
use iflygo.Agentgw.Ack.{
  SignatureMode, is_dispatched, refuse_it, switch_to, with_modes, reject, answer, if_dispatched,
  ack, switched, requeue_line, mode_text,
}
use iflygo.Agentgw.Keeps.{KeepsWrites}

module _ (I : GatewayDb → Type 0) (env : Env) (agent : String) (k : KeepsWrites I env agent) where
  abbrev PostI : {A : Type 0} → Result A × World GatewayDb → Type 0
  PostI = Post (λ a d. I d) I

  taken :
      (o : Option Command) (d : GatewayDb) (fs : List Bool)
      → find_first (is_due env.now agent) d.commands ≡ o
      → I d
      → PostI (take_command env.now o (at d fs))
  taken none d fs e i = i
  taken (some c) d fs e i = exec-Post (λ a d'. I d') I _ _ d fs i (λ fs'. k.dispatched c d e i)

  pub dequeue-Keeps : Keeps I (dequeue env agent)
  unfolding dequeue
  dequeue-Keeps = transaction-Keeps I _ (seen-Keeps I _ _ (λ d fs i. taken _ d fs refl i))

  module _ (cmd : ℕ) (status reason : Text) where
    -- The command is the agent's, and has been handed to it.
    abbrev InHand : Command → GatewayDb → Type 0
    InHand c d =
        (find_first (owned cmd agent) d.commands ≡ some c) × (is_dispatched c.status ≡ true) × I d

    refuse_it-Post :
        (c : Command) (d : GatewayDb) (fs : List Bool)
        → InHand c d
        → PostI (refuse_it env agent cmd reason (at d fs))
    refuse_it-Post c d fs (found, sent, i) =
        exec-Post (λ a d'. I d') I _ _ d fs i (λ fs'. k.refused cmd reason c d found sent i)

    switch_to-Post :
        (o : Option SignatureMode) (c : Command) (d : GatewayDb) (fs : List Bool)
        → InHand c d
        → leb c.attempts 1 ≡ true
        → PostI (switch_to env agent cmd reason o (at d fs))
    switch_to-Post none c d fs h few = refuse_it-Post c d fs h
    switch_to-Post (some m) c d fs (found, sent, i) few =
        exec-Post (λ a d'. I d') I _ _ d fs i
          (λ fs1.
            let i' : I (switched agent m d) =
              k.agents (λ a. str_eq a.agent agent) (λ a. record a { signature_modes = mode_text m })
                d i in
            exec-Post (λ a d'. I d') I _ _ (switched agent m d) fs1 i'
              (λ fs2. k.requeued cmd (requeue_line env m) c (switched agent m d) found sent few i'))

    with_modes-Post :
        (o : Option AgentRow) (c : Command) (d : GatewayDb) (fs : List Bool)
        → InHand c d
        → leb c.attempts 1 ≡ true
        → PostI (with_modes env agent cmd reason o (at d fs))
    with_modes-Post none c d fs h few = refuse_it-Post c d fs h
    with_modes-Post (some a) c d fs h few = switch_to-Post _ c d fs h few

    reject-Post :
        (c : Command) (d : GatewayDb) (fs : List Bool)
        → InHand c d
        → PostI (reject env agent cmd reason c (at d fs))
    reject-Post c d fs h =
        if-Post (λ a d'. I d') I (leb c.attempts 1 && contains reason (text "签名不匹配")) _ _ _
          (λ e.
            default-Post (λ a d'. I d') I none _ _ d fs
              (λ fs'. with_modes-Post _ c d fs' h (ground arith))
              (λ fs'. with_modes-Post none c d fs' h (ground arith)))
          (λ e. refuse_it-Post c d fs h)

    answer-Post :
        (c : Command) (d : GatewayDb) (fs : List Bool)
        → InHand c d
        → PostI (answer env agent cmd status reason c (at d fs))
    answer-Post c d fs h =
        if-Post (λ a d'. I d') I (text_eq status (text "rejected")) _ _ _
          (λ e. reject-Post c d fs h)
          (λ e. exec-Post (λ a d'. I d') I _ _ d fs h.2 (λ fs'. k.accepted cmd c d h.0 h.1 h.2))

    if_dispatched-Post :
        (o : Option Command) (d : GatewayDb) (fs : List Bool)
        → find_first (owned cmd agent) d.commands ≡ o
        → I d
        → PostI (if_dispatched env agent cmd status reason o (at d fs))
    if_dispatched-Post none d fs e i = i
    if_dispatched-Post (some c) d fs e i =
        if-Post (λ a d'. I d') I (is_dispatched c.status) _ _ _
          (λ sent. answer-Post c d fs (e, sent, i)) (λ _. i)

    pub ack-Keeps : Keeps I (ack env agent cmd status reason)
    unfolding ack
    ack-Keeps =
        transaction-Keeps I _ (seen-Keeps I _ _ (λ d fs i. if_dispatched-Post _ d fs refl i))
