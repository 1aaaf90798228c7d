-- ===== src/Agentgw/Reap/Calm.antt =====
-- A reaping succeeds where no statement fails (internal/logic/agentgw/reap.go).
use iflygo.Prelude.{Bool, true, false, Option, none, some, List, [], ◌∷◌, String}
use iflygo.Db.Sure.{
  Sure, pure-Sure, exec-Sure, exec_if-Sure, query-Sure, if-Sure, bind-Sure, transaction-Sure,
}
use iflygo.Agentgw.Rows.{Command, Env}
use iflygo.Agentgw.Reap.{
  is_expired, Reaped, give_up, if_still, if_locked, reap_each, release_each, finish_reap,
  reap_expired,
}

module _ (env : Env) where
  give_up-Sure : (c : Command) (acc : Reaped) → Sure (give_up env c acc)
  give_up-Sure c (agents, n) =
      bind-Sure _ _ (exec-Sure _) (λ _. bind-Sure _ _ (exec_if-Sure _ _) (λ _. pure-Sure _))

  if_still-Sure : (c : Command) (acc : Reaped) (o : Option Command) → Sure (if_still env c acc o)
  if_still-Sure c acc none = pure-Sure acc
  if_still-Sure c acc (some c') =
      if-Sure (is_expired env.now c') _ _ (give_up-Sure c acc) (pure-Sure acc)

  if_locked-Sure : (c : Command) (acc : Reaped) (b : Bool) → Sure (if_locked env c acc b)
  if_locked-Sure c acc false = pure-Sure acc
  if_locked-Sure c acc true = bind-Sure _ _ (query-Sure _) (if_still-Sure c acc)

  reap_each-Sure : (cs : List Command) (acc : Reaped) → Sure (reap_each env cs acc)
  unfolding reap_each
  reap_each-Sure [] acc = pure-Sure acc
  reap_each-Sure (c ∷ cs) acc =
      bind-Sure _ _ (bind-Sure _ _ (query-Sure _) (if_locked-Sure c acc)) (reap_each-Sure cs)

  release_each-Sure : (agents : List String) → Sure (release_each agents)
  unfolding release_each
  release_each-Sure [] = pure-Sure tt
  release_each-Sure (a ∷ agents) = bind-Sure _ _ (exec-Sure _) (λ _. release_each-Sure agents)

  finish_reap-Sure : (acc : Reaped) → Sure (finish_reap acc)
  finish_reap-Sure (agents, n) = bind-Sure _ _ (release_each-Sure agents) (λ _. pure-Sure _)

  pub reap_expired-Sure : Sure (reap_expired env)
  unfolding reap_expired
  reap_expired-Sure = transaction-Sure _ (
      bind-Sure _ _ (query-Sure _)
        (λ cs. bind-Sure _ _ (reap_each-Sure cs ([], 0)) finish_reap-Sure))
