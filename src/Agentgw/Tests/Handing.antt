-- ===== src/Agentgw/Tests/Handing.antt =====
-- Commands are handed out, answered and given up.
use iflygo.Prelude.{ℕ, ◌≡◌, refl, true, false, some, [], ◌∷◌, All, get_elem?, arith}
use iflygo.Text.{Text, text}
use iflygo.Task.Rows.{HostStatus}
use iflygo.Db.{ok, at}
use iflygo.Db.Atomic.{Post}
use iflygo.Task.Reconcile.{Pairwise}
use iflygo.Agentgw.Rows.{GatewayDb}
use iflygo.Agentgw.Dequeue.{dequeue}
use iflygo.Agentgw.Dequeue.Order.{Handed, dequeue_takes_first}
use iflygo.Agentgw.Reap.{is_expired, reap_expired}
use iflygo.Agentgw.Reap.Reaps.{reap_expired_clears}
use iflygo.Agentgw.Sync.{sync_task_hosts_from_commands, reconcile_tasks}
use iflygo.Agentgw.Sync.Settles.{sync_settles, Follows}
use iflygo.Agentgw.Lifecycle.Lists.{Evolve, Ascending}
use iflygo.Agentgw.System.{
  next_command, acknowledge, tell_stage, serve, rows_after, request_step, Reach, here, next,
}
use iflygo.Agentgw.System.Lives.{Reach-Evolve, ended_stays}
use iflygo.Agentgw.System.Active.{OneActive, no_second_command}
use iflygo.Agentgw.System.Own.{serve_own}
use iflygo.Agentgw.System.Hosts.{settled_stays}
use iflygo.Agentgw.Tests.{an_env, some_rows, in_hand_command, canceled_command, a_host}

-- A text in quotes; what `%q` makes of special characters is left out.
abbrev quoted : Text → Text
quoted s = s

abbrev after_next : GatewayDb
after_next = serve (an_env 10) quoted "a" next_command (at some_rows [])

abbrev path : Reach quoted some_rows after_next
path = next here (request_step (an_env 10) "a" next_command some_rows [])

Reach-Evolve_example : Evolve some_rows.commands after_next.commands × Ascending after_next.commands
Reach-Evolve_example = Reach-Evolve quoted some_rows after_next (omega arith) path

ended_stays_example : get_elem? after_next.commands 2 ≡ some canceled_command
ended_stays_example =
    ended_stays quoted some_rows after_next 2 canceled_command (omega arith) refl refl path

one_each : OneActive some_rows
one_each host = ground arith

no_second_command_example : OneActive after_next
no_second_command_example =
    no_second_command quoted some_rows after_next (omega arith) one_each path

-- Agent b rejects the command of a.
serve_own_example :
    get_elem?
      (serve (an_env 10) quoted "b" (acknowledge 1 (text "rejected") []) (at some_rows [])).commands
      0
    ≡ some in_hand_command
serve_own_example =
    serve_own (an_env 10) quoted "b" (acknowledge 1 (text "rejected") []) some_rows [] 0
      in_hand_command (omega arith) refl refl

settled_stays_example :
    (get_elem?
        (serve
          (an_env 10)
          quoted
          "b"
          (tell_stage 3 (text "failed") [])
          (at some_rows [])).task_hosts
        2
      ≡ some (a_host 3 HostStatus.canceled))
    × (get_elem? (rows_after (reconcile_tasks (an_env 10) (at some_rows []))).task_hosts 2
        ≡ some (a_host 3 HostStatus.canceled))
settled_stays_example =
    settled_stays (an_env 10) quoted "b" (tell_stage 3 (text "failed") []) some_rows [] 2
      (a_host 3 HostStatus.canceled) refl refl

-- Of two waiting commands the first is taken.
dequeue_takes_first_example :
    Post
      (Handed 10 "a" some_rows)
      (λ d'. d' ≡ some_rows)
      (dequeue (an_env 10) "a" (at some_rows (false ∷ [])))
dequeue_takes_first_example =
    dequeue_takes_first (an_env 10) "a" some_rows (false ∷ []) (omega arith)

reap_expired_clears_example :
    Post
      (λ n d'. All (λ c. is_expired 10 c ≡ false) d'.commands)
      (λ d'. d' ≡ some_rows)
      (reap_expired (an_env 10) (at some_rows (false ∷ false ∷ true ∷ [])))
    × ((n : ℕ) × (d' : GatewayDb) × (reap_expired (an_env 10) (at some_rows []) ≡ (ok n, at d' [])))
reap_expired_clears_example =
    reap_expired_clears (an_env 10) some_rows (false ∷ false ∷ true ∷ []) (omega arith)
      (omega arith) (refl, tt)

sync_settles_example :
    Post
      (λ n d'.
        Pairwise (Follows some_rows.commands) some_rows.task_hosts d'.task_hosts
        × (d'.commands ≡ some_rows.commands))
      (λ d'. d' ≡ some_rows)
      (sync_task_hosts_from_commands (an_env 10) (at some_rows []))
sync_settles_example = sync_settles (an_env 10) some_rows []
