-- ===== src/Agentgw/Sync/Settles.antt =====
-- Which hosts a synchronisation changes, and to what (internal/logic/agentgw/reap.go).
use iflygo.Prelude.{
  ℕ, ◌≡◌, refl, ap, ◌∙◌, sym, subst, ◌⊎◌, Bool, true, false, not, Option, none, some, List, [], ◌∷◌,
  map, ◌&&◌, ltb, any_of, keep_if, arith, Bool-cases, inl, inr,
}
use iflygo.Task.Rows.{CommandStatus, is_active}
use iflygo.Task.Reconcile.{Pairwise}
use iflygo.Db.{at}
use iflygo.Db.Atomic.{Post, statement-Post}
use iflygo.Agentgw.Rows.{Command, TaskHost, GatewayDb, Env, host_is_waiting, host_status_of}
use iflygo.Agentgw.Report.{value_or, before}
use iflygo.Agentgw.Sync.{
  active_for, ended_for, is_for, is_over, later_or, last_ended, follow, follow_last, synced,
  sync_task_hosts_from_commands,
}

abbrev pub is_canceled : CommandStatus → Bool
is_canceled CommandStatus.canceled = true
is_canceled _ = false

-- The command is for the host, is not under way, and was not canceled.
abbrev pub has_result_for : ℕ → Command → Bool
has_result_for host c =
    is_for host c.task_host && (not (is_active c.status) && not (is_canceled c.status))

abbrev pub last_of : List Command → Option Command
last_of [] = none
last_of (c ∷ []) = some c
last_of (c ∷ d ∷ cs) = last_of (d ∷ cs)

-- The last command with a result for a host.
abbrev pub last_result : ℕ → List Command → Option Command
last_result host cs = last_of (keep_if (has_result_for host) cs)

-- What ended at a time, or else was made at another, did so before the run began, if one has begun.
abbrev pub ended_before : (finished : Option ℕ) → (created : ℕ) → (began : Option ℕ) → Bool
ended_before finished created none = false
ended_before none created (some t) = ltb created t
ended_before (some e) created (some t) = ltb e t

abbrev pub in_this_run : Option Command → TaskHost → Bool
in_this_run none h = false
in_this_run (some c) h = not (ended_before c.finished_at c.created_at h.started_at)

-- A host that waits though nothing is under way for it and its last command has a result of its present
-- run.
abbrev pub is_stuck : List Command → TaskHost → Bool
is_stuck commands h =
    host_is_waiting h.status
    && not (any_of (active_for h.id) commands)
    && in_this_run (last_result h.id commands) h

-- A host that is not stuck stays as it is; one that is gets the result of its last command.
abbrev pub Follows : List Command → TaskHost → TaskHost → Type 0
Follows cs h h' =
    ((is_stuck cs h ≡ false) × (h' ≡ h))
    ⊎ ((c : Command) × (is_stuck cs h ≡ true)
        × (last_result h.id cs ≡ some c)
        × (h'.id ≡ h.id)
        × (h'.status ≡ host_status_of c.status)
        × (host_is_waiting h'.status ≡ false))

over_result : (st : CommandStatus) → is_over st ≡ (not (is_active st) && not (is_canceled st))
over_result CommandStatus.pending = refl
over_result CommandStatus.dispatched = refl
over_result CommandStatus.accepted = refl
over_result CommandStatus.running = refl
over_result CommandStatus.success = refl
over_result CommandStatus.failed = refl
over_result CommandStatus.rolled_back = refl
over_result CommandStatus.timeout = refl
over_result CommandStatus.expired = refl
over_result CommandStatus.canceled = refl

last_some : (c : Command) (cs : List Command) → (x : Command) × (last_of (c ∷ cs) ≡ some x)
last_some c [] = (c, refl)
last_some c (d ∷ cs) = last_some d cs

last_cons : (c : Command) (cs : List Command) → later_or (last_of cs) true c ≡ last_of (c ∷ cs)
last_cons c [] = refl
last_cons c (d ∷ cs) = let (x, e) = last_some d cs in rw e refl

not_kept : (o : Option Command) (c : Command) → later_or o false c ≡ o
not_kept none c = refl
not_kept (some d) c = refl

last_ended-result : (host : ℕ) (cs : List Command) → last_ended host cs ≡ last_result host cs
unfolding last_ended
last_ended-result host [] = refl
last_ended-result host (c ∷ cs) =
    let ih = last_ended-result host cs in
    let over = over_result c.status in
    elim (Bool-cases (has_result_for host c)) [
      | inl kept ↦ rw (over, ih, kept) (last_cons c (keep_if (has_result_for host) cs))
      | inr other ↦ rw (over, ih, other) (not_kept _ c)
    ]

before-ended :
    (finished : Option ℕ) (created : ℕ) (began : Option ℕ)
    → before (value_or finished created) began ≡ ended_before finished created began
before-ended none created none = refl
before-ended (some e) created none = refl
before-ended none created (some t) = refl
before-ended (some e) created (some t) = refl

-- The last command that has ended is one that has ended.
later_or-over :
    (o : Option Command) (b : Bool) (x c : Command)
    → later_or o b x ≡ some c
    → (o ≡ some c) ⊎ ((b ≡ true) × (x ≡ c))
later_or-over (some k) b x c e = inl e
later_or-over none true x c e = inr (refl, some_eq e)
  where
    some_eq : some x ≡ some c → x ≡ c
    some_eq q = cc
later_or-over none false x c e = absurd (cc)

last_ended-over :
    (host : ℕ) (cs : List Command) (c : Command)
    → last_ended host cs ≡ some c
    → is_over c.status ≡ true
unfolding last_ended
last_ended-over host [] c e = absurd (cc)
last_ended-over host (x ∷ cs) c e =
    elim (later_or-over (last_ended host cs) (ended_for host x) x c e) [
      | inl later ↦ last_ended-over host cs c later
      | inr this ↦ ground (arith, this.0, ap (λ k. k.status) this.1)
    ]

over_settled :
    (st : CommandStatus) → is_over st ≡ true → host_is_waiting (host_status_of st) ≡ false
over_settled st h = ground arith

abbrev idle_waits : List Command → TaskHost → Bool
idle_waits cs h = host_is_waiting h.status && not (any_of (active_for h.id) cs)

and_assoc : (a b c : Bool) → (a && b && c) ≡ ((a && b) && c)
and_assoc true b c = refl
and_assoc false b c = refl

stuck_by :
    (cs : List Command) (h : TaskHost) (w : Bool) (o : Option Command)
    → idle_waits cs h ≡ w
    → last_result h.id cs ≡ o
    → is_stuck cs h ≡ (w && in_this_run o h)
stuck_by cs h w o e q =
    let parts =
      and_assoc (host_is_waiting h.status) (not (any_of (active_for h.id) cs))
        (in_this_run (last_result h.id cs) h) in
    parts ∙ cc

follow-Follows :
    (now : ℕ) (cs : List Command) (h : TaskHost) (c : Command)
    → last_result h.id cs ≡ some c
    → is_stuck cs h ≡ true
    → host_is_waiting (host_status_of c.status) ≡ false
    → Follows cs h (follow now c h)
unfolding follow
follow-Follows now cs h c last stuck over = inr (c, stuck, last, refl, refl, over)

follow_last-Follows :
    (now : ℕ) (cs : List Command) (h : TaskHost) (o : Option Command)
    → idle_waits cs h ≡ true
    → last_ended h.id cs ≡ o
    → Follows cs h (follow_last now o h)
follow_last-Follows now cs h none w e =
    inl (stuck_by cs h true none w (sym (last_ended-result h.id cs) ∙ e), refl)
follow_last-Follows now cs h (some c) w e =
    let last = sym (last_ended-result h.id cs) ∙ e in
    let stuck = stuck_by cs h true (some c) w last in
    let same = before-ended c.finished_at c.created_at h.started_at in
    elim (Bool-cases (before (value_or c.finished_at c.created_at) h.started_at)) [
      | inl old ↦ simp old (inl (stuck ∙ ap not (sym same ∙ old), refl))
      | inr fresh ↦ simp fresh (
          follow-Follows now cs h c last (stuck ∙ ap not (sym same ∙ fresh))
            (over_settled c.status (last_ended-over h.id cs c e)))
    ]

synced_waits :
    (now : ℕ) (cs : List Command) (h : TaskHost)
    → idle_waits cs h ≡ true
    → follow_last now (last_ended h.id cs) h ≡ synced now cs h
unfolding synced
synced_waits now cs h waits = rw waits refl

synced_busy :
    (now : ℕ) (cs : List Command) (h : TaskHost) → idle_waits cs h ≡ false → synced now cs h ≡ h
unfolding synced
synced_busy now cs h busy = rw busy refl

pub synced-Follows : (now : ℕ) (cs : List Command) (h : TaskHost) → Follows cs h (synced now cs h)
synced-Follows now cs h = elim (Bool-cases (idle_waits cs h)) [
  | inl waits ↦
      subst (Follows cs h) (synced_waits now cs h waits)
        (follow_last-Follows now cs h (last_ended h.id cs) waits refl)
  | inr busy ↦ inl (stuck_by cs h false (last_result h.id cs) busy refl, synced_busy now cs h busy)
]

Pairwise-synced :
    (now : ℕ) (cs : List Command) (hs : List TaskHost)
    → Pairwise (Follows cs) hs (map (synced now cs) hs)
Pairwise-synced now cs [] = tt
Pairwise-synced now cs (h ∷ hs) = (synced-Follows now cs h, Pairwise-synced now cs hs)

-- A synchronisation settles just the hosts that wait though no command is under way for them and though
-- their last command that has a result (neither under way nor canceled) did not end before their
-- present run began: each takes the status of that command, and waits no more. All other hosts, and all
-- commands, stay as they are; a synchronisation that fails changes nothing.
pub sync_settles :
    (env : Env) (d : GatewayDb) (faults : List Bool)
    → Post
        (λ n d'.
          Pairwise (Follows d.commands) d.task_hosts d'.task_hosts × (d'.commands ≡ d.commands))
        (λ d'. d' ≡ d)
        (sync_task_hosts_from_commands env (at d faults))
unfolding sync_task_hosts_from_commands
sync_settles env d faults =
    statement-Post _ _ _ d faults (Pairwise-synced env.now d.commands d.task_hosts, refl) refl
