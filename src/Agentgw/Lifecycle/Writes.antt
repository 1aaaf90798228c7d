-- ===== src/Agentgw/Lifecycle/Writes.antt =====
-- Every write of the gateway is a turn in the lives of the commands that it changes
-- (internal/logic/agentgw).
use iflygo.Prelude.{
  ℕ, ◌≡◌, refl, sym, subst, Bool, true, false, not, Option, none, some, List, [], ◌∷◌,
  if◌then◌else◌, find_first, All, arith, Bool-cases, inl, inr, leb, leb→le,
}
use iflygo.Text.{Text}
use iflygo.Task.Rows.{CommandStatus, is_active}
use iflygo.Agentgw.Rows.{Command, GatewayDb, Env, is_final, in_hand, extended, update_commands}
use iflygo.Agentgw.Dequeue.{is_pending, dispatch}
use iflygo.Agentgw.Ack.{by_id, is_dispatched, accept, requeue, refuse}
use iflygo.Agentgw.Stage.{progress, finalize, has_ended}
use iflygo.Agentgw.Report.{Cleaned, command_write, report_final, report_running}
use iflygo.Agentgw.Keeps.{IsOutcome}
use iflygo.Agentgw.Lifecycle.{
  Life, still, onward, identity, handed, accepted, put_back, runs, ends, LeaseKept,
}
use iflygo.Agentgw.Lifecycle.Lists.{Evolve, Evolve-map, Ascending, map-Ascending, found-Life}

LeaseKept-refl : (t : Option ℕ) → LeaseKept t t
LeaseKept-refl none = tt
LeaseKept-refl (some t) = omega arith

LeaseKept-extended : (u : ℕ) (t : Option ℕ) → LeaseKept t (extended u t)
LeaseKept-extended u none = tt
LeaseKept-extended u (some t) = ground arith

pub open_active : (st : CommandStatus) → not (has_ended st) ≡ true → is_active st ≡ true
open_active st h = ground arith

pub in_hand_active : (st : CommandStatus) → in_hand st ≡ true → is_active st ≡ true
in_hand_active st h = ground arith

dispatched_eq : (st : CommandStatus) → is_dispatched st ≡ true → st ≡ CommandStatus.dispatched
dispatched_eq st h = ground arith

pub accept-Life : (c : Command) → is_dispatched c.status ≡ true → Life c (accept c)
unfolding accept
accept-Life c h =
    onward still refl
      (accepted (dispatched_eq c.status h) refl refl (LeaseKept-refl c.lease_expire_at))

pub refuse-Life :
    (env : Env) (reason : Text) (c : Command)
    → is_dispatched c.status ≡ true
    → Life c (refuse env reason c)
unfolding refuse
refuse-Life env reason c h =
    onward still refl (ends (ground arith) refl refl (LeaseKept-refl c.lease_expire_at))

pub requeue-Life :
    (line : Text) (c : Command)
    → is_dispatched c.status ≡ true
    → leb c.attempts 1 ≡ true
    → Life c (requeue line c)
unfolding requeue
requeue-Life line c h few =
    onward still refl (put_back (dispatched_eq c.status h) (leb→le c.attempts 1 few) refl refl)

pub dispatch-Life : (now : ℕ) (c : Command) → is_pending c.status ≡ true → Life c (dispatch now c)
unfolding dispatch
dispatch-Life now c h = onward still refl (handed (ground arith) refl refl)

pub progress-Life :
    (env : Env) (stage line : Text) (c : Command)
    → is_active c.status ≡ true
    → Life c (progress env stage line c)
unfolding progress
progress-Life env stage line c h =
    onward still refl (runs h refl refl (LeaseKept-extended _ c.lease_expire_at))

pub finalize-Life :
    (env : Env) (st : CommandStatus) (stage version : Text) (c : Command)
    → is_final st ≡ true
    → is_active c.status ≡ true
    → Life c (finalize env st stage version c)
unfolding finalize
finalize-Life env st stage version c final h =
    onward still refl (ends h final refl (LeaseKept-refl c.lease_expire_at))

pub report-Life :
    (env : Env) (st : Option CommandStatus) (r : Cleaned) (c : Command)
    → IsOutcome st
    → is_active c.status ≡ true
    → Life c (command_write env st r c)
unfolding report_final report_running
report-Life env none r c o h =
    onward still refl (runs h refl refl (LeaseKept-extended _ c.lease_expire_at))
report-Life env (some st) r c o h =
    onward still refl (ends h o refl (LeaseKept-refl c.lease_expire_at))

-- A command that is closed by the server, in the same way whatever the reason.
pub closed-Life :
    (c d : Command)
    → in_hand c.status ≡ true
    → identity d ≡ identity c
    → is_final d.status ≡ true
    → d.attempts ≡ c.attempts
    → d.lease_expire_at ≡ c.lease_expire_at
    → Life c d
closed-Life c d h same final attempts lease = onward still same (
    ends (in_hand_active c.status h) final attempts
      (subst (LeaseKept c.lease_expire_at) (sym lease) (LeaseKept-refl c.lease_expire_at)))

-- An update of the commands that pass a test.
where_All :
    (p : Command → Bool) (f : Command → Command) (cs : List Command)
    → ((c : Command) → p c ≡ true → Life c (f c))
    → All (λ c. Life c (if p c then f c else c)) cs
where_All p f [] h = tt
where_All p f (c ∷ cs) h = (one (p c) refl, where_All p f cs h)
  where
    one : (b : Bool) → p c ≡ b → Life c (if b then f c else c)
    one true e = h c e
    one false e = still

-- What holds of the commands between two states of the rows.
abbrev pub Lived : List Command → GatewayDb → Type 0
Lived cs d = Evolve cs d.commands × Ascending d.commands

if_id :
    (p : Command → Bool) (f : Command → Command)
    → ((c : Command) → (f c).id ≡ c.id)
    → (c : Command) → (if p c then f c else c).id ≡ c.id
if_id p f same c = elim (Bool-cases (p c)) [ inl e ↦ rw e (same c) | inr e ↦ rw e refl ]

pub where_Lived :
    (cs : List Command) (p : Command → Bool) (f : Command → Command) (d : GatewayDb)
    → ((c : Command) → (f c).id ≡ c.id)
    → ((c : Command) → p c ≡ true → Life c (f c))
    → Lived cs d
    → Lived cs (update_commands p f d)
where_Lived cs p f d same h (e, asc) =
    (Evolve-map _ e (where_All p f d.commands h), map-Ascending _ d.commands (if_id p f same) asc)

pub found_Lived :
    (cs : List Command) (p : Command → Bool) (f : Command → Command) (c : Command) (d : GatewayDb)
    → find_first p d.commands ≡ some c
    → ((x : Command) → (f x).id ≡ x.id)
    → Life c (f c)
    → Lived cs d
    → Lived cs (update_commands (by_id c.id) f d)
found_Lived cs p f c d found same life (e, asc) = (
  Evolve-map _ e (found-Life f c life p d.commands found asc),
  map-Ascending _ d.commands (if_id (by_id c.id) f same) asc,
)
