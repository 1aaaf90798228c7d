-- ===== src/Agentgw/System/Own.antt =====
-- An agent reaches its own commands only (internal/logic/agentgw).
use iflygo.Prelude.{
  ℕ, zero, suc, ◌<◌, ◌≡◌, refl, sym, ◌∙◌, subst, ap, Bool, true, false, some, List, [], ◌∷◌, String,
  ◌==◌, str_eq, find_first, find_first-hit, find_first-miss, All, arith, get_elem?, inl, inr,
  Bool-cases,
}
use iflygo.Text.{Text}
use iflygo.Db.{at}
use iflygo.Agentgw.Rows.{Command, GatewayDb, Env, owned, set_where}
use iflygo.Agentgw.Dequeue.{is_due, dispatch}
use iflygo.Agentgw.Ack.{by_id, accept, requeue, refuse}
use iflygo.Agentgw.Stage.{open_owned, progress, finalize}
use iflygo.Agentgw.Report.{open_by_id, command_write}
use iflygo.Agentgw.Keeps.{KeepsWrites}
use iflygo.Agentgw.Lifecycle.Lists.{Ascending, Evolve-refl, find_first-true, found-All}
use iflygo.Agentgw.Lifecycle.Writes.{Lived}
use iflygo.Agentgw.Lifecycle.Refines.{lives_by_writes, owned_id}
use iflygo.Agentgw.System.{Request, serve, serve_keeps}

-- An update that does not mean the element at a place leaves it alone.
pub get_elem?-set_where :
    {A : Type 0} (p : A → Bool) (f : A → A) (xs : List A) (i : ℕ) (x : A)
    → p x ≡ false
    → get_elem? xs i ≡ some x
    → get_elem? (set_where p f xs) i ≡ some x
get_elem?-set_where p f [] i x h e = absurd (cc)
get_elem?-set_where p f (y ∷ xs) zero x h e =
    let same : y ≡ x = cc in let miss : p y ≡ false = ap p same ∙ h in rw miss e
get_elem?-set_where p f (y ∷ xs) (suc i) x h e = get_elem?-set_where p f xs i x h e

get_elem?-All :
    (P : Command → Type 0) (xs : List Command) (i : ℕ) (x : Command)
    → get_elem? xs i ≡ some x
    → All P xs
    → P x
get_elem?-All P [] i x e h = absurd (cc)
get_elem?-All P (y ∷ xs) zero x e h = let same : y ≡ x = cc in subst P same h.0
get_elem?-All P (y ∷ xs) (suc i) x e h = get_elem?-All P xs i x e h.1

-- Of two commands of the table with the same id, one that a search finds is the other.
found_only :
    (p : Command → Bool) (x : Command) (cs : List Command) (i : ℕ) (c : Command)
    → find_first p cs ≡ some x
    → Ascending cs
    → get_elem? cs i ≡ some c
    → c.id ≡ x.id
    → c ≡ x
found_only p x [] i c found asc e same = absurd (cc)
found_only p x (y ∷ cs) zero c found asc e same = elim (Bool-cases (p y)) [
  | inl hit ↦ let f = find_first-hit p y cs hit in cc
  | inr miss ↦
      let later : y.id < x.id =
        found-All (λ z. y.id < z.id) p x cs (sym (find_first-miss p y cs miss) ∙ found) asc.0 in
      let c_id : y.id ≡ c.id = ap Command.id (head_eq e) in absurd (omega arith)
]
  where
    head_eq : some y ≡ some c → y ≡ c
    head_eq q = cc
found_only p x (y ∷ cs) (suc i) c found asc e same = elim (Bool-cases (p y)) [
  | inl hit ↦
      let f = find_first-hit p y cs hit in
      let y_x : y ≡ x = cc in
      let later : y.id < c.id = get_elem?-All (λ z. y.id < z.id) cs i c e asc.0 in
      let y_id : y.id ≡ x.id = ap Command.id y_x in absurd (omega arith)
  | inr miss ↦ found_only p x cs i c (sym (find_first-miss p y cs miss) ∙ found) asc.1 e same
]

not_owned :
    (cmd : ℕ) (agent : String) (c : Command)
    → str_eq c.agent agent ≡ false
    → owned cmd agent c ≡ false
not_owned cmd agent c h = ground arith

-- Another agent's command does not have the id of one that this agent's search finds.
found_other :
    (p : Command → Bool) (agent : String) (x : Command) (cs : List Command) (i : ℕ) (c : Command)
    → find_first p cs ≡ some x
    → (p x ≡ true → str_eq x.agent agent ≡ true)
    → Ascending cs
    → get_elem? cs i ≡ some c
    → str_eq c.agent agent ≡ false
    → (c.id == x.id) ≡ false
found_other p agent x cs i c found own asc e other = elim (Bool-cases (c.id == x.id)) [
  | inr differs ↦ differs
  | inl same ↦
      let c_x : c ≡ x = found_only p x cs i c found asc e (ground arith) in
      let mine = own (find_first-true p x cs found) in
      let theirs : str_eq x.agent agent ≡ false =
        subst (λ y. str_eq y.agent agent ≡ false) c_x other in
      cc
]

module _ (i : ℕ) (c : Command) where
  -- The command stands at its place, and the ids rise.
  abbrev Stands : GatewayDb → Type 0
  Stands d = (get_elem? d.commands i ≡ some c) × Ascending d.commands

  module _ (env : Env) (agent : String) (other : str_eq c.agent agent ≡ false) where
    -- A command that the agent's request has found by its id.
    named_Stands :
        (cmd : ℕ) (x : Command) (d : GatewayDb)
        → find_first (owned cmd agent) d.commands ≡ some x
        → Stands d
        → (c.id == cmd) ≡ false
    named_Stands cmd x d found (e, asc) =
        let id : x.id ≡ cmd =
          owned_id cmd agent x (find_first-true (owned cmd agent) x d.commands found) in
        subst (λ n. (c.id == n) ≡ false) id
          (found_other (owned cmd agent) agent x d.commands i c found (λ h. ground arith) asc e
            other)

    -- The other half of each case is that the ids rise, which holds of all lives.
    lives : (d : GatewayDb) → KeepsWrites (Lived d.commands) env agent
    lives d = lives_by_writes d.commands env agent

    Stands-by_writes : KeepsWrites Stands env agent
    Stands-by_writes = record {
      hosts = λ p f d h. h;
      agents = λ p f d h. h;
      task_hosts = λ th f d h. h;
      dispatched = λ x d found h. (
        get_elem?-set_where (by_id x.id) (dispatch env.now) d.commands i c
            (found_other (is_due env.now agent) agent x d.commands i c found (λ e. ground arith) h.1
              h.0 other)
            h.0,
        ((lives d).dispatched x d found (Evolve-refl d.commands, h.1)).1,
      );
      accepted = λ cmd x d found sent h. (
        get_elem?-set_where (by_id cmd) accept d.commands i c (named_Stands cmd x d found h) h.0,
        ((lives d).accepted cmd x d found sent (Evolve-refl d.commands, h.1)).1,
      );
      refused = λ cmd reason x d found sent h. (
        get_elem?-set_where (by_id cmd) (refuse env reason) d.commands i c
            (named_Stands cmd x d found h) h.0,
        ((lives d).refused cmd reason x d found sent (Evolve-refl d.commands, h.1)).1,
      );
      requeued = λ cmd line x d found sent few h. (
        get_elem?-set_where (by_id cmd) (requeue line) d.commands i c (named_Stands cmd x d found h)
            h.0,
        ((lives d).requeued cmd line x d found sent few (Evolve-refl d.commands, h.1)).1,
      );
      progressed = λ cmd stage line d h. (
        get_elem?-set_where (open_owned cmd agent) (progress env stage line) d.commands i c
            (simp (not_owned cmd agent c other) refl) h.0,
        ((lives d).progressed cmd stage line d (Evolve-refl d.commands, h.1)).1,
      );
      finalized = λ cmd st stage version d final h. (
        get_elem?-set_where (open_owned cmd agent) (finalize env st stage version) d.commands i c
            (simp (not_owned cmd agent c other) refl) h.0,
        ((lives d).finalized cmd st stage version d final (Evolve-refl d.commands, h.1)).1,
      );
      reported = λ cmd st r x d found o h. (
        get_elem?-set_where (open_by_id cmd) (command_write env st r) d.commands i c
            (simp (named_Stands cmd x d found h) refl) h.0,
        ((lives d).reported cmd st r x d found o (Evolve-refl d.commands, h.1)).1,
      );
    }

-- No request of an agent changes a command of another agent, whatever id it names and whatever
-- statements fail. (The ids of the commands rise.)
pub serve_own :
    (env : Env) (quoted : Text → Text) (agent : String) (q : Request) (d : GatewayDb)
    (faults : List Bool) (i : ℕ) (c : Command)
    → Ascending d.commands
    → get_elem? d.commands i ≡ some c
    → str_eq c.agent agent ≡ false
    → get_elem? (serve env quoted agent q (at d faults)).commands i ≡ some c
serve_own env quoted agent q d faults i c asc e other =
    (serve_keeps (Stands i c) env quoted agent q d faults (Stands-by_writes i c env agent other)
      (e, asc)).0
