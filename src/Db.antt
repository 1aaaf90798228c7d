-- ===== src/Db.antt =====
-- How internal/logic/task and internal/logic/agentgw talk to the database, whose rows are of any
-- type `S`: single statements, and transactions. Any statement may fail (a lost connection, a timeout), and then it has done nothing. Whether the next ones fail
-- is a list in the state, so a theorem about every list is one about every pattern of failures.
pub mod Atomic
pub mod Keeps
pub mod Sure
use iflygo.Prelude.{ℕ, Bool, true, false, List, [], ◌∷◌, if◌then◌else◌}

pub data Error : Type 0 where
  database not_found bad_status changed not_owner no_deploy command_only_admin too_many : Error
  exec_forbidden no_component bad_command no_command no_rows no_id no_credential no_agent : Error
  bad_credential : Error

pub data Result (A : Type 0) : Type 0 where
  ok : A → Result A
  err : Error → Result A

pub record World (S : Type 0) : Type 0 where
  pub db : S
  -- `true` where a statement fails; past the end of the list none does.
  pub faults : List Bool

abbrev pub at : {S : Type 0} → S → List Bool → World S
at d faults = record { db = d; faults = faults }

abbrev pub Db : Type 0 → Type 0 → Type 0
Db S A = World S → Result A × World S

abbrev pub next_fault : List Bool → Bool × List Bool
next_fault [] = (false, [])
next_fault (b ∷ bs) = (b, bs)

module _ {S A : Type 0} where
  abbrev pub pure : A → Db S A
  pure a w = (ok a, w)

  abbrev pub fail : Error → Db S A
  fail e w = (err e, w)

  -- One statement: it reads and writes the rows at once.
  unfoldable pub statement : (S → A × S) → Db S A
  statement f w =
      let (bad, rest) = next_fault w.faults in
      if bad
      then (err database, record w { faults = rest })
      else (let (a, d) = f w.db in (ok a, record { db = d; faults = rest }))

  abbrev pub query : (S → A) → Db S A
  query f = statement (λ d. (f d, d))

  -- An error that the code ignores, with the value that stands in its place.
  unfoldable pub or_default : A → Db S A → Db S A
  or_default a m w = let (r, w') = m w in (elim r [ ok x ↦ ok x | err e ↦ ok a ], w')

abbrev pub exec : {S : Type 0} → (S → S) → Db S (Unit {0})
exec f = statement (λ d. (tt, f d))

-- A statement that is made only if the test holds.
abbrev pub exec_if : {S : Type 0} → Bool → (S → S) → Db S (Unit {0})
exec_if true f = exec f
exec_if false f = pure tt

infixl 5 ◌>>=◌ ◌>>◌
abbrev pub bind_result : {S A B : Type 0} → Result A → (A → Db S B) → World S → Result B × World S
bind_result (ok a) f w = f a w
bind_result (err e) f w = (err e, w)

unfoldable pub ◌>>=◌ : {S A B : Type 0} → Db S A → (A → Db S B) → Db S B
◌>>=◌ m f w = let (r, w') = m w in bind_result r f w'

abbrev pub ◌>>◌ : {S B : Type 0} → Db S (Unit {0}) → Db S B → Db S B
m >> k = m >>= λ _. k

abbrev pub unless_error : {S : Type 0} → Bool → Error → Db S (Unit {0})
unless_error true e = pure tt
unless_error false e = fail e

-- How the body of a transaction ends without an error: by `Commit`, or by a return before it.
pub data Outcome (A : Type 0) : Type 0 where
  commit rollback : A → Outcome A

module _ {S A : Type 0} where
  -- `defer tx.Rollback()` gives back the rows of the beginning, unless `Commit` went through.
  abbrev pub settle : S → Result (Outcome A) → World S → Result A × World S
  settle d (err e) w = (err e, record w { db = d })
  settle d (ok (rollback a)) w = (ok a, record w { db = d })
  settle d (ok (commit a)) w =
      let (bad, rest) = next_fault w.faults in
      if bad
      then (err database, record { db = d; faults = rest })
      else (ok a, record w { faults = rest })

  unfoldable pub transaction : Db S (Outcome A) → Db S A
  transaction body w = let (r, w') = (exec (λ d. d) >> body) w in settle w.db r w'
