-- ===== src/Task/Owner.antt =====
-- Who may work on a task (internal/logic/task/task.go): `checkTaskOwner`, `ownerChecker`,
-- `checkTaskDeploy` and the policy they read.
pub mod Checks
pub mod Reads
use iflygo.Prelude.{
  ℕ, ◌≡◌, refl, sym, ◌∙◌, String, Bool, true, false, not, ◌&&◌, ◌||◌, Option, none, some, List, [],
  ◌∷◌, map, arith, str_eq, eq_iff, if◌then◌else◌, Bool-cases, inl, inr,
}
use iflygo.Prelude.Dict.{Dict, empty, insert}
use iflygo.Access.{User, Scope, has_role, is_super_admin, role_admin, allows}
use iflygo.Task.Rows.{TaskRow, TaskDb}
use iflygo.Task.Db.{
  Error, not_found, not_owner, no_deploy, command_only_admin, Db, pure, fail, query, or_default,
  ◌>>=◌, unless_error,
}

pub data OwnerMode : Type 0 where
  on off inherit : OwnerMode

-- What is injected into the service, `none` for `nil`: the global switch, the team's policy for a
-- user (`none` within is an error), whether two users share a team, the right to deploy; the table of
-- components, as a scope sees it; and whether the driver of the database takes more arguments than a
-- query has placeholders, or refuses the query.
pub record Service : Type 0 where
  pub owner_only : Option Bool
  pub owner_policy : Option (String → Option String)
  pub share_allowed : Option (String → String → Option Bool)
  pub authorize : Option (User → ℕ → String → Bool)
  pub component_name : Scope → ℕ → Option String
  pub takes_extra_args : Bool

-- `isPrivilegedActor`; no actor is a call from inside.
unfoldable pub is_privileged : Option User → Bool
unfolding has_role is_super_admin
is_privileged none = true
is_privileged (some u) = u.is_admin || (is_super_admin u || has_role u role_admin)

abbrev pub is_on : Option Bool → Bool
is_on none = false
is_on (some b) = b

abbrev global_mode : Service → OwnerMode
global_mode s = if is_on s.owner_only then on else inherit

abbrev mode_of_policy : OwnerMode → Option String → OwnerMode
mode_of_policy global none = global
mode_of_policy global (some policy) =
    if str_eq policy "on" then on else if str_eq policy "off" then off else global

-- `ownerModeFor`
unfoldable pub owner_mode_for : Service → String → OwnerMode
owner_mode_for s username = elim s.owner_policy [
  | none ↦ global_mode s
  | some f ↦ mode_of_policy (global_mode s) (f username)
]

abbrev is_true : Option Bool → Bool
is_true none = false
is_true (some b) = b

abbrev pub shares_by : Option (String → String → Option Bool) → String → String → Bool
shares_by none username created_by = false
shares_by (some f) username created_by = is_true (f username created_by)

-- The answer of `shareAllowed`; an error or a missing function is a no.
abbrev pub shares : Service → String → String → Bool
shares s = shares_by s.share_allowed

abbrev pub may_share : Service → OwnerMode → String → String → Bool
may_share s off username created_by = shares s username created_by
may_share s _ username created_by = false

-- The decision on a task's creator.
abbrev pub may_act : Service → OwnerMode → String → String → Bool
may_act s mode username created_by =
    if str_eq created_by "" || str_eq created_by username
    then true
    else may_share s mode username created_by

abbrev row_if_visible : Scope → Option TaskRow → Option TaskRow
row_if_visible sc none = none
row_if_visible sc (some t) = if allows sc t.tenant then some t else none

-- `SELECT … FROM upgrade_tasks WHERE id=$1 AND tenant…`
unfoldable pub visible_task : Scope → TaskDb → Option TaskRow
unfolding allows
visible_task sc d = row_if_visible sc d.task

abbrev pub check_creator : Service → OwnerMode → String → Option TaskRow → Db (Unit {0})
check_creator s mode username none = fail not_found
check_creator s mode username (some t) =
    unless_error (may_act s mode username t.created_by) not_owner

abbrev pub check_mode : Service → OwnerMode → Scope → String → Db (Unit {0})
check_mode s inherit sc username = pure tt
check_mode s mode sc username = do
  t ← or_default none (query (λ d. visible_task sc d))
  check_creator s mode username t

-- `checkTaskOwner`
unfoldable pub check_task_owner : Service → Scope → Option User → Db (Unit {0})
check_task_owner s sc none = pure tt
check_task_owner s sc (some u) =
    if is_privileged (some u)
    then pure tt
    else check_mode s (owner_mode_for s u.username) sc u.username

abbrev may_deploy : Service → User → ℕ → String → Bool
may_deploy s u id name = elim s.authorize [ none ↦ true | some f ↦ f u id name ]

abbrev check_authorized : Service → User → ℕ → Option String → Db (Unit {0})
check_authorized s u id none = fail not_found
check_authorized s u id (some name) = unless_error (may_deploy s u id name) no_deploy

abbrev check_component_id : Service → Scope → User → Option ℕ → Db (Unit {0})
check_component_id s sc u none = fail command_only_admin
check_component_id s sc u (some id) = check_authorized s u id (s.component_name sc id)

abbrev check_component : Service → Scope → User → Option TaskRow → Db (Unit {0})
check_component s sc u none = fail not_found
check_component s sc u (some t) = check_component_id s sc u t.component

-- `checkTaskDeploy`
unfoldable pub check_task_deploy : Service → Scope → Option User → Db (Unit {0})
check_task_deploy s sc none = pure tt
check_task_deploy s sc (some u) =
    if is_privileged (some u)
    then pure tt
    else (or_default none (query (λ d. visible_task sc d)) >>= λ t. check_component s sc u t)

abbrev limits : String → OwnerMode → Option (String × OwnerMode)
limits username inherit = none
limits username mode = some (username, mode)

-- The function that `ownerChecker` returns, `none` for `nil`, is `checker_step` on this mode.
unfoldable pub owner_checker : Service → Option User → Option (String × OwnerMode)
owner_checker s none = none
owner_checker s (some u) =
    if is_privileged (some u) then none else limits u.username (owner_mode_for s u.username)

abbrev cached :
    Option (String → String → Option Bool)
    → String
    → String
    → Option Bool
    → Dict Bool
    → Bool × Dict Bool
cached share username created_by (some b) cache = (b, cache)
cached none username created_by none cache = (false, cache)
cached (some f) username created_by none cache =
    let answer = is_true (f username created_by) in (answer, insert created_by answer cache)

abbrev looked_up : Service → OwnerMode → String → String → Dict Bool → Bool × Dict Bool
looked_up s off username created_by cache =
    cached s.share_allowed username created_by (cache created_by) cache
looked_up s _ username created_by cache = (false, cache)

-- One call of that function: is the creator's task allowed, and the cache of team answers.
unfoldable pub checker_step : Service → String → OwnerMode → String → Dict Bool → Bool × Dict Bool
checker_step s username mode created_by cache =
    if str_eq created_by "" || str_eq created_by username
    then (true, cache)
    else looked_up s mode username created_by cache

unfoldable pub checker_run : Service → String → OwnerMode → List String → Dict Bool → List Bool
checker_run s username mode [] cache = []
checker_run s username mode (c ∷ creators) cache =
    let (allowed, cache') = checker_step s username mode c cache in
    let rest = checker_run s username mode creators cache' in allowed ∷ rest
