-- ===== src/Task/Db.antt =====
-- The database as internal/logic/task sees it: the actions of `Db` on the rows of one task.
use iflygo.Task.Rows.{TaskDb}
use iflygo.Db as Rows
pub use iflygo.Db.{
  Error, database, not_found, bad_status, changed, not_owner, no_deploy, command_only_admin,
  too_many, exec_forbidden, no_component, bad_command, Result, ok, err, at, pure, fail, query, exec,
  exec_if, ◌>>◌, unless_error, Outcome, commit, rollback, settle, bind_result, next_fault,
}
unfoldable pub use iflygo.Db.{statement, or_default, ◌>>=◌, transaction}

abbrev pub World : Type 0
World = Rows.World TaskDb

abbrev pub Db : Type 0 → Type 0
Db A = Rows.Db TaskDb A
