-- ===== src/Server/MysqlDb/Script.antt =====
-- server/DB/MysqlDb.cpp: the script of tables that is run when the database is opened. The driver's
-- `execute` is a parameter: `false` is an exception. `none` is an exception of `split`.
pub mod Statements
use rubo.Base.{ℕ, suc, Bool, true, false, List, [], ◌∷◌, Option, none, some, length, ltb}
use rubo.Msgs.UserMsg.{Text}
use rubo.Util.Utils.{split, trim_left}

module _ {State : Type 0} (execute : State → Text → State × Bool) where
  -- `execute_sql`: each kind of exception is `false`.
  unfoldable pub execute_sql : State → Text → State × Bool
  execute_sql db sql = execute db sql

  -- A statement that failed ends the loop.
  unfoldable pub unless_failed : (State → State × Bool) → State × Bool → State × Bool
  unless_failed rest (db', false) = (db', false)
  unless_failed rest (db', true) = rest db'

  -- The loop over the pieces. One of less than five bytes is skipped.
  unfoldable pub execute_sqls : State → List Text → State × Bool
  execute_sqls db [] = (db, true)
  execute_sqls db (one_sql ∷ sqls) = elim (ltb (length one_sql) 5) [
    | true ↦ execute_sqls db sqls
    | false ↦
        unless_failed (λ db'. execute_sqls db' sqls) (execute_sql db (trim_left one_sql b'\n'))
  ]

  -- The file is `none` if it can not be opened.
  unfoldable pub init_sql : State → Option Text → Option (State × Bool)
  init_sql db none = some (db, false)
  init_sql db (some file_sql) = elim (split (suc (length file_sql)) file_sql (b';' ∷ []) []) [
    | none ↦ none
    | some sqls ↦ some (execute_sqls db sqls)
  ]
