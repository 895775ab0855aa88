-- ===== src/Server/MysqlDb.antt =====
-- server/DB/MysqlDb.hpp, server/DB/MysqlDb.cpp: the queries and what the server makes of their
-- results. The driver and the database behind it are a parameter.
pub mod Script
pub mod Connection
use Prim.Native.String.{String, [], ◌∷◌}
use Prim.Native.Char.{code}
use rubo.Base.{Bool, false, List, [], ◌∷◌, ◌++◌, Option, none, some, length, leb}
use rubo.Base.Int.{ℤ, negsuc, is_positive}
use rubo.Msgs.UserMsg.{Text}
use rubo.Msgs.MsgCenter.Strings.{until_nul}

-- `executeQuery` gives the column `uid` of the rows, `executeUpdate` of the prepared insertion of a
-- name, a password and a time the number of changed rows; `none` is an exception.
pub record Driver (State : Type 0) : Type 0 where
  pub query : State → Text → Option (List ℤ)
  pub insert : State → Text → Text → ℤ → State × Option ℤ

-- The bytes of a text of ASCII characters.
unfoldable pub bytes : String → Text
bytes [] = []
bytes (c ∷ s) = code c ∷ bytes s

unfoldable pub check_name_sql : Text → Text
check_name_sql name = bytes "Select uid From register Where name='" ++ (name ++ bytes "';")

-- `string_format` puts in the arguments as C strings, and the result ends with the terminating zero.
unfoldable pub get_uid_sql : Text → Text → Text
get_uid_sql name passwd =
    bytes "Select uid From register Where name='"
    ++ (until_nul name ++ (bytes "' And passwd='" ++ (until_nul passwd ++ (bytes "'" ++ (0 ∷ [])))))

-- -1
abbrev pub no_uid : ℤ
no_uid = negsuc 0

module _ {State : Type 0} (driver : Driver State) where
  unfoldable pub check_name_registered : State → Text → Bool
  check_name_registered db name = elim (driver.query db (check_name_sql name)) [
    | none ↦ false
    | some rows ↦ leb 1 (length rows)
  ]

  -- `execute_pre_update`: an exception is -1.
  unfoldable pub execute_pre_update : State → Text → Text → ℤ → State × ℤ
  execute_pre_update db name passwd time =
      let (db', changed) = driver.insert db name passwd time in
      elim changed [ none ↦ (db', negsuc 0) | some n ↦ (db', n) ]

  unfoldable pub register_user : State → Text → Text → ℤ → State × Bool
  register_user db name passwd time =
      let (db', update_ret) = execute_pre_update db name passwd time in
      (db', is_positive update_ret)

  unfoldable pub get_uid : State → Text → Text → ℤ
  get_uid db name passwd = elim (driver.query db (get_uid_sql name passwd)) [
    | none ↦ no_uid
    | some rows ↦ elim rows [ [] ↦ no_uid | uid ∷ _ ↦ uid ]
  ]
