-- ===== src/Server/MysqlDb/Connection.antt =====
-- server/DB/MysqlDb.cpp, `init` and `unit`, and server/ServerBase.cpp: the connection to the database. What
-- the driver answers is an argument; that `setSchema`, `setAutoCommit` and `createStatement` throw is left
-- out. `none` is an exception that is not caught.
pub mod Released
use rubo.Base.{Bool, true, false, Option, none, some}
use rubo.Msgs.UserMsg.{Text}
use rubo.Server.MysqlDb.Script.{init_sql}

pub data Conn : Type 0 where
  no_conn opened closed : Conn

pub record MysqlDb : Type 0 where
  pub driver : Bool
  pub conn : Conn
  pub stmt : Bool

unfoldable pub new_db : MysqlDb
new_db = record { driver = false; conn = no_conn; stmt = false }

-- `connect` is `none` if it throws, and `some false` if it gives a null pointer.
pub record ConnectAnswers : Type 0 where
  pub driver : Bool
  pub connect : Option Bool
  pub valid : Bool
  pub statement : Bool

-- `close` on what there is.
abbrev pub close : Conn → Conn
close no_conn = no_conn
close opened = closed
close closed = closed

unfoldable pub unit : MysqlDb → MysqlDb
unit d = record d { conn = close d.conn; driver = false }

module _ {State : Type 0} (execute : State → Text → State × Bool) where
  -- The end of `init`: the script of tables.
  unfoldable pub run_script : Option (State × Bool) → MysqlDb → Option (MysqlDb × State × Bool)
  run_script none d = none
  run_script (some (db, false)) d = some (unit d, db, false)
  run_script (some (db, true)) d = some (d, db, true)

  -- The tests on a connection.
  unfoldable pub check_conn :
      ConnectAnswers → State → Option Text → MysqlDb → Option (MysqlDb × State × Bool)
  check_conn a db file d = elim a.valid [
    | false ↦ some (unit d, db, false)
    | true ↦ elim a.statement [
      | false ↦ some (unit d, db, false)
      | true ↦ run_script (init_sql execute db file) (record d { stmt = true })
    ]
  ]

  unfoldable pub connect_db :
      ConnectAnswers → State → Option Text → MysqlDb → Option (MysqlDb × State × Bool)
  connect_db a db file d = elim a.connect [
    | none ↦ none
    | some false ↦ some (unit d, db, false)
    | some true ↦ check_conn a db file (record d { conn = opened })
  ]

  unfoldable pub init :
      ConnectAnswers → State → Option Text → MysqlDb → Option (MysqlDb × State × Bool)
  init a db file d = elim a.driver [
    | false ↦ some (record d { driver = false }, db, false)
    | true ↦ connect_db a db file (record d { driver = true })
  ]

  -- `ServerBase::unit`: both of its tests call `unit` of the database.
  unfoldable pub base_unit : MysqlDb → MysqlDb
  base_unit d = unit (unit d)

  -- `ServerBase::init` after the database, with the result of `init` of the message center.
  unfoldable pub base_after : Bool → MysqlDb × State × Bool → MysqlDb × State × Bool
  base_after center_ok (d, db, false) = (base_unit d, db, false)
  base_after false (d, db, true) = (base_unit d, db, false)
  base_after true (d, db, true) = (d, db, true)

  unfoldable pub base_init :
      ConnectAnswers → Bool → State → Option Text → MysqlDb → Option (MysqlDb × State × Bool)
  base_init a center_ok db file d = elim (init a db file d) [
    | none ↦ none
    | some r ↦ some (base_after center_ok r)
  ]

  -- `Logic::init`, whose `unit` does nothing: `io_ok` is the result of `init` of the IO thread. A worker
  -- is always ready.
  unfoldable pub logic_after : Bool → MysqlDb × State × Bool → MysqlDb × State × Bool
  logic_after io_ok (d, db, false) = (d, db, false)
  logic_after io_ok (d, db, true) = (d, db, io_ok)

  unfoldable pub logic_init :
      ConnectAnswers → Bool → Bool → State → Option Text → MysqlDb → Option (MysqlDb × State × Bool)
  logic_init a center_ok io_ok db file d = elim (base_init a center_ok db file d) [
    | none ↦ none
    | some r ↦ some (logic_after io_ok r)
  ]
