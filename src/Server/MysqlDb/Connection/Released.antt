-- ===== src/Server/MysqlDb/Connection/Released.antt =====
-- Whether the connection to the database is open after `ServerBase::init` and `Logic::init`.
use mathlib.Core.Path.{subst}
use rubo.Base.{◌≡◌, ◌≢◌, refl, ap, Bool, true, false, Option, none, some}
use rubo.Msgs.UserMsg.{Text}
use rubo.Server.MysqlDb.Script.{init_sql}
use rubo.Server.MysqlDb.Connection.{
  Conn, no_conn, opened, closed, MysqlDb, ConnectAnswers, close, unit, run_script, check_conn,
  connect_db, init, base_unit, base_after, base_init, logic_after, logic_init,
}

-- Open after a success, and not open after a failure.
abbrev pub IsReleased : {State : Type 0} → Option (MysqlDb × State × Bool) → Type 0
IsReleased none = Unit
IsReleased (some (d, db, true)) = d.conn ≡ opened
IsReleased (some (d, db, false)) = d.conn ≢ opened

close-ne-opened : (c : Conn) → close c ≢ opened
close-ne-opened no_conn e = cc
close-ne-opened opened e = cc
close-ne-opened closed e = cc

module _ {State : Type 0} (execute : State → Text → State × Bool) where
  run_script-IsReleased :
      (r : Option (State × Bool)) (d : MysqlDb)
      → d.conn ≡ opened
      → IsReleased (run_script execute r d)
  unfolding run_script unit
  run_script-IsReleased none d e = tt
  run_script-IsReleased (some (db, false)) d e = close-ne-opened d.conn
  run_script-IsReleased (some (db, true)) d e = e

  module _ (driver : Bool) (connect : Option Bool) (db : State) (file : Option Text) where
    answers : Bool → Bool → ConnectAnswers
    answers valid statement = record {
      driver = driver;
      connect = connect;
      valid = valid;
      statement = statement;
    }

    check_conn-IsReleased :
        (valid statement : Bool) (d : MysqlDb)
        → d.conn ≡ opened
        → IsReleased (check_conn execute (answers valid statement) db file d)
    unfolding check_conn unit answers
    check_conn-IsReleased false statement d e = close-ne-opened d.conn
    check_conn-IsReleased true false d e = close-ne-opened d.conn
    check_conn-IsReleased true true d e =
        run_script-IsReleased (init_sql execute db file) (record d { stmt = true }) e

  connect_db-IsReleased :
      (connect : Option Bool) (driver valid statement : Bool) (db : State) (file : Option Text)
      (d : MysqlDb)
      → IsReleased (connect_db execute (answers driver connect db file valid statement) db file d)
  unfolding connect_db unit answers
  connect_db-IsReleased none driver valid statement db file d = tt
  connect_db-IsReleased (some false) driver valid statement db file d = close-ne-opened d.conn
  connect_db-IsReleased (some true) driver valid statement db file d =
      check_conn-IsReleased driver (some true) db file valid statement (record d { conn = opened })
        refl

  init-IsReleased :
      (driver : Bool) (connect : Option Bool) (valid statement : Bool) (db : State)
      (file : Option Text) (d : MysqlDb)
      → d.conn ≢ opened
      → IsReleased (init execute (answers driver connect db file valid statement) db file d)
  unfolding init answers
  init-IsReleased false connect valid statement db file d n = n
  init-IsReleased true connect valid statement db file d n =
      connect_db-IsReleased connect true valid statement db file (record d { driver = true })

  base_after-IsReleased :
      (center_ok : Bool) (r : MysqlDb × State × Bool)
      → IsReleased (some r)
      → IsReleased (some (base_after execute center_ok r))
  unfolding base_after base_unit unit
  base_after-IsReleased center_ok (d, db, false) h = close-ne-opened (close d.conn)
  base_after-IsReleased false (d, db, true) h = close-ne-opened (close d.conn)
  base_after-IsReleased true (d, db, true) h = h

  base_step :
      (center_ok : Bool) (o : Option (MysqlDb × State × Bool))
      → IsReleased o
      → IsReleased (elim o [ none ↦ none | some r ↦ some (base_after execute center_ok r) ])
  base_step center_ok none h = tt
  base_step center_ok (some r) h = base_after-IsReleased center_ok r h

  -- If the connection to the database is not open before, `ServerBase::init` leaves it open when it
  -- succeeds and not open when it fails, whatever the driver answers and the script of tables does;
  -- of an exception that is not caught, nothing is said.
  pub base_init-IsReleased :
      (a : ConnectAnswers) (center_ok : Bool) (db : State) (file : Option Text) (d : MysqlDb)
      → d.conn ≢ opened
      → IsReleased (base_init execute a center_ok db file d)
  unfolding base_init answers
  base_init-IsReleased a center_ok db file d n =
      base_step center_ok (init execute a db file d)
        (init-IsReleased a.driver a.connect a.valid a.statement db file d n)

  after_base :
      (io_ok : Bool) (o : Option (MysqlDb × State × Bool)) (d' : MysqlDb) (db' : State)
      → IsReleased o
      → o ≡ some (d', db', true)
      → (d'.conn ≡ opened)
        × (elim o [ none ↦ none | some r ↦ some (logic_after execute io_ok r) ]
            ≡ some (d', db', io_ok))
  unfolding logic_after
  after_base io_ok o d' db' h e = (
    subst IsReleased e h,
    ap (λ o. elim o [ none ↦ none | some r ↦ some (logic_after execute io_ok r) ]) e,
  )

  -- If the connection to the database is not open before, `ServerBase::init` succeeds and then the
  -- `init` of the IO thread fails, `Logic::init` fails and leaves the connection open.
  pub logic_init-leaks :
      (a : ConnectAnswers) (center_ok : Bool) (db : State) (file : Option Text) (d d' : MysqlDb)
      (db' : State)
      → d.conn ≢ opened
      → base_init execute a center_ok db file d ≡ some (d', db', true)
      → (logic_init execute a center_ok false db file d ≡ some (d', db', false))
        × (d'.conn ≡ opened)
  unfolding logic_init
  logic_init-leaks a center_ok db file d d' db' n e =
      let (open_still, result) =
        after_base false (base_init execute a center_ok db file d) d' db'
          (base_init-IsReleased a center_ok db file d n) e in
      (result, open_still)
