-- ===== src/Examples/Servers.antt =====
-- The process and its servers at concrete inputs.
use rubo.Base.{ℕ, ◌≡◌, ◌≢◌, refl, ◌↔◌, Bool, true, false, ◌||◌, [], ◌∷◌, none, some}
use rubo.Util.Utils.{
  split, split_loop, find_first_of, index_of, contains, push_last, push_piece, substr,
}
use rubo.Msgs.UserMsg.{Text}
use rubo.Server.MysqlDb.Script.{init_sql, execute_sqls}
use rubo.Server.MysqlDb.Connection.{
  MysqlDb, ConnectAnswers, opened, new_db, init, connect_db, check_conn, run_script, base_after,
  base_init,
}
use rubo.Msgs.MsgCenter.{new_center}
use rubo.Server.Gate.Startup.{GateServer, HasStarted, init-HasStarted}
use rubo.Server.Gate.Startup
use rubo.Examples.Accounts.{nobody}
use rubo.Examples.Openings.{kernel_answers}
use rubo.Server.ServerMain.{new_server_main, choose, gate_word, logic_word, init_servers}
use rubo.Server.ServerMain
use rubo.Server.ServerMain.Order.{Asks, all_ok, in_order, init-stop-run}

abbrev only_gate : Text
only_gate = b'-' ∷ b'-' ∷ b'g' ∷ b'a' ∷ b't' ∷ b'e' ∷ []

init-stop-run_example :
    (g : Bool) × (l : Bool) × ((g ≡ true) ↔ Asks gate_word only_gate)
    × ((l ≡ true) ↔ Asks logic_word only_gate)
    × ((ServerMain.init all_ok only_gate new_server_main).1 ≡ (g || l))
    × ((ServerMain.stop (ServerMain.run (ServerMain.init all_ok only_gate new_server_main).0)).calls
        ≡ in_order g l)
init-stop-run_example = init-stop-run only_gate

chooses_gate : choose only_gate ≡ (true, false)
unfolding choose ServerMain.find ServerMain.starts_with
chooses_gate = refl

-- A database that takes every statement.
abbrev takes_all : ℕ → Text → ℕ × Bool
takes_all db sql = (db, true)

abbrev answers : ConnectAnswers
answers = record { driver = true; connect = some true; valid = true; statement = true }

new_db-conn : new_db.conn ≢ opened
unfolding new_db
new_db-conn e = cc

abbrev server : GateServer ℕ
server = record {
  conn = new_db;
  gate = record { db = 0; users = nobody; rsp_msgs = [] };
  center = new_center;
  io = none;
}

init-HasStarted_example :
    HasStarted (Startup.init takes_all answers true (some []) kernel_answers server)
init-HasStarted_example =
    init-HasStarted takes_all answers true (some []) kernel_answers server new_db-conn refl

abbrev connected : MysqlDb
connected = record { driver = true; conn = opened; stmt = true }

base-succeeds : base_init takes_all answers true 0 (some []) new_db ≡ some (connected, 0, true)
unfolding base_init init connect_db check_conn run_script base_after new_db init_sql split
    split_loop find_first_of index_of contains push_last push_piece substr execute_sqls
base-succeeds = refl
