-- ===== src/Examples/Accounts.antt =====
-- Accounts and workers at concrete inputs.
use rubo.Base.{ℕ, suc, ◌≡◌, refl, ◌∷◌, [], ◌++◌, true, some, ◌==◌, if◌then◌else◌}
use rubo.Base.Int.{pos}
use rubo.Util.SocketNode.{new_node}
use rubo.Util.User.{Users, logined}
use rubo.Msgs.UserMsg.{
  Text, UserMsg, login_req, register_req, register_rsp, login_rsp, user_online_req,
}
use rubo.Server.MysqlDb.{Driver}
use rubo.Server.Gate.{GateState, on_user_login, on_user_register}
use rubo.Server.Gate.Accounts.{IsInserted, register-login}

-- A database of one user at most: its state is the number of users.
abbrev pub tiny_driver : Driver ℕ
tiny_driver = record {
  query = λ db sql. if db == 0 then some [] else some (pos 10000 ∷ []);
  insert = λ db name passwd time. (suc db, some (pos 1));
}

abbrev header : UserMsg
header = record { uid = pos 0; sfd = pos 4; msg_id = pos 0; msg = user_online_req (pos 0) }

abbrev pub nobody : Users
nobody = record {
  at = λ p. record {
    uid = pos 0;
    conn_status = logined;
    sock = some (record new_node { sfd = pos 4 });
  };
  next = 2;
}

abbrev empty : GateState ℕ
empty = record { db = 0; users = nobody; rsp_msgs = [] }

abbrev ann : Text
ann = 97 ∷ []

ann-IsInserted : IsInserted tiny_driver 0 ann ann (pos 10000)
ann-IsInserted = record { absent = refl; changed = refl; found = refl; valid = refl }

register-login_example :
    (g1 : GateState ℕ) × (g2 : GateState ℕ) × (on_user_register tiny_driver
        (record header { msg = register_req ann ann })
        1
        empty
      ≡ some g1)
    × (on_user_login tiny_driver (record header { msg = login_req ann ann }) 1 g1 ≡ some g2)
    × (g2.rsp_msgs
        ≡ ([] ++ (record header { msg_id = pos 5; msg = register_rsp true ann (pos 10000) } ∷ []))
          ++ (record header { msg_id = pos 4; msg = login_rsp true (pos 10000) } ∷ []))
    × ((g2.users.at 1).uid ≡ pos 10000)
register-login_example =
    register-login tiny_driver ann ann (pos 10000) header header 1 empty ann-IsInserted
