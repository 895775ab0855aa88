-- ===== src/Examples/Sessions.antt =====
-- A user on the logic server at concrete inputs.
use rubo.Base.{ℕ, ◌≡◌, refl, ◌∷◌, [], List, some, none}
use rubo.Base.Int.{ℤ, pos}
use rubo.Util.IdMap.{lookup}
use rubo.Util.User.{logined}
use rubo.Msgs.UserMsg.{UserMsg, Protobuf, do_sth_rsp, user_dosth_rsp}
use rubo.Msgs.MsgCenter.{gen_msg, gen_msg_by_name, find_name, register_protocol}
use rubo.Server.LogicWorker.{LogicWorker, register_handlers}

abbrev pub rsp_proto : Protobuf
rsp_proto = record {
  find_type = λ name. some (do_sth_rsp (pos 0) []);
  serialize = λ m. [];
  parse_from = λ m bytes. m;
}

abbrev pub empty_rsp : UserMsg
empty_rsp = record {
  uid = pos 0;
  sfd = pos 0;
  msg_id = user_dosth_rsp;
  msg = do_sth_rsp (pos 0) [];
}

-- A worker whose users are those of a map.
abbrev pub worker : List (ℤ × ℕ) → LogicWorker
worker uids = record {
  name = 87 ∷ [];
  names = register_protocol;
  heap = record { at = λ p. record { uid = pos 9; conn_status = logined; sock = none }; next = 2 };
  users = record { uid_users = uids; sock_users = [] };
  uids = [];
  handlers = register_handlers;
  msgs_in = [];
  io_msgs = [];
  out_msgs = [];
  dosth_id = 100;
}

pub rsp-known : gen_msg rsp_proto register_protocol user_dosth_rsp ≡ some empty_rsp
unfolding gen_msg gen_msg_by_name find_name
rsp-known = refl

pub nobody-in : lookup (pos 9) (worker []).users.uid_users ≡ none
unfolding lookup
nobody-in = refl
