-- ===== src/Server/LogicWorker.antt =====
-- server/Logic/LogicWorker.hpp, server/Logic/LogicWorker.cpp: the thread that handles the messages of
-- users on the logic server. `none` is a fault: a null pointer, or a message of another kind than
-- its number says. The number of replies, an `int`, is below 2^31.
pub mod Sessions
use rubo.Base.{
  ℕ, suc, Bool, true, false, ◌&&◌, ◌||◌, not, List, [], ◌∷◌, ◌++◌, Option, none, some, ◌==◌,
  if◌then◌else◌, length,
}
use rubo.Base.Int.{ℤ, pos, ◌==ℤ◌}
use rubo.Util.IdMap.{IdMap, lookup}
use rubo.Util.MutexList.{add_more}
use rubo.Util.User.{User, UserPtr, Users, connect_null, logined, set_user, alloc_user}
use rubo.Util.UserManager.{UserManager, add_user, get_user_by_uid}
use rubo.Msgs.UserMsg.{
  Text, UserMsg, Protobuf, user_online_req, user_offline_req, do_sth_req, do_sth_rsp, user_online,
  user_offline, user_dosth_req, user_dosth_rsp,
}
use rubo.Msgs.MsgCenter.{Names, gen_msg}
use rubo.Server.MysqlDb.{bytes}

pub data LogicHandler : Type 0 where
  on_online on_offline on_dosth : LogicHandler

pub record LogicWorker : Type 0 where
  pub name : Text
  pub names : Names
  pub heap : Users
  pub users : UserManager
  pub uids : List ℤ
  pub handlers : IdMap LogicHandler
  pub msgs_in : List UserMsg
  pub io_msgs : List UserMsg
  pub out_msgs : List UserMsg
  pub dosth_id : ℕ

-- The set of numbers by which the IO thread chooses a worker, with the mutex `_u_mtx` around each call.
unfoldable pub has_uid : ℤ → List ℤ → Bool
has_uid uid [] = false
has_uid uid (k ∷ ks) = k ==ℤ uid || has_uid uid ks

unfoldable pub is_uid_in : ℤ → LogicWorker → Bool
is_uid_in uid w = has_uid uid w.uids

unfoldable pub user_num : LogicWorker → ℕ
user_num w = length w.uids

-- `add_user(int)`
unfoldable pub add_uid : ℤ → LogicWorker → LogicWorker
add_uid uid w = if is_uid_in uid w then w else record w { uids = uid ∷ w.uids }

unfoldable pub erase_uid : ℤ → List ℤ → List ℤ
erase_uid uid [] = []
erase_uid uid (k ∷ ks) = let rest = erase_uid uid ks in if k ==ℤ uid then rest else k ∷ rest

-- `del_user(int)`
unfoldable pub del_uid : ℤ → LogicWorker → LogicWorker
del_uid uid w = record w { uids = erase_uid uid w.uids }

-- The table, whose keys are different.
unfoldable pub register_handlers : IdMap LogicHandler
register_handlers =
    (user_online, on_online) ∷ ((user_offline, on_offline) ∷ ((user_dosth_req, on_dosth) ∷ []))

unfoldable pub get_msg_handler : ℤ → IdMap LogicHandler → Option LogicHandler
get_msg_handler msg_id handlers = lookup msg_id handlers

-- A new user is entered under the number of the message.
unfoldable pub enter : ℤ → LogicWorker → LogicWorker
enter uid w =
    let (login_user, heap) =
      alloc_user w.heap (record { uid = uid; conn_status = logined; sock = none }) in
    record w { heap = heap; users = (add_user heap login_user w.users).0 }

unfoldable pub on_user_online : UserMsg → UserPtr → LogicWorker → Option LogicWorker
on_user_online pmsg user w = elim pmsg.msg [ user_online_req uid ↦ some (enter uid w) | _ ↦ none ]

-- The number of the user is set again; the user stays entered.
unfoldable pub on_user_offline : UserMsg → UserPtr → LogicWorker → Option LogicWorker
on_user_offline pmsg user w = elim pmsg.msg [
  | user_offline_req uid ↦
      some (record w { heap = set_user w.heap user (record (w.heap.at user) { uid = uid }) })
  | _ ↦ none
]

module _ (proto : Protobuf) where
  -- The reply that is made for a request.
  unfoldable pub reply : ℤ → Text → LogicWorker → Option UserMsg
  reply uid sth w = elim (gen_msg proto w.names user_dosth_rsp) [
    | none ↦ none
    | some rsp ↦ elim rsp.msg [
      | do_sth_rsp _ _ ↦ some (record rsp {
        uid = uid;
        msg = do_sth_rsp (pos w.dosth_id) (bytes "DoSthRsp From " ++ (w.name ++ sth));
      })
      | _ ↦ none
    ]
  ]

  unfoldable pub on_user_dosth : UserMsg → UserPtr → LogicWorker → Option LogicWorker
  on_user_dosth pmsg user w = elim pmsg.msg [
    | do_sth_req _ sth ↦ elim (reply (w.heap.at user).uid sth w) [
      | none ↦ none
      | some rsp ↦
          some (record w { dosth_id = suc w.dosth_id; out_msgs = w.out_msgs ++ (rsp ∷ []) })
    ]
    | _ ↦ none
  ]

  unfoldable pub call : LogicHandler → UserMsg → UserPtr → LogicWorker → Option LogicWorker
  call on_online msg user w = on_user_online msg user w
  call on_offline msg user w = on_user_offline msg user w
  call on_dosth msg user w = on_user_dosth msg user w

  -- A message whose user is not known is dropped, unless it says that the user is online.
  unfoldable pub handle_for : LogicHandler → UserMsg → UserPtr → LogicWorker → Option LogicWorker
  handle_for f msg user w = elim (user == 0 && not (msg.msg_id ==ℤ user_online)) [
    | true ↦ some w
    | false ↦ call f msg user w
  ]

  unfoldable pub handler_one_msg : UserMsg → LogicWorker → Option LogicWorker
  handler_one_msg msg w = elim (get_msg_handler msg.msg_id w.handlers) [
    | none ↦ some w
    | some f ↦ handle_for f msg (get_user_by_uid msg.uid w.users) w
  ]

  unfoldable pub handle_all : List UserMsg → LogicWorker → Option LogicWorker
  handle_all [] w = some w
  handle_all (msg ∷ msgs) w = elim (handler_one_msg msg w) [
    | none ↦ none
    | some w' ↦ handle_all msgs w'
  ]

  -- What is done once the wait for a message is over.
  unfoldable pub handler_msgs : LogicWorker → Option LogicWorker
  handler_msgs w = handle_all w.msgs_in (record w { msgs_in = [] })

-- The replies are put behind those that wait for the IO thread.
unfoldable pub handler_reply : List UserMsg → LogicWorker → List UserMsg × LogicWorker
handler_reply out w = (add_more w.out_msgs out, record w { out_msgs = [] })

unfoldable pub notify_msg_in : LogicWorker → LogicWorker
notify_msg_in w = record w { msgs_in = w.msgs_in ++ w.io_msgs; io_msgs = [] }

-- What a new worker is after `init`: its server is there, so `init` only fills the table.
unfoldable pub init : Text → Names → LogicWorker
init name names = record {
  name = name;
  names = names;
  heap = record {
    at = λ p. record { uid = pos 0; conn_status = connect_null; sock = none };
    next = 1;
  };
  users = record { uid_users = []; sock_users = [] };
  uids = [];
  handlers = register_handlers;
  msgs_in = [];
  io_msgs = [];
  out_msgs = [];
  dosth_id = 100;
}

-- The users stay.
unfoldable pub unit : LogicWorker → LogicWorker
unit w = record w { handlers = []; msgs_in = []; io_msgs = []; out_msgs = [] }
