-- ===== src/Examples/Routes.antt =====
-- The routing of a worker at concrete inputs.
use rubo.Base.{◌≡◌, refl, ◌∷◌, [], ◌++◌, List, none, some}
use rubo.Base.Int.{ℤ, pos}
use rubo.Util.LineBuffer.{new_line, append_size, clean_data, grown_size, double_up}
use rubo.Util.RingBuff.{new_ring}
use rubo.Util.SocketNode.{new_node, client_user}
use rubo.Util.SocketOp.{
  WriteRet, wrote, new_socket_op, write_msg, fill_message, send, send_loop, one_len,
}
use rubo.Util.TcpOp.{new_tcp_op, tcp_type_epoll}
use rubo.Util.User.{User, Users, logined}
use rubo.Util.IdMap.{lookup, add_new}
use rubo.Util.UserManager.{new_manager, add_user, get_user_by_uid}
use rubo.Util.UserManager.Keys.{IsValid, start, step, adds_user, Reachable-IsValid}
use rubo.Msgs.UserMsg.{UserMsg}
use rubo.Msgs.MsgCenter.{new_center}
use rubo.Server.GateWorker.{GateWorker, sock_of, set_node}
use rubo.Server.GateWorker.Messages.{sort_msgs, deliver, deliver_to, write_to}
use rubo.Server.GateWorker.Routing.{
  with_uid, AllFrom, sort_msgs-own_uid, Delivered, deliver-Delivered,
}
use rubo.Examples.Wire.{tiny_proto, online}

-- User 9, on descriptor 4, at address 1.
abbrev player : User
player = record {
  uid = pos 9;
  conn_status = logined;
  sock = some (record new_node { sfd = pos 4; kind = client_user });
}

abbrev heap : Users
heap = record { at = λ p. player; next = 2 }

abbrev worker : GateWorker
worker = record {
  logic_fd = pos 3;
  center = new_center;
  tcp = new_tcp_op tcp_type_epoll;
  heap = heap;
  logic = 1;
  users = (add_user heap 1 new_manager).0;
  user_msgs_in = [];
  logic_msgs_in = [];
  ioevs_in = [];
  fd_set = [];
  epev_users = [];
  rd_users = [];
  wire = [];
}

-- A message of user 9, and one in the name of another.
abbrev mixed : List UserMsg
mixed = online ∷ (record online { uid = pos 8 } ∷ [])

sort_msgs-own_uid_example :
    (sort_msgs client_user (pos 9) mixed worker
      ≡ record worker { user_msgs_in = [] ++ with_uid (pos 9) mixed })
    × AllFrom (pos 9) (with_uid (pos 9) mixed)
sort_msgs-own_uid_example = sort_msgs-own_uid (pos 9) mixed worker

worker-IsValid : IsValid heap worker.users
worker-IsValid =
    Reachable-IsValid heap worker.users (step (start heap) (adds_user heap 1 new_manager))

abbrev writes : ℤ → List WriteRet
writes fd = wrote 14 ∷ []

abbrev after : GateWorker
after = elim (deliver tiny_proto writes online worker) [ none ↦ worker | some w ↦ w ]

after-deliver : deliver tiny_proto writes online worker ≡ some after
unfolding deliver deliver_to write_to sock_of set_node get_user_by_uid lookup add_new add_user
    new_manager write_msg fill_message send send_loop one_len new_tcp_op new_socket_op new_line
    append_size clean_data grown_size double_up new_node new_ring
after-deliver = refl

deliver-Delivered_example : Delivered online worker after
deliver-Delivered_example =
    deliver-Delivered tiny_proto writes online worker worker-IsValid after after-deliver
