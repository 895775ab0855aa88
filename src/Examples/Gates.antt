-- ===== src/Examples/Gates.antt =====
-- The threads of the gate at concrete inputs.
use rubo.Base.{
  ℕ, ◌-◌, ◌^◌, ◌<◌, ◌≡◌, refl, ap, inl, ◌∷◌, [], ◌++◌, List, false, some, length, arith,
}
use rubo.Base.Int.{pos}
use rubo.Util.RingBuff.{new_ring, add_data}
use rubo.Util.RingBuff.Writes.{Holds, add_data-Holds}
use rubo.Util.RingBuff.Refine.{new_ring-Holds}
use rubo.Util.SocketNode.{SocketNode, new_node}
use rubo.Util.TcpOp.{new_tcp_op, tcp_type_server}
use rubo.Util.User.{logined}
use rubo.Util.IdMap.{lookup, erase}
use rubo.Msgs.UserMsg.{Text, Message, UserMsg, login_req, user_login_req, Protobuf}
use rubo.Msgs.MsgCenter.{new_center, gen_msg, gen_msg_by_name, find_name}
use rubo.Msgs.MsgCenter.Stream.{IsSendable, frames}
use rubo.Server.Gate.{on_login, register_handlers, register_handler, get_msg_handler}
use rubo.Server.GateIo.{GateIo, Worker, new_worker, sock_of, on_user_logined, is_fd_in}
use rubo.Server.GateIo.Round.{handle_read}
use rubo.Server.GateIo.Guards.{Kicked, several, handle_read-refused}
use rubo.Server.GateIo.HandOver.{HandedOver, on_user_logined-HandedOver, has_fd}
use rubo.Examples.Accounts.{tiny_driver}
use rubo.Examples.Parser.{two-odd, new_center-IsDoubled}

-- A protobuf that knows one login.
abbrev ann : Text
ann = 97 ∷ []

abbrev login : Message
login = login_req ann ann

abbrev login_proto : Protobuf
login_proto = record {
  find_type = λ name. some (login_req [] []);
  serialize = λ m. 5 ∷ (6 ∷ []);
  parse_from = λ m bytes. login;
}

abbrev hello : UserMsg
hello = record { uid = pos 0; sfd = pos 0; msg_id = user_login_req; msg = login }

hello-IsSendable : IsSendable login_proto new_center.names hello
unfolding new_center gen_msg gen_msg_by_name find_name
hello-IsSendable = record {
  id_in = omega arith;
  uid_in = omega arith;
  two = omega arith;
  small = omega arith;
  odd = two-odd;
  no_nul = (λ e. absurd (omega (arith, e)), (λ e. absurd (omega (arith, e)), tt));
  known = (
    record { uid = pos 0; sfd = pos 0; msg_id = user_login_req; msg = login_req [] [] },
    refl,
    refl,
  );
}

-- A connection that has sent some logins.
abbrev having : List UserMsg → SocketNode
having ms = record new_node {
  sfd = pos 4;
  rd_buff = add_data new_ring (frames login_proto ms ++ []);
}

abbrev gate : List UserMsg → GateIo ℕ
gate ms = record {
  gate = record {
    db = 1;
    users = record {
      at = λ p. record { uid = pos 0; conn_status = logined; sock = some (having ms) };
      next = 2;
    };
    rsp_msgs = [];
  };
  center = new_center;
  handlers = register_handlers;
  tcp = new_tcp_op tcp_type_server;
  unlogin_users = (pos 4, 1) ∷ [];
  unlogin_events = [];
  unlogin_reads = [];
  workers = new_worker (pos 3) ∷ [];
  wire = [];
}

having-Holds :
    (ms : List UserMsg)
    → length (frames login_proto ms ++ []) < 100
    → Holds (frames login_proto ms ++ []) (having ms).rd_buff
having-Holds ms small = rw new_ring-Holds.bytes at (
    add_data-Holds (frames login_proto ms ++ []) new_ring-Holds.valid
      (omega (arith, ap length new_ring-Holds.bytes)))

one-small : length (frames login_proto (hello ∷ []) ++ []) < 100
unfolding frames
one-small = omega arith

two-small : length (frames login_proto (hello ∷ (hello ∷ [])) ++ []) < 100
unfolding frames
two-small = omega arith

login-known : get_msg_handler user_login_req register_handlers ≡ some on_login
unfolding get_msg_handler register_handlers register_handler lookup erase
login-known = refl

one-sock : sock_of 1 (gate (hello ∷ [])) ≡ some (having (hello ∷ []))
unfolding sock_of
one-sock = refl

two-sock : sock_of 1 (gate (hello ∷ (hello ∷ []))) ≡ some (having (hello ∷ (hello ∷ [])))
unfolding sock_of
two-sock = refl

handle_read-refused_example :
    (g' : GateIo ℕ) × (handle_read tiny_driver login_proto 1 (gate (hello ∷ (hello ∷ [])))
      ≡ some g')
    × Kicked (pos 4) (gate (hello ∷ (hello ∷ []))) g'
handle_read-refused_example =
    handle_read-refused tiny_driver login_proto 1 (gate (hello ∷ (hello ∷ [])))
      (having (hello ∷ (hello ∷ []))) (hello ∷ (hello ∷ [])) [] (several hello hello [] []) two-sock
      (hello-IsSendable, (hello-IsSendable, tt)) (inl (omega arith))
      (having-Holds (hello ∷ (hello ∷ [])) two-small) new_center-IsDoubled

nobody-has : has_fd (pos 4) (new_worker (pos 3)) ≡ false
unfolding new_worker is_fd_in
nobody-has = refl

new_worker-small : length (new_worker (pos 3)).fd_set < 2 ^ 32 - 1
unfolding new_worker
new_worker-small = omega arith

on_user_logined_example :
    (i : ℕ) × (w : Worker) × HandedOver
      (pos 4)
      (pos 7)
      (gate [])
      (on_user_logined (pos 4) (pos 7) (gate []))
      i
      w
on_user_logined_example =
    on_user_logined-HandedOver (pos 4) (pos 7) (gate []) (new_worker (pos 3)) [] refl
      (nobody-has, tt) new_worker-small
