-- ===== src/Server/GateWorker.antt =====
-- server/Gate/GateWorker.hpp, server/Gate/GateWorker.cpp: the thread of one logic server and its
-- users. It gets connections from the IO thread and passes messages on in both directions. The
-- answers of the kernel, by descriptor, and the events of epoll are arguments. `none` is a fault.
pub mod Messages
pub mod Startup
pub mod Routing
use rubo.Base.{
  ℕ, Bool, true, false, ◌||◌, List, [], ◌∷◌, ◌++◌, Option, none, some, ◌==◌, if◌then◌else◌,
}
use rubo.Base.Int.{ℤ, pos, ◌==ℤ◌}
use rubo.Base.Fault.{◌>>=◌}
use rubo.Util.SocketNode.{
  SocketNode, new_node, FdEvent, EventNode, ClientType, client_system, client_user, fd_or,
}
use rubo.Util.SocketOp.{ReadRet, WriteRet, write_msg}
use rubo.Util.TcpOp.{TcpOp, close_op, add_epev, event_op}
use rubo.Util.User.{User, UserPtr, Users, logined, set_user, alloc_user}
use rubo.Util.UserManager.{
  UserManager, add_user, add_conn, del_conn, get_user_by_sock, get_user_by_uid,
}
use rubo.Msgs.UserMsg.{
  UserMsg, Protobuf, Message, user_online_req, user_offline_req, user_online, user_offline,
}
use rubo.Msgs.MsgCenter.{MsgCenter, gen_msg, parse_package}
use rubo.Server.GateIo.{Polled, fd_event}

pub record GateWorker : Type 0 where
  pub logic_fd : ℤ
  pub center : MsgCenter
  pub tcp : TcpOp
  pub heap : Users
  pub logic : UserPtr
  pub users : UserManager
  pub user_msgs_in : List UserMsg
  pub logic_msgs_in : List UserMsg
  pub ioevs_in : List EventNode
  pub fd_set : List ℤ
  pub epev_users : List UserPtr
  pub rd_users : List UserPtr
  pub wire : List (ℤ × List ℕ)

-- The connection of a user, which the code dereferences.
unfoldable pub sock_of : UserPtr → GateWorker → Option SocketNode
sock_of user w = (w.heap.at user).sock

unfoldable pub set_node : UserPtr → SocketNode → GateWorker → GateWorker
set_node user sock w = record w {
  heap = set_user w.heap user (record (w.heap.at user) { sock = some sock });
}

unfoldable pub del_fd : ℤ → List ℤ → List ℤ
del_fd fd [] = []
del_fd fd (k ∷ ks) = let rest = del_fd fd ks in if k ==ℤ fd then rest else k ∷ rest

-- The end of `init`: the user that stands for the logic server.
unfoldable pub enter_logic : GateWorker → GateWorker
enter_logic w =
    let node : SocketNode = record new_node { sfd = w.logic_fd; kind = client_system } in
    let (logic, heap) =
      alloc_user w.heap (record { uid = pos 0; conn_status = logined; sock = some node }) in
    record w { heap = heap; logic = logic; users = (add_user heap logic w.users).0 }

module _ (proto : Protobuf) where
  -- A message to the logic server about a user; a message of another kind is a fault.
  unfoldable pub online_msg : ℤ → GateWorker → Option UserMsg
  online_msg uid w = elim (gen_msg proto w.center.names user_online) [
    | none ↦ none
    | some m ↦ elim m.msg [
      | user_online_req _ ↦ some (record m { uid = uid; msg = user_online_req uid })
      | _ ↦ none
    ]
  ]

  unfoldable pub offline_msg : ℤ → GateWorker → Option UserMsg
  offline_msg uid w = elim (gen_msg proto w.center.names user_offline) [
    | none ↦ none
    | some m ↦ elim m.msg [
      | user_offline_req _ ↦ some (record m { uid = uid; msg = user_offline_req uid })
      | _ ↦ none
    ]
  ]

  -- `peer` is what `getpeername` gives.
  unfoldable pub on_new_connect :
      (ℤ → Bool) → (ℤ → List ℕ × ℤ) → EventNode → GateWorker → Option GateWorker
  on_new_connect added_ok peer ev w =
      let fd = ev.sfd in
      let one_node : SocketNode = record new_node {
        sfd = fd;
        ip = (peer fd).0;
        port = (peer fd).1;
        kind = client_user;
      } in
      let (user, heap) =
        alloc_user w.heap (record { uid = ev.uid; conn_status = logined; sock = some one_node }) in
      elim (add_conn heap user w.users) [
        | none ↦ none
        | some (users, _) ↦ elim (online_msg ev.uid w) [
          | none ↦ none
          | some msg ↦ some (record w {
            heap = heap;
            users = users;
            tcp = (add_epev added_ok fd w.tcp).0;
            user_msgs_in = w.user_msgs_in ++ (msg ∷ []);
          })
        ]
      ]

  -- The events that the IO thread handed over; one that is no connection is only logged.
  unfoldable pub handle_ioevents :
      (ℤ → Bool) → (ℤ → List ℕ × ℤ) → List EventNode → GateWorker → Option GateWorker
  handle_ioevents added_ok peer [] w = some w
  handle_ioevents added_ok peer (ev ∷ evs) w = elim ev.event.connect [
    | false ↦ handle_ioevents added_ok peer evs w
    | true ↦ elim (on_new_connect added_ok peer ev w) [
      | none ↦ none
      | some w' ↦ handle_ioevents added_ok peer evs w'
    ]
  ]

  unfoldable pub handler_ioevent : (ℤ → Bool) → (ℤ → List ℕ × ℤ) → GateWorker → Option GateWorker
  handler_ioevent added_ok peer w =
      handle_ioevents added_ok peer w.ioevs_in (record w { ioevs_in = [] })

  unfoldable pub on_conn_offline : UserPtr → GateWorker → Option GateWorker
  on_conn_offline user w = elim (sock_of user w) [
    | none ↦ none
    | some sock ↦
        let w1 : GateWorker = record w { users = del_conn w.heap sock.sfd w.users } in
        elim sock.kind [
          | client_system ↦ some w1
          | _ ↦ elim (offline_msg (w.heap.at user).uid w1) [
            | none ↦ none
            | some msg ↦ some (record w1 {
              user_msgs_in = w1.user_msgs_in ++ (msg ∷ []);
              fd_set = del_fd sock.sfd w1.fd_set;
            })
          ]
        ]
  ]

  unfoldable pub kick_out : UserPtr → GateWorker → Option GateWorker
  kick_out user w = elim (sock_of user w) [
    | none ↦ none
    | some sock ↦ on_conn_offline user (record w { tcp = close_op sock.sfd w.tcp })
  ]

  -- An event of epoll: it is noted in the connection, and the user waits for `event_op`.
  unfoldable pub note_event : Polled → GateWorker → Option GateWorker
  note_event ev w =
      let user = get_user_by_sock ev.fd w.users in
      elim (user == 0) [
        | true ↦ some w
        | false ↦ elim (sock_of user w) [
          | none ↦ none
          | some sock ↦
              let event = fd_or sock.event (fd_event ev) in
              let w1 = set_node user (record sock { event = event }) w in
              if event.read || (event.write || (event.connect || event.error))
              then some (record w1 { epev_users = w1.epev_users ++ (user ∷ []) })
              else some w1
        ]
      ]

  unfoldable pub operate :
      (ℤ → List ReadRet) → (ℤ → List WriteRet) → UserPtr → GateWorker → Option GateWorker
  operate reads writes user w = elim (sock_of user w) [
    | none ↦ none
    | some sock ↦ elim (event_op (reads sock.sfd) (writes sock.sfd) w.tcp sock) [
      | none ↦ none
      | some o ↦
          let w1 : GateWorker = record (set_node user o.node w) {
            tcp = o.tcp;
            wire = w.wire ++ ((sock.sfd, o.wire) ∷ []);
          } in
          elim o.ret.error [
            | true ↦ on_conn_offline user w1
            | false ↦ elim o.ret.read [
              | true ↦ some (record w1 { rd_users = w1.rd_users ++ (user ∷ []) })
              | false ↦ some w1
            ]
          ]
    ]
  ]

  unfoldable pub note_events : List Polled → GateWorker → Option GateWorker
  note_events [] w = some w
  note_events (ev ∷ evs) w = elim (note_event ev w) [ none ↦ none | some w' ↦ note_events evs w' ]

  unfoldable pub operate_all :
      (ℤ → List ReadRet) → (ℤ → List WriteRet) → List UserPtr → GateWorker → Option GateWorker
  operate_all reads writes [] w = some (record w { epev_users = [] })
  operate_all reads writes (user ∷ users) w = elim (operate reads writes user w) [
    | none ↦ none
    | some w' ↦ operate_all reads writes users w'
  ]

  unfoldable pub handler_epevent :
      (ℤ → List ReadRet) → (ℤ → List WriteRet) → List Polled → GateWorker → Option GateWorker
  handler_epevent reads writes evs w =
      note_events evs w >>= λ w1. operate_all reads writes w1.epev_users w1
