-- ===== src/Server/GateIo.antt =====
-- server/Gate/GateIO.hpp, server/Gate/GateIO.cpp: the thread that accepts connections and keeps them
-- until they are logged in or verified. The answers of the kernel, by descriptor, and the events of
-- epoll are arguments. `none` is a fault.
pub mod Round
pub mod Startup
pub mod Stopping
pub mod Guards
pub mod HandOver
use rubo.Base.{
  ℕ, zero, suc, Bool, true, false, not, ◌||◌, List, [], ◌∷◌, ◌++◌, map, Option, none, some, length,
  ◌==◌, if◌then◌else◌,
}
use rubo.Base.Int.{ℤ, pos, ◌==ℤ◌}
use rubo.Base.Fault.{◌>>=◌}
use rubo.Util.IdMap.{IdMap, lookup, erase}
use rubo.Util.RingBuff.{data_size}
use rubo.Util.SocketNode.{
  SocketNode, FdEvent, EventNode, fd_event_none, fd_event_read, fd_event_write, fd_event_connect,
  fd_or,
}
use rubo.Util.SocketOp.{ReadRet, WriteRet, write_msg}
use rubo.Util.TcpOp.{TcpOp, Accept4, accept, close_op, del_epev, event_op}
use rubo.Util.User.{User, UserPtr, Users, new_user, set_user, alloc_user}
use rubo.Msgs.UserMsg.{
  UserMsg, Protobuf, verify_rsp, login_rsp, user_login_req, user_register_req, system_verify_req,
  user_login_rsp, system_verify_rsp,
}
use rubo.Msgs.MsgCenter.{MsgCenter, parse_package}
use rubo.Server.MysqlDb.{Driver}
use rubo.Server.Gate.{Handler, GateState, get_msg_handler, handle}
use rubo.Server.Balance

-- A GateWorker, as far as this thread uses it.
pub record Worker : Type 0 where
  pub logic_fd : ℤ
  pub fd_set : List ℤ
  pub events_io : List EventNode
  pub ioevs_in : List EventNode

unfoldable pub new_worker : ℤ → Worker
new_worker fd = record { logic_fd = fd; fd_set = []; events_io = []; ioevs_in = [] }

unfoldable pub is_fd_in : ℤ → List ℤ → Bool
is_fd_in fd [] = false
is_fd_in fd (k ∷ ks) = k ==ℤ fd || is_fd_in fd ks

-- A `set<int>` has each number once.
unfoldable pub add_fd : ℤ → List ℤ → List ℤ
add_fd fd ks = if is_fd_in fd ks then ks else fd ∷ ks

unfoldable pub get_worker : ℤ → List Worker → Option ℕ
get_worker sfd ws =
    Balance.get_worker (λ w. is_fd_in sfd w.fd_set || w.logic_fd ==ℤ sfd) (λ w. length w.fd_set) ws

-- To change the worker at a place.
unfoldable pub update_at : ℕ → (Worker → Worker) → List Worker → List Worker
update_at i f [] = []
update_at zero f (w ∷ ws) = f w ∷ ws
update_at (suc i) f (w ∷ ws) = w ∷ update_at i f ws

-- An event of epoll, with the bits that are tested.
pub record Polled : Type 0 where
  pub fd : ℤ
  pub epollin : Bool
  pub epollpri : Bool
  pub epollout : Bool
  pub epollerr : Bool
  pub epollhup : Bool

unfoldable pub fd_event : Polled → FdEvent
fd_event ev =
    fd_or (if ev.epollin || ev.epollpri then fd_event_read else fd_event_none)
      (if ev.epollout || (ev.epollerr || ev.epollhup) then fd_event_write else fd_event_none)

-- What the thread keeps; `wire` are the bytes that were written, by descriptor.
pub record GateIo (State : Type 0) : Type 0 where
  pub gate : GateState State
  pub center : MsgCenter
  pub handlers : IdMap Handler
  pub tcp : TcpOp
  pub unlogin_users : IdMap UserPtr
  pub unlogin_events : List UserPtr
  pub unlogin_reads : List UserPtr
  pub workers : List Worker
  pub wire : List (ℤ × List ℕ)

-- `insert` keeps an entry that is there.
unfoldable pub insert : ℤ → UserPtr → IdMap UserPtr → IdMap UserPtr
insert k user m = elim (lookup k m) [ some _ ↦ m | none ↦ (k, user) ∷ m ]

unfoldable pub add_event : EventNode → Worker → Worker
add_event ev w = record w { events_io = w.events_io ++ (ev ∷ []) }

-- A worker takes over a connection.
unfoldable pub take_over : ℤ → ℤ → Worker → Worker
take_over fd uid w = record w {
  events_io = w.events_io ++ (record { sfd = fd; uid = uid; event = fd_event_connect } ∷ []);
  fd_set = add_fd fd w.fd_set;
}

-- `move_io_event_to_in`, under the lock of the worker.
unfoldable pub notify_worker : Worker → Worker
notify_worker w = elim w.events_io [
  | [] ↦ w
  | ev ∷ evs ↦ record w { ioevs_in = w.ioevs_in ++ (ev ∷ evs); events_io = [] }
]

module _ {State : Type 0} where
  unfoldable pub get_unlogin_user : ℤ → GateIo State → Option UserPtr
  get_unlogin_user sfd g = lookup sfd g.unlogin_users

  unfoldable pub set_node : UserPtr → SocketNode → GateIo State → GateIo State
  set_node user sock g = record g {
    gate = record (g.gate) {
      users = set_user g.gate.users user (record (g.gate.users.at user) { sock = some sock });
    };
  }

  -- The connection of a user, which the code dereferences.
  unfoldable pub sock_of : UserPtr → GateIo State → Option SocketNode
  sock_of user g = (g.gate.users.at user).sock

  unfoldable pub on_accept : (ℤ → Bool) → (ℤ → Bool) → Accept4 → GateIo State → GateIo State
  on_accept options_ok added_ok answer g =
      let (tcp, conn_node) = accept options_ok added_ok answer g.tcp in
      elim conn_node [
        | none ↦ record g { tcp = tcp }
        | some node ↦
            let (user, users) = alloc_user g.gate.users (record new_user { sock = some node }) in
            record g {
              tcp = tcp;
              gate = record (g.gate) { users = users };
              unlogin_users = insert node.sfd user g.unlogin_users;
            }
      ]

  -- Two pointers are erased by key; an absent key changes nothing.
  unfoldable pub on_conn_offline : ℤ → GateIo State → GateIo State
  on_conn_offline sock_fd g = record g { unlogin_users = erase sock_fd g.unlogin_users }

  unfoldable pub kick_out : ℤ → GateIo State → GateIo State
  kick_out sock_fd g = on_conn_offline sock_fd (record g { tcp = close_op sock_fd g.tcp })

  unfoldable pub unlogin_sockop : UserPtr → Polled → GateIo State → Option (GateIo State)
  unlogin_sockop user ev g = elim (sock_of user g) [
    | none ↦ none
    | some sock ↦
        let g1 = set_node user (record sock { event = fd_or sock.event (fd_event ev) }) g in
        some (record g1 { unlogin_events = g1.unlogin_events ++ (user ∷ []) })
  ]

  unfoldable pub logined_sockop : Polled → GateIo State → GateIo State
  logined_sockop ev g = elim (get_worker ev.fd g.workers) [
    | none ↦ g
    | some i ↦ record g {
      workers =
          update_at i (add_event (record { sfd = ev.fd; uid = pos 0; event = fd_event ev }))
            g.workers;
    }
  ]

  -- One event: of the listening descriptor, of a connection before its login, or of another.
  unfoldable pub poll_one :
      (ℤ → Bool) → (ℤ → Bool) → Accept4 → Polled → GateIo State → Option (GateIo State)
  poll_one options_ok added_ok answer ev g = elim (ev.fd ==ℤ g.tcp.sock_fd) [
    | true ↦ some (on_accept options_ok added_ok answer g)
    | false ↦ elim (get_unlogin_user ev.fd g) [
      | some user ↦ unlogin_sockop user ev g
      | none ↦ some (logined_sockop ev g)
    ]
  ]

  unfoldable pub on_logic_verifyed : (ℤ → Bool) → ℤ → GateIo State → GateIo State
  on_logic_verifyed init_ok logic_fd g =
      let g1 : GateIo State = record g {
        unlogin_users = erase logic_fd g.unlogin_users;
        tcp = del_epev logic_fd g.tcp;
      } in
      elim (init_ok logic_fd) [
        | false ↦ g1
        | true ↦ record g1 { workers = g1.workers ++ (new_worker logic_fd ∷ []) }
      ]

  unfoldable pub on_user_logined : ℤ → ℤ → GateIo State → GateIo State
  on_user_logined fd uid g =
      let g1 : GateIo State = record g { unlogin_users = erase fd g.unlogin_users } in
      elim (get_worker fd g1.workers) [
        | none ↦ g1
        | some i ↦ record g1 {
          workers = update_at i (take_over fd uid) g1.workers;
          tcp = del_epev fd g1.tcp;
        }
      ]

  unfoldable pub notify_workers : GateIo State → GateIo State
  notify_workers g = record g { workers = map notify_worker g.workers }
