-- ===== src/Server/Logic/Io.antt =====
-- server/Logic/LogicIO.hpp, server/Logic/LogicIO.cpp: the thread of the logic server that is connected
-- to the gate. The answers of the kernel are arguments. `none` is a fault: a null pointer, or a message of
-- another kind than its number says.
pub mod Dispatch
pub mod Replies
pub mod Startup
pub mod InOrder
use rubo.Base.{
  ℕ, zero, suc, Bool, true, false, List, [], ◌∷◌, ◌++◌, Option, none, some, map, length, ◌==◌,
}
use rubo.Base.Int.{ℤ, pos, ◌==ℤ◌}
use rubo.Util.SocketNode.{
  SocketNode, new_node, client_system, FdEvent, fd_event_none, fd_event_read, fd_event_write, fd_or,
  to_int,
}
use rubo.Util.SocketOp.{ReadRet, WriteRet, Sent, write_msg}
use rubo.Util.TcpOp.{TcpOp, Op, event_op}
use rubo.Util.User.{User, connect_null}
use rubo.Msgs.UserMsg.{
  Text, UserMsg, Protobuf, Message, verify_req, verify_rsp, system_verify_req, system_verify_rsp,
}
use rubo.Msgs.MsgCenter.{MsgCenter, gen_msg, parse_package}
use rubo.Server.GateIo.{Polled, fd_event}
use rubo.Server.Balance.{get_worker}
use rubo.Server.MysqlDb.{bytes}
use rubo.Server.LogicWorker.{LogicWorker, is_uid_in, user_num, notify_msg_in}

-- `conn` is the connection to the gate, of `_conn_user`; `wire` are the bytes that were written to it.
pub record LogicIo : Type 0 where
  pub center : MsgCenter
  pub tcp : TcpOp
  pub conn : SocketNode
  pub workers : List LogicWorker
  pub wire : List ℕ

unfoldable pub add_worker : LogicWorker → LogicIo → LogicIo
add_worker work io = record io { workers = io.workers ++ (work ∷ []) }

-- The node of the connection that `init_net` makes.
unfoldable pub conn_node : ℤ → SocketNode
conn_node fd = record new_node { kind = client_system; sfd = fd }

-- The answer of the gate is only logged.
unfoldable pub on_verify_ret : UserMsg → LogicIo → Option LogicIo
on_verify_ret user_msg io = elim user_msg.msg [ verify_rsp _ ↦ some io | _ ↦ none ]

-- `work->_io_msgs.push_back(msg)`, at a place of the list of workers.
unfoldable pub push_io : ℕ → UserMsg → List LogicWorker → List LogicWorker
push_io i msg [] = []
push_io zero msg (w ∷ ws) = record w { io_msgs = w.io_msgs ++ (msg ∷ []) } ∷ ws
push_io (suc i) msg (w ∷ ws) = w ∷ push_io i msg ws

unfoldable pub worker_of : UserMsg → List LogicWorker → Option ℕ
worker_of msg workers = get_worker (is_uid_in msg.uid) user_num workers

unfoldable pub to_worker : UserMsg → LogicIo → Option LogicIo
to_worker msg io = elim (worker_of msg io.workers) [
  | none ↦ none
  | some i ↦ some (record io { workers = push_io i msg io.workers })
]

-- What is done with a message of the gate.
unfoldable pub route : UserMsg → LogicIo → Option LogicIo
route msg io = elim (msg.msg_id ==ℤ system_verify_rsp) [
  | true ↦ on_verify_ret msg io
  | false ↦ to_worker msg io
]

unfoldable pub route_all : List UserMsg → LogicIo → Option LogicIo
route_all [] io = some io
route_all (msg ∷ msgs) io = elim (route msg io) [ none ↦ none | some io' ↦ route_all msgs io' ]

-- The workers that got messages are woken.
unfoldable pub notify : LogicWorker → LogicWorker
notify w = elim (length w.io_msgs == 0) [ true ↦ w | false ↦ notify_msg_in w ]

unfoldable pub notify_all : LogicIo → LogicIo
notify_all io = record io { workers = map notify io.workers }

-- An event of epoll with the answers to the calls that it leads to.
pub record Event : Type 0 where
  pub polled : Polled
  pub reads : List ReadRet
  pub writes : List WriteRet

module _ (proto : Protobuf) where
  -- `event_op`, whose result is not used, and then the messages that are complete.
  unfoldable pub receive : Event → LogicIo → Option LogicIo
  receive ev io =
      let sock : SocketNode = record (io.conn) {
        event = fd_or io.conn.event (fd_event ev.polled);
      } in
      elim (event_op ev.reads ev.writes io.tcp sock) [
        | none ↦ none
        | some o ↦ elim (parse_package proto io.center o.node) [
          | none ↦ none
          | some (center, conn, msgs) ↦
              route_all msgs
                (record io { center = center; tcp = o.tcp; conn = conn; wire = io.wire ++ o.wire })
        ]
      ]

  -- An event of another descriptor is only logged.
  unfoldable pub handle_event : Event → LogicIo → Option LogicIo
  handle_event ev io = elim (ev.polled.fd ==ℤ io.tcp.sock_fd) [
    | false ↦ some io
    | true ↦ receive ev io
  ]

  unfoldable pub handle_events : List Event → LogicIo → Option LogicIo
  handle_events [] io = some io
  handle_events (ev ∷ evs) io = elim (handle_event ev io) [
    | none ↦ none
    | some io' ↦ handle_events evs io'
  ]

  unfoldable pub handler_epevent : List Event → LogicIo → Option LogicIo
  handler_epevent evs io = elim (handle_events evs io) [
    | none ↦ none
    | some io' ↦ some (notify_all io')
  ]

  unfoldable pub write_to_gate : List WriteRet → UserMsg → LogicIo → Option (LogicIo × FdEvent)
  write_to_gate script msg io = elim (write_msg proto script io.tcp.sock io.conn msg) [
    | none ↦ none
    | some (sock, sent) ↦ some (
      record io {
        tcp = record (io.tcp) { sock = sock };
        conn = sent.node;
        wire = io.wire ++ sent.wire;
      },
      sent.ret,
    )
  ]

  -- Whether the kernel took the request. Its type is known, or `gen_msg` gives a null pointer.
  unfoldable pub verify_to_gate : List WriteRet → LogicIo → Option (LogicIo × Bool)
  verify_to_gate script io = elim (gen_msg proto io.center.names system_verify_req) [
    | none ↦ none
    | some req ↦ elim req.msg [
      | verify_req _ ↦
          elim (write_to_gate script
            (record req { msg = verify_req (bytes "00:01:02:03:04:05:06:07") }) io) [
              | none ↦ none
              | some (io', ret) ↦ some (io', to_int ret == 0)
            ]
      | _ ↦ none
    ]
  ]
