-- ===== src/Util/TcpOp.antt =====
-- util/TcpOp.hpp, util/TcpOp.cpp: a server's, a client's or a worker's connections. The answers of
-- the kernel to `read`, `write` and `accept4` are arguments.
pub mod Events
pub mod NeverOut
pub mod Setup
pub mod Descriptors
pub mod Opening
use rubo.Base.{
  ℕ, Bool, true, false, List, [], ◌∷◌, ◌++◌, Option, none, some, ltb, ◌==◌, if◌then◌else◌,
}
use rubo.Base.Int.{ℤ, pos, negsuc, ◌==ℤ◌}
use rubo.Base.Fault.{◌>>=◌}
use rubo.Util.RingBuff.{data_size}
use rubo.Util.SocketNode.{
  SocketNode, new_node, client_null, FdEvent, fd_event_none, fd_event_read, fd_event_error, fd_or,
  to_int,
}
use rubo.Util.SocketOp.{SocketOp, ReadRet, WriteRet, Sent, new_socket_op, read, write_pending}
use rubo.Util.EpollOp.{Trace, epoll_add, epoll_del, epoll_in, epoll_out, close_fd}

pub data TcpNetType : Type 0 where
  tcp_type_null tcp_type_client tcp_type_server tcp_type_epoll : TcpNetType

pub record TcpOp : Type 0 where
  pub net_type : TcpNetType
  pub sock_fd : ℤ
  pub ip_addr : List ℕ
  pub ip_port : ℤ
  pub sock : SocketOp
  pub epoll_fd : ℤ
  pub calls : Trace

unfoldable pub new_tcp_op : TcpNetType → TcpOp
new_tcp_op type = record {
  net_type = type;
  sock_fd = pos 0;
  ip_addr = [];
  ip_port = pos 0;
  sock = new_socket_op;
  epoll_fd = pos 0;
  calls = [];
}

unfoldable pub set_addr : List ℕ → ℤ → TcpOp → TcpOp
set_addr ip port t = record t { ip_addr = ip; ip_port = port }

-- The guard of `init`: an address is needed unless the object only polls.
unfoldable pub is_configured : TcpOp → Bool
is_configured t = elim t.net_type [
  | tcp_type_null ↦ false
  | tcp_type_epoll ↦ true
  | _ ↦ elim t.ip_addr [ [] ↦ false | _ ∷ _ ↦ if t.ip_port ==ℤ pos 0 then false else true ]
]

unfoldable pub close_op : ℤ → TcpOp → TcpOp
close_op fd t = record t { calls = epoll_del fd (close_fd fd t.calls) }

unfoldable pub del_epev : ℤ → TcpOp → TcpOp
del_epev fd t = record t { calls = epoll_del fd t.calls }

unfoldable pub add_epev : (ℤ → Bool) → ℤ → TcpOp → TcpOp × Bool
add_epev added_ok fd t =
    let (calls, ok) = epoll_add added_ok fd t.calls in (record t { calls = calls }, ok)

-- What `accept4` answers: a descriptor or a negative number, and the address of the peer.
pub record Accept4 : Type 0 where
  pub conn_fd : ℤ
  pub peer_ip : List ℕ
  pub peer_port : ℤ

-- `SocketOp::accept`
unfoldable pub sock_accept : Accept4 → Option SocketNode
sock_accept answer = elim answer.conn_fd [
  | negsuc _ ↦ none
  | pos fd ↦ some (record new_node {
    sfd = pos fd;
    ip = answer.peer_ip;
    port = answer.peer_port;
    kind = client_null;
  })
]

-- The tests on a connection that was accepted: `options_ok` is the result of `set_options` for it.
unfoldable pub accept_node :
    (ℤ → Bool) → (ℤ → Bool) → SocketNode → TcpOp → TcpOp × Option SocketNode
accept_node options_ok added_ok conn_node t = elim (options_ok conn_node.sfd) [
  | false ↦ (record t { calls = close_fd conn_node.sfd t.calls }, none)
  | true ↦
      let (t1, ok) = add_epev added_ok conn_node.sfd t in
      elim ok [
        | false ↦ (record t1 { calls = close_fd conn_node.sfd t1.calls }, none)
        | true ↦ (t1, some conn_node)
      ]
]

unfoldable pub accept : (ℤ → Bool) → (ℤ → Bool) → Accept4 → TcpOp → TcpOp × Option SocketNode
accept options_ok added_ok answer t = elim t.net_type [
  | tcp_type_server ↦ elim (sock_accept answer) [
    | none ↦ (t, none)
    | some conn_node ↦ accept_node options_ok added_ok conn_node t
  ]
  | _ ↦ (t, none)
]

-- What the parts of `event_op` hand on: the object, the node, the bytes on the wire, `ret`.
pub record Op : Type 0 where
  pub tcp : TcpOp
  pub node : SocketNode
  pub wire : List ℕ
  pub ret : FdEvent

-- The part for reading: FD_EVENT_READ is set even if the read failed.
unfoldable pub read_part : List ReadRet → TcpOp → SocketNode → Option Op
read_part script t node = elim node.event.read [
  | false ↦ some (record { tcp = t; node = node; wire = []; ret = fd_event_none })
  | true ↦ elim (read script t.sock node) [
    | none ↦ none
    | some (sock, node', ret) ↦ some (record {
      tcp = record t { sock = sock };
      node = node';
      wire = [];
      ret = fd_or (fd_or fd_event_none ret) fd_event_read;
    })
  ]
]

-- `write` and then a call of epoll that depends on its result.
unfoldable pub write_then : (FdEvent → ℤ → Trace → Trace) → List WriteRet → Op → Option Op
write_then poll script o = elim (write_pending script o.tcp.sock o.node) [
  | none ↦ none
  | some (sock, sent) ↦ some (record {
    tcp = record (o.tcp) { sock = sock; calls = poll sent.ret sent.node.sfd o.tcp.calls };
    node = sent.node;
    wire = o.wire ++ sent.wire;
    ret = fd_or o.ret sent.ret;
  })
]

-- `(wt_ret & FD_EVENT_WRITE) == false`
unfoldable pub poll_in : FdEvent → ℤ → Trace → Trace
poll_in wt_ret fd t = if (if wt_ret.write then 2 else 0) == 0 then epoll_in fd t else t

-- `(wt_ret & FD_EVENT_WRITE) == true`, where `true` is the `int` 1
unfoldable pub poll_out : FdEvent → ℤ → Trace → Trace
poll_out wt_ret fd t = if (if wt_ret.write then 2 else 0) == 1 then epoll_out fd t else t

-- The part for writing.
unfoldable pub write_part : List WriteRet → Op → Option Op
write_part script o =
    if o.node.event.write
    then write_then poll_in script o
    else (if ltb 0 (data_size o.node.wt_buff) then write_then poll_out script o else some o)

-- The end: the events are cleared, and a failed connection is closed.
unfoldable pub finish : Op → Op
finish o =
    let node : SocketNode = record (o.node) { event = fd_event_none; op_ret = fd_event_none } in
    elim o.ret.error [
      | true ↦ record o { tcp = close_op node.sfd o.tcp; node = node; ret = fd_event_error }
      | false ↦ record o { node = node }
    ]

unfoldable pub event_op : List ReadRet → List WriteRet → TcpOp → SocketNode → Option Op
event_op reads writes t node =
    read_part reads t node >>= λ o. (write_part writes o >>= λ o'. some (finish o'))
