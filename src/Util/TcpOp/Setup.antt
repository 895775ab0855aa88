-- ===== src/Util/TcpOp/Setup.antt =====
-- util/TcpOp.cpp: opening and closing. The answers of the kernel are arguments.
use rubo.Base.{Bool, true, false, List, [], ◌∷◌, if◌then◌else◌}
use rubo.Base.Int.{ℤ, is_positive}
use rubo.Util.EpollOp.{Trace, epoll_add, epoll_init, epoll_unit, close_fd}
use rubo.Util.SocketOp.Sockets.{
  set_options, set_nodelay, is_negative, ListenAnswers, create_listen, ConnectAnswers, connect_to,
}
use rubo.Util.TcpOp.{tcp_type_client, tcp_type_server, tcp_type_epoll, TcpOp, is_configured}

-- One call of `connect_to`: the result of `getaddrinfo`, and the answers for its addresses.
pub record Attempt : Type 0 where
  pub rv : ℤ
  pub addresses : List ConnectAnswers

-- What the kernel answers to one call of `init`. The attempts are at most three.
pub record InitAnswers : Type 0 where
  pub created : ℤ
  pub listens : ListenAnswers
  pub attempts : List Attempt
  pub flags : ℤ
  pub set_flags : ℤ
  pub nodelay : ℤ
  pub added_ok : ℤ → Bool

unfoldable pub unit : TcpOp → TcpOp
unit t = record t {
  calls =
      epoll_unit t.epoll_fd (if is_positive t.sock_fd then close_fd t.sock_fd t.calls else t.calls);
}

-- The test of `init_server` on what `create_listen` gave.
unfoldable pub listening : TcpOp → Trace × ℤ → TcpOp × Bool
listening t (calls, sock_fd) =
    let t' : TcpOp = record t { sock_fd = sock_fd; calls = calls } in
    elim (is_negative sock_fd) [ true ↦ (unit t', false) | false ↦ (t', true) ]

unfoldable pub init_server : ListenAnswers → TcpOp → TcpOp × Bool
init_server a t = listening t (create_listen a t.calls)

-- The loop for a connection, over the attempts that are left.
unfoldable pub try_connect : List Attempt → TcpOp → TcpOp
try_connect [] t = t
try_connect (a ∷ others) t =
    let (calls, sock_fd) = connect_to a.rv a.addresses t.calls in
    let t' : TcpOp = record t { sock_fd = sock_fd; calls = calls } in
    elim (is_positive sock_fd) [ true ↦ t' | false ↦ try_connect others t' ]

unfoldable pub init_client : InitAnswers → TcpOp → TcpOp × Bool
init_client a t =
    let t' = try_connect a.attempts t in
    (t', if set_options a.flags a.set_flags then set_nodelay a.nodelay else false)

-- The results of the two are not used.
unfoldable pub open_socket : InitAnswers → TcpOp → TcpOp
open_socket a t = elim t.net_type [
  | tcp_type_client ↦ (init_client a t).0
  | tcp_type_server ↦ (init_server a.listens t).0
  | _ ↦ t
]

-- A step that failed closes what is open.
unfoldable pub or_unit : TcpOp → Bool → TcpOp × Bool
or_unit t true = (t, true)
or_unit t false = (unit t, false)

-- The socket is given to epoll.
unfoldable pub watch : InitAnswers → TcpOp → TcpOp × Bool
watch a t =
    let (calls, added) = epoll_add a.added_ok t.sock_fd t.calls in
    or_unit (record t { calls = calls }) added

-- The end of `init`: an object that only polls has no socket of its own.
unfoldable pub watch_socket : InitAnswers → TcpOp → TcpOp × Bool
watch_socket a t = elim t.net_type [ tcp_type_epoll ↦ (t, true) | _ ↦ watch a t ]

unfoldable pub init_epoll : InitAnswers → TcpOp → TcpOp × Bool
init_epoll a t =
    let (calls, epoll_fd, ok) = epoll_init a.created t.calls in
    or_unit (record t { epoll_fd = epoll_fd; calls = calls }) ok

unfoldable pub after_epoll : InitAnswers → TcpOp × Bool → TcpOp × Bool
after_epoll a (t, false) = (t, false)
after_epoll a (t, true) = watch_socket a (open_socket a t)

unfoldable pub init : InitAnswers → TcpOp → TcpOp × Bool
init a t = elim (is_configured t) [ false ↦ (t, false) | true ↦ after_epoll a (init_epoll a t) ]
