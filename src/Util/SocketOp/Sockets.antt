-- ===== src/Util/SocketOp/Sockets.antt =====
-- util/SocketOp.cpp: the creation of sockets and their options. The answers of the kernel are arguments;
-- what descriptors are opened and closed is a trace.
use rubo.Base.{Bool, true, false, not, List, [], ◌∷◌, ◌++◌, if◌then◌else◌}
use rubo.Base.Int.{ℤ, pos, negsuc, ◌==ℤ◌}
use rubo.Util.EpollOp.{Trace, opens, close_fd}

-- The answers of `fcntl` to F_GETFL and to F_SETFL; what `setsockopt` answers is not used.
unfoldable pub set_options : ℤ → ℤ → Bool
set_options flags ret = if flags ==ℤ negsuc 0 then false else not (ret ==ℤ negsuc 0)

unfoldable pub set_nodelay : ℤ → Bool
set_nodelay ret = not (ret ==ℤ negsuc 0)

-- A test for an error, `ret < 0`.
abbrev pub is_negative : ℤ → Bool
is_negative (pos n) = false
is_negative (negsuc n) = true

-- What the kernel answers to `socket`, `fcntl`, `bind` and `listen`.
pub record ListenAnswers : Type 0 where
  pub socket : ℤ
  pub flags : ℤ
  pub set_flags : ℤ
  pub bind : ℤ
  pub listen : ℤ

-- The tests on a new socket: the first that fails closes it.
unfoldable pub listen_on : ListenAnswers → ℤ → Trace → Trace × ℤ
listen_on a sock_fd t = elim (set_options a.flags a.set_flags) [
  | false ↦ (close_fd sock_fd t, negsuc 0)
  | true ↦ elim (is_negative a.bind) [
    | true ↦ (close_fd sock_fd t, negsuc 0)
    | false ↦ elim (is_negative a.listen) [
      | true ↦ (close_fd sock_fd t, negsuc 0)
      | false ↦ (t, sock_fd)
    ]
  ]
]

unfoldable pub create_listen : ListenAnswers → Trace → Trace × ℤ
create_listen a t = elim a.socket [
  | negsuc _ ↦ (t, negsuc 0)
  | pos fd ↦ listen_on a (pos fd) (t ++ (opens (pos fd) ∷ []))
]

-- The answers to `socket` and `connect` for one of the addresses.
pub record ConnectAnswers : Type 0 where
  pub socket : ℤ
  pub connect : ℤ

-- The loop over the addresses, with `sock_fd`.
unfoldable pub connect_loop : List ConnectAnswers → ℤ → Trace → Trace × ℤ
connect_loop [] sock_fd t = (t, sock_fd)
connect_loop (a ∷ others) sock_fd t = elim (is_negative a.socket) [
  | true ↦ connect_loop others a.socket t
  | false ↦ elim (is_negative a.connect) [
    | true ↦ connect_loop others (negsuc 0) (close_fd a.socket (t ++ (opens a.socket ∷ [])))
    | false ↦ (t ++ (opens a.socket ∷ []), a.socket)
  ]
]

-- The addresses are those of `getaddrinfo`, whose result is 0 if it found some.
unfoldable pub connect_to : ℤ → List ConnectAnswers → Trace → Trace × ℤ
connect_to rv others t = if rv ==ℤ pos 0 then connect_loop others (pos 0) t else (t, negsuc 0)
