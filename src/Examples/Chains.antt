-- ===== src/Examples/Chains.antt =====
-- The way of replies, the parser on any bytes, the import of files and the encryption, at concrete inputs.
use rubo.Base.{
  ℕ, ◌≡◌, refl, inr, true, false, List, [], ◌∷◌, ◌++◌, Option, none, some, map, arith, take, drop,
  ap, length, length-take,
}
use mathlib.Core.Path.{subst}
use mathlib.Core.Option.{some-injective}
use rubo.Base.Int.{ℤ, pos}
use rubo.Util.RingBuff.Refine.{new_ring-Holds}
use rubo.Util.LineBuffer.{clean_data, new_line}
use rubo.Util.SocketNode.{SocketNode, new_node, client_system, fd_event_read}
use rubo.Util.SocketOp.{
  ReadRet, got, WriteRet, wrote, new_socket_op, one_len, asked_size, read_size, store_read,
}
use rubo.Util.SocketOp.Receive.{received, ended, Conforms}
use rubo.Util.TcpOp.{new_tcp_op, tcp_type_client, tcp_type_epoll}
use rubo.Util.User.{Users, logined}
use rubo.Util.UserManager.{new_manager}
use rubo.Util.Encrypt.{KeyAnswers, Encrypt, new_encrypt, init, init_pri, init_key}
use rubo.Util.Encrypt.Blocks.{
  encodes, decodes, run_calls, all_given, IsBounded, AreReady, init-run_calls,
}
use rubo.Msgs.UserMsg.{Text}
use rubo.Msgs.MsgCenter.{new_center, parse_package}
use rubo.Msgs.MsgCenter.Stream.{frames, received_on}
use rubo.Msgs.MsgCenter.Any.{Returned, parse_package-any}
use rubo.Msgs.MsgCenter.Import.{Files, opened, closed, is_same, is_dots, init_google_protos}
use rubo.Msgs.MsgCenter.Import.Closed.{AllDirs, HasDepth, Ends, init_google_protos-Ends}
use rubo.Msgs.MsgCenter.Import.Flat.{NoneBehind, import_all, init_google_protos-flat}
use rubo.Server.MysqlDb.{bytes}
use rubo.Server.GateWorker.{GateWorker, sock_of, operate}
use rubo.Server.GateWorker.Messages.{parse_user}
use rubo.Server.LogicWorker.{LogicWorker, handler_reply}
use rubo.Server.Logic.Io.{LogicIo}
use rubo.Server.Logic.Io.Replies.{handler_worker_msgs}
use rubo.Server.Logic.Io.InOrder.{IsOpen}
use rubo.Server.Chain.{IsReadable, replies_arrive}
use rubo.Examples.Wire.{tiny_proto, online, new_op-IsValid, new_op-size, new_wt-IsValid, line_of}
use rubo.Examples.Sessions.{worker}
use rubo.Examples.Parser.{
  bad, stuck_node, stuck_node-Holds, new_center-IsDoubled, online-IsSendable,
}

abbrev pub io : LogicIo
io = record {
  center = new_center;
  tcp = new_tcp_op tcp_type_client;
  conn = record new_node { sfd = pos 5 };
  workers = [];
  wire = [];
}

io-IsOpen : IsOpen io
unfolding new_tcp_op
io-IsOpen = record { writable = unfold new_node in refl; block = new_wt-IsValid }

abbrev pub from_logic : SocketNode
from_logic = record new_node { sfd = pos 3; kind = client_system; event = fd_event_read }

abbrev pub heap : Users
heap = record {
  at = λ p. record { uid = pos 0; conn_status = logined; sock = some from_logic };
  next = 2;
}

abbrev pub gate : GateWorker
gate = record {
  logic_fd = pos 3;
  center = new_center;
  tcp = new_tcp_op tcp_type_epoll;
  heap = heap;
  logic = 1;
  users = new_manager;
  user_msgs_in = [];
  logic_msgs_in = [];
  ioevs_in = [];
  fd_set = [];
  epev_users = [];
  rd_users = [];
  wire = [];
}

gate-IsReadable : IsReadable gate from_logic []
unfolding sock_of new_tcp_op new_node
gate-IsReadable = record {
  there = refl;
  from_logic = refl;
  readable = refl;
  idle = new_ring-Holds;
  bytes = new_ring-Holds;
  block = new_op-IsValid;
  small = new_op-size;
  parse_block = new_center-IsDoubled;
}

abbrev replying : LogicWorker
replying = record (worker []) { out_msgs = online ∷ [] }

abbrev writes : List (List WriteRet)
writes = (wrote 14 ∷ []) ∷ []

abbrev no_writes : ℤ → List WriteRet
no_writes fd = []

-- The reply in two answers of `read`.
abbrev pub reads : ℤ → List ReadRet
reads fd =
    let reply = frames tiny_proto (online ∷ []) in got (take 5 reply) ∷ (got (drop 5 reply) ∷ [])

pub reads-Conforms : Conforms (clean_data gate.tcp.sock.rd_buff) 0 (reads (pos 3))
unfolding Conforms clean_data new_tcp_op new_socket_op new_line read_size asked_size store_read
    frames
reads-Conforms =
    (omega arith, omega arith, λ line e. rw (← line_of e) (omega arith, omega arith, λ l e'. tt))

replies_arrive_example :
    (io' : LogicIo) × (w1 : GateWorker) × (w2 : GateWorker) × (handler_worker_msgs tiny_proto writes
        (handler_reply [] replying).0
        io
      ≡ some (io', []))
    × (io'.wire ≡ [] ++ received (reads (pos 3)))
    × (operate tiny_proto reads no_writes 1 gate ≡ some w1)
    × (parse_user tiny_proto 1 w1 ≡ some w2)
    × (w2.logic_msgs_in ≡ [] ++ map (received_on tiny_proto (pos 3)) (online ∷ []))
    × (w2.user_msgs_in ≡ [])
unfolding one_len new_node received ended frames
replies_arrive_example =
    replies_arrive tiny_proto writes [] replying io reads no_writes gate from_logic io-IsOpen
      (omega arith, inr (refl, omega arith), tt) gate-IsReadable reads-Conforms refl refl
      (omega arith) (online-IsSendable, tt)

parse_package-any_example :
    Returned new_center stuck_node
      (frames tiny_proto (online ∷ []) ++ bad)
      (parse_package tiny_proto new_center stuck_node)
parse_package-any_example =
    parse_package-any tiny_proto new_center stuck_node _ stuck_node-Holds new_center-IsDoubled

-- A directory with a message file and a directory inside, whose path has no slash.
abbrev files : Files
files = record {
  opendir = λ path. elim (is_same path (bytes "d")) [
    | true ↦ some (bytes "a.proto" ∷ (bytes "b" ∷ []))
    | false ↦ elim (is_same path (bytes "db")) [ true ↦ some [] | false ↦ none ]
  ];
  lstat = λ path. some (is_same path (bytes "db"));
  import_file = λ path name. true;
}

files-HasDepth : HasDepth files 2 (bytes "d")
unfolding is_same is_dots bytes
files-HasDepth names e =
    subst (AllDirs files (HasDepth files 1) (bytes "d")) (some-injective _ _ e) (
      (λ d i. absurd (cc i)),
      (
        (λ d i names' e'.
            subst (AllDirs files (HasDepth files 0) (bytes "db")) (some-injective _ _ e') tt),
        tt,
      ),
    )

init_google_protos-Ends_example : Ends [] (init_google_protos files 2 (bytes "d"))
init_google_protos-Ends_example = init_google_protos-Ends files 2 (bytes "d") [] files-HasDepth

-- A directory with the same names, where "b" is a directory, under its real path.
abbrev slashed : Files
slashed = record {
  opendir = λ path. elim (is_same path (bytes "d")) [
    | true ↦ some (bytes "a.proto" ∷ (bytes "b" ∷ []))
    | false ↦ elim (is_same path (bytes "d/b")) [
      | true ↦ some (bytes "c.proto" ∷ [])
      | false ↦ none
    ]
  ];
  lstat = λ path. elim (is_same path (bytes "d/b")) [
    | true ↦ some true
    | false ↦ elim (is_same path (bytes "d")) [ true ↦ some true | false ↦ none ]
  ];
  import_file = λ path name. true;
}

slashed-NoneBehind : NoneBehind slashed (bytes "d") (bytes "a.proto" ∷ (bytes "b" ∷ []))
unfolding is_same bytes
slashed-NoneBehind = (λ e. absurd (cc e), (λ e. absurd (cc e), tt))

slashed-opendir : slashed.opendir (bytes "d") ≡ some (bytes "a.proto" ∷ (bytes "b" ∷ []))
unfolding is_same bytes
slashed-opendir = refl

init_google_protos-flat_example :
    init_google_protos slashed 1 (bytes "d")
    ≡ some (
      opened (bytes "d")
          ∷ ((import_all slashed (bytes "d") (bytes "a.proto" ∷ (bytes "b" ∷ []))).0
              ++ (closed (bytes "d") ∷ [])),
      (import_all slashed (bytes "d") (bytes "a.proto" ∷ (bytes "b" ∷ []))).1,
    )
init_google_protos-flat_example =
    init_google_protos-flat slashed 0 (bytes "d") (bytes "a.proto" ∷ (bytes "b" ∷ []))
      slashed-opendir slashed-NoneBehind

-- Keys of four bytes; a text is cut to them.
abbrev four : ℕ → ℕ
four key = 4

abbrev rsa : ℕ → Text → Option Text
rsa key src = some (take 4 src)

rsa-IsBounded : IsBounded four rsa
rsa-IsBounded key src out e = omega (arith, ap length (some-injective _ _ e), length-take 4 src)

abbrev key_answers : KeyAnswers ℕ
key_answers = record { file = true; new_key = some 0; read_key = some 5 }

key_answers-init : (init four key_answers key_answers new_encrypt).1 ≡ true
unfolding init init_pri init_key new_encrypt
key_answers-init = refl

init-run_calls_example :
    (public : ℕ) × (private : ℕ) × (some 5 ≡ some public)
    × (some 5 ≡ some private)
    × ((e' : Encrypt ℕ) × (run_calls four rsa rsa
            (encodes (1 ∷ []) ∷ (decodes (2 ∷ []) ∷ []))
            (init four key_answers key_answers new_encrypt).0
          ≡ some (
            e',
            all_given four rsa rsa public private (encodes (1 ∷ []) ∷ (decodes (2 ∷ []) ∷ [])),
          ))
        × AreReady four public private e')
init-run_calls_example =
    init-run_calls four rsa rsa key_answers key_answers new_encrypt
      (encodes (1 ∷ []) ∷ (decodes (2 ∷ []) ∷ [])) rsa-IsBounded rsa-IsBounded key_answers-init
