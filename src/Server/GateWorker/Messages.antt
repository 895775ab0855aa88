-- ===== src/Server/GateWorker/Messages.antt =====
-- server/Gate/GateWorker.cpp: the messages between users and the logic server, and a round of the
-- thread.
use rubo.Base.{ℕ, suc, Bool, true, false, List, [], ◌∷◌, ◌++◌, Option, none, some, ◌==◌}
use rubo.Base.Int.{ℤ, ◌==ℤ◌}
use rubo.Base.Fault.{◌>>=◌}
use rubo.Util.SocketNode.{SocketNode, ClientType, client_system}
use rubo.Util.SocketOp.{ReadRet, WriteRet, write_msg}
use rubo.Util.User.{UserPtr}
use rubo.Util.UserManager.{get_user_by_uid}
use rubo.Msgs.UserMsg.{UserMsg, Protobuf}
use rubo.Msgs.MsgCenter.{parse_package}
use rubo.Server.GateIo.{Polled}
use rubo.Server.GateWorker.{GateWorker, sock_of, set_node, handler_ioevent, handler_epevent}

-- Where a message goes that came from a connection of a kind, and of a user with the number `uid`.
unfoldable pub sort_msg : ClientType → ℤ → UserMsg → GateWorker → GateWorker
sort_msg kind uid m w = elim kind [
  | client_system ↦ record w { logic_msgs_in = w.logic_msgs_in ++ (m ∷ []) }
  | _ ↦ elim (uid ==ℤ m.uid) [
    | false ↦ w
    | true ↦ record w { user_msgs_in = w.user_msgs_in ++ (m ∷ []) }
  ]
]

unfoldable pub sort_msgs : ClientType → ℤ → List UserMsg → GateWorker → GateWorker
sort_msgs kind uid [] w = w
sort_msgs kind uid (m ∷ ms) w = sort_msgs kind uid ms (sort_msg kind uid m w)

module _ (proto : Protobuf) where
  -- The body of the loop of `handler_epdata`, over `_rd_users`, which is not cleared.
  unfoldable pub parse_user : UserPtr → GateWorker → Option GateWorker
  parse_user user w = elim (sock_of user w) [
    | none ↦ none
    | some sock ↦ elim (parse_package proto w.center sock) [
      | none ↦ none
      | some (center, sock', msgs) ↦ some (
          sort_msgs sock.kind (w.heap.at user).uid msgs
            (set_node user sock' (record w { center = center })))
    ]
  ]

  unfoldable pub handler_epdata : List UserPtr → GateWorker → Option GateWorker
  handler_epdata [] w = some w
  handler_epdata (user ∷ users) w = elim (parse_user user w) [
    | none ↦ none
    | some w' ↦ handler_epdata users w'
  ]

  -- A message that is written to the connection of a user.
  unfoldable pub write_to :
      (ℤ → List WriteRet) → UserPtr → SocketNode → UserMsg → GateWorker → Option GateWorker
  write_to writes user sock msg w = elim (write_msg proto (writes sock.sfd) w.tcp.sock sock msg) [
    | none ↦ none
    | some (op, sent) ↦ some (record (set_node user sent.node w) {
      tcp = record (w.tcp) { sock = op };
      wire = w.wire ++ ((sock.sfd, sent.wire) ∷ []);
    })
  ]

  -- Each message is a `write` of its own, with the next answers of the kernel: `writes` has them by the number
  -- of messages before.
  unfoldable pub to_logic : (ℕ → ℤ → List WriteRet) → List UserMsg → GateWorker → Option GateWorker
  to_logic writes [] w = some (record w { user_msgs_in = [] })
  to_logic writes (msg ∷ msgs) w = elim (sock_of w.logic w) [
    | none ↦ none
    | some sock ↦ elim (write_to (writes 0) w.logic sock msg w) [
      | none ↦ none
      | some w' ↦ to_logic (λ k. writes (suc k)) msgs w'
    ]
  ]

  -- A message of the logic server goes to the user that it names, if there is one with a connection.
  unfoldable pub deliver_to :
      (ℤ → List WriteRet) → UserPtr → UserMsg → GateWorker → Option GateWorker
  deliver_to writes user msg w = elim (user == 0) [
    | true ↦ some w
    | false ↦ elim (sock_of user w) [ none ↦ some w | some sock ↦ write_to writes user sock msg w ]
  ]

  unfoldable pub deliver : (ℤ → List WriteRet) → UserMsg → GateWorker → Option GateWorker
  deliver writes msg w = deliver_to writes (get_user_by_uid msg.uid w.users) msg w

  unfoldable pub to_users : (ℕ → ℤ → List WriteRet) → List UserMsg → GateWorker → Option GateWorker
  to_users writes [] w = some (record w { logic_msgs_in = [] })
  to_users writes (msg ∷ msgs) w = elim (deliver (writes 0) msg w) [
    | none ↦ none
    | some w' ↦ to_users (λ k. writes (suc k)) msgs w'
  ]

  unfoldable pub handler_msgs :
      (ℕ → ℤ → List WriteRet) → (ℕ → ℤ → List WriteRet) → GateWorker → Option GateWorker
  handler_msgs logic_writes user_writes w =
      to_logic logic_writes w.user_msgs_in w >>= λ w1. to_users user_writes w1.logic_msgs_in w1

-- What the kernel answers in one round.
pub record Answers : Type 0 where
  pub added_ok : ℤ → Bool
  pub peer : ℤ → List ℕ × ℤ
  pub polled : List Polled
  pub reads : ℤ → List ReadRet
  pub writes : ℤ → List WriteRet
  pub logic_writes : ℕ → ℤ → List WriteRet
  pub user_writes : ℕ → ℤ → List WriteRet

-- One round of the thread.
unfoldable pub thread_loop : Protobuf → Answers → GateWorker → Option GateWorker
thread_loop proto a w = do
  w1 ← handler_ioevent proto a.added_ok a.peer w
  w2 ← handler_epevent proto a.reads a.writes a.polled w1
  w3 ← handler_epdata proto w2.rd_users w2
  handler_msgs proto a.logic_writes a.user_writes w3
