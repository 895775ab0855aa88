-- ===== src/Server/GateIo/Round.antt =====
-- server/Gate/GateIO.cpp: the messages before login, the replies, and a round of the thread.
use rubo.Base.{
  Bool, true, false, ◌||◌, List, [], ◌∷◌, ◌++◌, Option, none, some, ◌==◌, if◌then◌else◌,
}
use rubo.Base.Int.{ℤ, ◌==ℤ◌}
use rubo.Base.Fault.{◌>>=◌}
use rubo.Util.RingBuff.{data_size}
use rubo.Util.SocketNode.{SocketNode}
use rubo.Util.SocketOp.{ReadRet, WriteRet, write_msg}
use rubo.Util.TcpOp.{Accept4, event_op}
use rubo.Util.User.{UserPtr}
use rubo.Msgs.UserMsg.{
  UserMsg, Protobuf, verify_rsp, login_rsp, user_login_req, user_register_req, system_verify_req,
  user_login_rsp, system_verify_rsp,
}
use rubo.Msgs.MsgCenter.{parse_package}
use rubo.Server.MysqlDb.{Driver}
use rubo.Server.Gate.{get_msg_handler, handle}
use rubo.Server.GateIo.{
  Polled, GateIo, get_unlogin_user, set_node, sock_of, on_conn_offline, kick_out, poll_one,
  on_logic_verifyed, on_user_logined, notify_workers,
}

-- What the kernel answers in one round; `write_replies` is for the writes of the replies.
pub record Answers : Type 0 where
  pub options_ok : ℤ → Bool
  pub added_ok : ℤ → Bool
  pub init_ok : ℤ → Bool
  pub polled : List (Polled × Accept4)
  pub reads : ℤ → List ReadRet
  pub writes : ℤ → List WriteRet
  pub write_replies : ℤ → List WriteRet

-- The numbers that a connection may send before its login.
unfoldable pub is_allowed : ℤ → Bool
is_allowed id = id ==ℤ system_verify_req || (id ==ℤ user_login_req || id ==ℤ user_register_req)

module _ {State : Type 0} (driver : Driver State) where
  -- The only message of a connection.
  unfoldable pub handle_single : UserPtr → ℤ → UserMsg → GateIo State → Option (GateIo State)
  handle_single user sfd msg g = elim (is_allowed msg.msg_id) [
    | false ↦ some (kick_out sfd g)
    | true ↦ elim (get_msg_handler msg.msg_id g.handlers) [
      | none ↦ some (kick_out sfd g)
      | some f ↦ (handle driver f msg user g.gate >>= λ gate. some (record g { gate = gate }))
    ]
  ]

  -- The messages that were parsed: one, with nothing behind it, or the connection is closed.
  unfoldable pub handle_parsed :
      UserPtr → SocketNode → List UserMsg → GateIo State → Option (GateIo State)
  handle_parsed user sock [] g = some g
  handle_parsed user sock (msg ∷ []) g = elim (data_size sock.rd_buff == 0) [
    | false ↦ some (kick_out sock.sfd g)
    | true ↦ handle_single user sock.sfd msg g
  ]
  handle_parsed user sock (msg ∷ (msg2 ∷ msgs)) g = some (kick_out sock.sfd g)

module _ {State : Type 0} (driver : Driver State) (proto : Protobuf) where
  -- The body of the loop of `handler_unlogin_msgs`.
  unfoldable pub handle_read : UserPtr → GateIo State → Option (GateIo State)
  handle_read user g = elim (sock_of user g) [
    | none ↦ none
    | some sock ↦ elim (parse_package proto g.center sock) [
      | none ↦ none
      | some (center, sock', msgs) ↦
          handle_parsed driver user sock' msgs (set_node user sock' (record g { center = center }))
    ]
  ]

  -- The loop, over `unlogin_reads`, which is not cleared.
  unfoldable pub handler_unlogin_msgs : List UserPtr → GateIo State → Option (GateIo State)
  handler_unlogin_msgs [] g = some g
  handler_unlogin_msgs (user ∷ users) g = elim (handle_read user g) [
    | none ↦ none
    | some g' ↦ handler_unlogin_msgs users g'
  ]

module _ {State : Type 0} where
  -- The body of the loop of `handler_data`.
  unfoldable pub handle_event :
      (ℤ → List ReadRet) → (ℤ → List WriteRet) → UserPtr → GateIo State → Option (GateIo State)
  handle_event reads writes user g = elim (sock_of user g) [
    | none ↦ none
    | some sock ↦ elim (event_op (reads sock.sfd) (writes sock.sfd) g.tcp sock) [
      | none ↦ none
      | some o ↦
          let g1 : GateIo State = record (set_node user o.node g) {
            tcp = o.tcp;
            wire = g.wire ++ ((sock.sfd, o.wire) ∷ []);
          } in
          elim o.ret.error [
            | true ↦ some (on_conn_offline sock.sfd g1)
            | false ↦ elim o.ret.read [
              | true ↦ some (record g1 { unlogin_reads = g1.unlogin_reads ++ (user ∷ []) })
              | false ↦ some g1
            ]
          ]
    ]
  ]

  unfoldable pub handle_events :
      (ℤ → List ReadRet) → (ℤ → List WriteRet) → List UserPtr → GateIo State → Option (GateIo State)
  handle_events reads writes [] g = some g
  handle_events reads writes (user ∷ users) g = elim (handle_event reads writes user g) [
    | none ↦ none
    | some g' ↦ handle_events reads writes users g'
  ]

module _ {State : Type 0} (driver : Driver State) (proto : Protobuf) where
  unfoldable pub handler_data :
      (ℤ → List ReadRet) → (ℤ → List WriteRet) → GateIo State → Option (GateIo State)
  handler_data reads writes g = handle_events reads writes g.unlogin_events g >>= λ g1.
      let g2 : GateIo State = record g1 { unlogin_events = [] } in
      handler_unlogin_msgs driver proto g2.unlogin_reads g2

module _ {State : Type 0} where
  -- What a reply does to the connection before it is sent. The handlers make replies 4 and 6 with a
  -- message of the kind that the number says.
  unfoldable pub apply_reply : (ℤ → Bool) → UserPtr → ℤ → UserMsg → GateIo State → GateIo State
  apply_reply init_ok user fd msg g =
      if msg.msg_id ==ℤ system_verify_rsp
      then elim msg.msg [ verify_rsp true ↦ on_logic_verifyed init_ok fd g | _ ↦ g ]
      else (if msg.msg_id ==ℤ user_login_rsp
          then elim msg.msg [
            | login_rsp true user_id ↦ on_user_logined fd (g.gate.users.at user).uid g
            | _ ↦ g
          ]
          else g)

module _ {State : Type 0} (proto : Protobuf) where
  -- The body of the loop of `handler_replys`.
  unfoldable pub send_reply :
      (ℤ → Bool) → (ℤ → List WriteRet) → UserMsg → GateIo State → Option (GateIo State)
  send_reply init_ok writes msg g = elim (get_unlogin_user msg.sfd g) [
    | none ↦ some g
    | some user ↦ elim (sock_of user g) [
      | none ↦ none
      | some sock ↦
          let g1 = apply_reply init_ok user sock.sfd msg g in
          elim (write_msg proto (writes sock.sfd) g1.tcp.sock sock msg) [
            | none ↦ none
            | some (op, sent) ↦ some (record (set_node user sent.node g1) {
              tcp = record (g1.tcp) { sock = op };
              wire = g1.wire ++ ((sock.sfd, sent.wire) ∷ []);
            })
          ]
    ]
  ]

  unfoldable pub handler_replys :
      (ℤ → Bool) → (ℤ → List WriteRet) → List UserMsg → GateIo State → Option (GateIo State)
  handler_replys init_ok writes [] g = some (record g { gate = record (g.gate) { rsp_msgs = [] } })
  handler_replys init_ok writes (msg ∷ msgs) g = elim (send_reply init_ok writes msg g) [
    | none ↦ none
    | some g' ↦ handler_replys init_ok writes msgs g'
  ]

module _ {State : Type 0} where
  -- `epoll_one`, over the events that epoll gave.
  unfoldable pub epoll_one :
      (ℤ → Bool) → (ℤ → Bool) → List (Polled × Accept4) → GateIo State → Option (GateIo State)
  epoll_one options_ok added_ok [] g = some g
  epoll_one options_ok added_ok ((ev, answer) ∷ evs) g =
      elim (poll_one options_ok added_ok answer ev g) [
        | none ↦ none
        | some g' ↦ epoll_one options_ok added_ok evs g'
      ]

module _ {State : Type 0} (driver : Driver State) (proto : Protobuf) where
  -- One round of the thread.
  unfoldable pub run : Answers → GateIo State → Option (GateIo State)
  run a g = do
    g1 ← epoll_one a.options_ok a.added_ok a.polled g
    g2 ← handler_data driver proto a.reads a.writes g1
    g3 ← handler_replys proto a.init_ok a.write_replies g2.gate.rsp_msgs g2
    some (notify_workers g3)
