-- ===== src/Server/Chain.antt =====
-- server/Logic/LogicIO.cpp and server/Gate/GateWorker.cpp, joined: replies of the logic server on their way to
-- the gate.
pub mod Requests
pub mod Answers
use rubo.Base.{
  ℕ, ◌+◌, ◌^◌, ◌<◌, ◌≡◌, refl, sym, inl, ap, ◌∙◌, true, false, List, [], ◌∷◌, ◌++◌, append-nil,
  append_assoc, some, map, arith, length, ◌==◌, if◌then◌else◌,
}
use rubo.Base.Int.{ℤ}
use rubo.Util.RingBuff.Writes.{Holds}
use rubo.Util.LineBuffer.{clean_data}
use rubo.Util.LineBuffer.Laws
use rubo.Util.LineBuffer.Laws.{IsDoubled}
use rubo.Util.SocketNode.{SocketNode, client_system, fd_event_error, fd_event_read}
use rubo.Util.SocketOp.{ReadRet, WriteRet}
use rubo.Util.SocketOp.Receive.{received, ended, Conforms}
use rubo.Util.TcpOp.{Op}
use rubo.Util.TcpOp.Events.{HasRead, event_op-HasRead}
use rubo.Util.User.{UserPtr}
use rubo.Msgs.UserMsg.{UserMsg, Protobuf}
use rubo.Msgs.MsgCenter.Stream.{IsPartial, frames, AllSendable, received_on, parse_package-frames}
use rubo.Server.GateWorker.{GateWorker, sock_of, set_node, operate}
use rubo.Server.GateWorker.Messages.{sort_msg, sort_msgs, parse_user}
use rubo.Server.LogicWorker.{LogicWorker, handler_reply}
use rubo.Server.Logic.Io.{LogicIo}
use rubo.Server.Logic.Io.Replies.{handler_worker_msgs}
use rubo.Server.Logic.Io.InOrder.{IsOpen, AllTaken, replies_on_wire}

sort_msgs-system :
    (uid : ℤ) (ms : List UserMsg) (w : GateWorker)
    → sort_msgs client_system uid ms w ≡ record w { logic_msgs_in = w.logic_msgs_in ++ ms }
unfolding sort_msgs sort_msg
sort_msgs-system uid [] w =
    ap (λ l. record w { logic_msgs_in = l }) (sym (append-nil w.logic_msgs_in))
sort_msgs-system uid (m ∷ ms) w =
    sort_msgs-system uid ms (record w { logic_msgs_in = w.logic_msgs_in ++ (m ∷ []) })
    ∙ ap (λ l. record w { logic_msgs_in = l }) (append_assoc w.logic_msgs_in (m ∷ []) ms)

sock_of-set_node :
    (user : UserPtr) (sock : SocketNode) (w : GateWorker)
    → sock_of user (set_node user sock w) ≡ some sock
unfolding sock_of set_node
sock_of-set_node user sock w =
    let self : (user == user) ≡ true = ground arith in
    ap (λ b. (if b then record (w.heap.at user) { sock = some sock } else w.heap.at user).sock) self

-- The connection of a logic server to its worker, of which epoll has reported that it is readable. The rest
-- of an unfinished package may wait in its ring.
pub record IsReadable (w : GateWorker) (sock : SocketNode) (held : List ℕ) : Type 0 where
  pub there : sock_of w.logic w ≡ some sock
  pub from_logic : sock.kind ≡ client_system
  pub readable : sock.event ≡ fd_event_read
  pub idle : Holds [] sock.wt_buff
  pub bytes : Holds held sock.rd_buff
  pub block : Laws.IsValid w.tcp.sock.rd_buff
  pub small : w.tcp.sock.rd_buff.buff_size < 2 ^ 31
  pub parse_block : IsDoubled w.center.parse_buff.buff_size

module _ (proto : Protobuf) (reads : ℤ → List ReadRet) (writes : ℤ → List WriteRet) (w : GateWorker)
    (sock : SocketNode) where
  abbrev script : List ReadRet
  script = reads sock.sfd

  -- The worker after `event_op`.
  abbrev operated : Op → GateWorker
  operated o = record (set_node w.logic o.node w) {
    tcp = o.tcp;
    wire = w.wire ++ ((sock.sfd, o.wire) ∷ []);
    rd_users = w.rd_users ++ (w.logic ∷ []);
  }

  operate-readable :
      (held : List ℕ)
      → IsReadable w sock held
      → Conforms (clean_data w.tcp.sock.rd_buff) 0 script
      → ended script ≡ false
      → length held + length (received script) + 1 < 2 ^ 29
      → (o : Op) × (operate proto reads writes w.logic w ≡ some (operated o))
        × HasRead script w.tcp sock held o
  unfolding operate set_node
  operate-readable held r c open_ few =
      let (o, e, h) =
        event_op-HasRead script (writes sock.sfd) w.tcp sock held r.readable r.idle r.bytes r.block
          r.small c few in
      let ret : o.ret ≡ fd_event_read =
        h.result ∙ ap (λ b. if b then fd_event_error else fd_event_read) open_ in
      (o, rw (operate, r.there, e, ap (λ x. x.error) ret, ap (λ x. x.read) ret), h)

  -- The frames of messages that were read are parsed, and taken for messages of the logic server.
  parse_user-frames :
      (held rest : List ℕ) (ms : List UserMsg) (o : Op)
      → IsReadable w sock held
      → HasRead script w.tcp sock held o
      → AllSendable proto w.center.names ms
      → IsPartial rest
      → held ++ received script ≡ frames proto ms ++ rest
      → (w' : GateWorker) × (parse_user proto w.logic (operated o) ≡ some w')
        × (w'.logic_msgs_in ≡ w.logic_msgs_in ++ map (received_on proto sock.sfd) ms)
        × (w'.user_msgs_in ≡ w.user_msgs_in)
  unfolding parse_user set_node sock_of
  parse_user-frames held rest ms o r h all part cut =
      let (ring, line, e, _, _) =
        parse_package-frames proto w.center o.node ms rest all part
          (record { valid = h.bytes.valid; bytes = h.bytes.bytes ∙ cut }) r.parse_block in
      let msgs = map (received_on proto o.node.sfd) ms in
      let w1 : GateWorker =
        set_node w.logic (record (o.node) { rd_buff = ring })
          (record (operated o) { center = record (w.center) { parse_buff = line } }) in
      let there : sock_of w.logic (operated o) ≡ some o.node = sock_of-set_node w.logic o.node w in
      let parsed : parse_user proto w.logic (operated o)
          ≡ some (sort_msgs o.node.kind ((operated o).heap.at w.logic).uid msgs w1) =
        rw (parse_user, there, e) refl in
      let sorted : sort_msgs o.node.kind ((operated o).heap.at w.logic).uid msgs w1
          ≡ record w1 { logic_msgs_in = w1.logic_msgs_in ++ msgs } =
        ap (λ k. sort_msgs k ((operated o).heap.at w.logic).uid msgs w1)
          (h.same_node.0 ∙ r.from_logic)
        ∙ sort_msgs-system _ msgs w1 in
      (
        record w1 { logic_msgs_in = w1.logic_msgs_in ++ msgs },
        parsed ∙ ap some sorted,
        ap (λ fd. w.logic_msgs_in ++ map (received_on proto fd) ms) h.same_node.1,
        refl,
      )

-- Replies get from a worker of the logic server to the gate: if the connection of the IO thread is
-- writable and the kernel takes each message whole, `handler_reply` and `handler_worker_msgs` put
-- the replies that waited and the worker's on the wire; if the gate's connection is readable with
-- nothing pending or held and its `read` gets these bytes, cut in any way, less than 2^29 and with
-- no end of the stream, then `event_op` and the parser return and put exactly these replies, which
-- protobuf reads back, in order behind the messages from the logic server, none among those of
-- users.
pub replies_arrive :
    (proto : Protobuf) (scripts : List (List WriteRet)) (out_msgs : List UserMsg)
    (worker : LogicWorker) (io : LogicIo) (reads : ℤ → List ReadRet) (writes : ℤ → List WriteRet)
    (w : GateWorker) (sock : SocketNode)
    → let replies = out_msgs ++ worker.out_msgs in
      IsOpen io
      → AllTaken proto scripts replies
      → IsReadable w sock []
      → Conforms (clean_data w.tcp.sock.rd_buff) 0 (reads sock.sfd)
      → ended (reads sock.sfd) ≡ false
      → received (reads sock.sfd) ≡ frames proto replies
      → length (received (reads sock.sfd)) + 1 < 2 ^ 29
      → AllSendable proto w.center.names replies
      → (io' : LogicIo) × (w1 : GateWorker) × (w2 : GateWorker) × (handler_worker_msgs proto scripts
            (handler_reply out_msgs worker).0
            io
          ≡ some (io', []))
        × (io'.wire ≡ io.wire ++ received (reads sock.sfd))
        × (operate proto reads writes w.logic w ≡ some w1)
        × (parse_user proto w.logic w1 ≡ some w2)
        × (w2.logic_msgs_in ≡ w.logic_msgs_in ++ map (received_on proto sock.sfd) replies)
        × (w2.user_msgs_in ≡ w.user_msgs_in)
replies_arrive proto scripts out_msgs worker io reads writes w sock open_ taken r c lasts same few
      all =
    let replies = out_msgs ++ worker.out_msgs in
    let (io', e, wrote, _) = replies_on_wire proto scripts out_msgs worker io open_ taken in
    let (o, eo, h) = operate-readable proto reads writes w sock [] r c lasts (omega (arith, few)) in
    let (w', ep, there, others) =
      parse_user-frames proto reads writes w sock [] [] replies o r h all (inl (omega arith))
        (same ∙ sym (append-nil (frames proto replies))) in
    (
      io',
      operated proto reads writes w sock o,
      w',
      e,
      wrote.wire ∙ ap (λ l. io.wire ++ l) (sym same),
      eo,
      ep,
      there,
      others,
    )
