-- ===== src/Server/Chain/Requests.antt =====
-- server/Gate/GateWorker.cpp and server/Logic/LogicIO.cpp, joined: messages of users on their way from the gate
-- to the workers of the logic server.
use rubo.Base.{
  ℕ, suc, ◌+◌, ◌^◌, ◌<◌, ◌≡◌, refl, sym, inl, ap, ◌∙◌, true, List, [], ◌∷◌, ◌++◌, append-nil,
  append_assoc, some, map, arith, length,
}
use rubo.Base.Int.{ℤ}
use rubo.Util.RingBuff.Writes.{Holds}
use rubo.Util.LineBuffer.{clean_data}
use rubo.Util.LineBuffer.Laws
use rubo.Util.LineBuffer.Laws.{IsDoubled}
use rubo.Util.SocketNode.{SocketNode, fd_event_read, fd_or}
use rubo.Util.SocketOp.{WriteRet}
use rubo.Util.SocketOp.Receive.{received, Conforms}
use rubo.Util.SocketOp.Frame.{frame, write_msg_lem}
use rubo.Util.SocketOp.InOrder.{IsTaken, send-taken}
use rubo.Util.TcpOp.Events.{event_op-HasRead}
use rubo.Msgs.UserMsg.{UserMsg, Protobuf}
use rubo.Msgs.MsgCenter.Stream.{frames, AllSendable, received_on, parse_package-frames}
use rubo.Server.GateIo.{fd_event}
use rubo.Server.GateWorker.{GateWorker, sock_of, set_node}
use rubo.Server.GateWorker.Messages.{write_to, to_logic}
use rubo.Server.Logic.Io.{LogicIo, Event, receive, route_all}
use rubo.Server.Logic.Io.Dispatch.{
  AreCast, HasRoom, AllHaveWorkers, Given, sent_to, route_all-Given,
}
use rubo.Server.Chain.{sock_of-set_node}

module _ (proto : Protobuf) (sock : SocketNode) where
  -- Each message is short of 2^31 bytes, and the kernel takes all of it in its answers for this message.
  abbrev pub AllFit : (ℕ → ℤ → List WriteRet) → List UserMsg → Type 0
  AllFit writes [] = Unit
  AllFit writes (m ∷ ms) =
      (length (proto.serialize m.msg) + 12 < 2 ^ 31)
      × IsTaken (length (frame proto m)) 0 (writes 0 sock.sfd)
      × AllFit (λ k. writes (suc k)) ms

  -- What is written to the connection.
  abbrev pub written : List UserMsg → List (ℤ × List ℕ)
  written ms = map (λ m. (sock.sfd, frame proto m)) ms

  -- The connection of the logic server can be written to.
  pub record CanWrite (w : GateWorker) : Type 0 where
    pub there : sock_of w.logic w ≡ some sock
    pub writable : sock.can_wt ≡ true
    pub block : Laws.IsValid w.tcp.sock.wt_buff

  write_to-taken :
      (writes : ℤ → List WriteRet) (m : UserMsg) (w : GateWorker)
      → CanWrite w
      → length (proto.serialize m.msg) + 12 < 2 ^ 31
      → IsTaken (length (frame proto m)) 0 (writes sock.sfd)
      → (w' : GateWorker) × (write_to proto writes w.logic sock m w ≡ some w')
        × (w'.wire ≡ w.wire ++ ((sock.sfd, frame proto m) ∷ []))
        × (w'.logic ≡ w.logic)
        × CanWrite w'
  unfolding write_to sock_of set_node
  write_to-taken writes m w can small taken =
      let (op, e, block) =
        write_msg_lem proto (writes sock.sfd) w.tcp.sock sock m can.block small in
      let sent = send-taken (writes sock.sfd) sock (frame proto m) can.writable taken in
      (
        record (set_node w.logic sock w) {
          tcp = record (w.tcp) { sock = op };
          wire = w.wire ++ ((sock.sfd, frame proto m) ∷ []);
        },
        rw (write_to, e, sent),
        refl,
        refl,
        record { there = sock_of-set_node w.logic sock w; writable = can.writable; block = block },
      )

  pub to_logic-written :
      (writes : ℕ → ℤ → List WriteRet) (ms : List UserMsg) (w : GateWorker)
      → CanWrite w
      → AllFit writes ms
      → (w' : GateWorker) × (to_logic proto writes ms w ≡ some w')
        × (w'.wire ≡ w.wire ++ written ms)
        × (w'.user_msgs_in ≡ [])
  unfolding to_logic
  to_logic-written writes [] w can fit =
      (record w { user_msgs_in = [] }, refl, sym (append-nil w.wire), refl)
  to_logic-written writes (m ∷ ms) w can fit =
      let (w1, e, wire, same, can1) = write_to-taken (writes 0) m w can fit.0 fit.1 in
      let (w2, e2, wire2, empty) = to_logic-written (λ k. writes (suc k)) ms w1 can1 fit.2 in
      (
        w2,
        rw (to_logic, can.there, e) e2,
        wire2 ∙ ap (λ l. l ++ written ms) wire ∙ append_assoc w.wire _ (written ms),
        empty,
      )

-- The connection of the IO thread to the gate, for an event that it is readable.
pub record IsReady (ev : Event) (io : LogicIo) : Type 0 where
  pub readable : fd_or io.conn.event (fd_event ev.polled) ≡ fd_event_read
  pub idle : Holds [] io.conn.wt_buff
  pub bytes : Holds [] io.conn.rd_buff
  pub block : Laws.IsValid io.tcp.sock.rd_buff
  pub small : io.tcp.sock.rd_buff.buff_size < 2 ^ 31
  pub parse_block : IsDoubled io.center.parse_buff.buff_size
  pub conforms : Conforms (clean_data io.tcp.sock.rd_buff) 0 ev.reads
  pub few : length (received ev.reads) + 1 < 2 ^ 29
  pub room : HasRoom io.workers

pub receive-Given :
    (proto : Protobuf) (ev : Event) (io : LogicIo) (ms : List UserMsg)
    → IsReady ev io
    → received ev.reads ≡ frames proto ms
    → AllSendable proto io.center.names ms
    → AreCast (map (received_on proto io.conn.sfd) ms)
    → (io' : LogicIo) × (receive proto ev io ≡ some io')
      × Given io.workers
          (λ i. sent_to i io.workers (map (received_on proto io.conn.sfd) ms))
          io'.workers
      × AllHaveWorkers io.workers (map (received_on proto io.conn.sfd) ms)
unfolding receive
receive-Given proto ev io ms r same all cast =
    let node : SocketNode = record (io.conn) { event = fd_or io.conn.event (fd_event ev.polled) } in
    let (o, e, h) =
      event_op-HasRead ev.reads ev.writes io.tcp node [] r.readable r.idle r.bytes r.block r.small
        r.conforms (omega (arith, r.few)) in
    let (ring, line, e2, _, _) =
      parse_package-frames proto io.center o.node ms [] all (inl (omega arith))
        (record {
          valid = h.bytes.valid;
          bytes = h.bytes.bytes ∙ same ∙ sym (append-nil (frames proto ms));
        })
        r.parse_block in
    let msgs = map (received_on proto o.node.sfd) ms in
    let io1 : LogicIo = record io {
      center = record (io.center) { parse_buff = line };
      tcp = o.tcp;
      conn = record (o.node) { rd_buff = ring };
      wire = io.wire ++ o.wire;
    } in
    let fd : msgs ≡ map (received_on proto io.conn.sfd) ms =
      ap (λ d. map (received_on proto d) ms) h.same_node.1 in
    let (io', e3, given, having) =
      route_all-Given (map (received_on proto io.conn.sfd) ms) io1 cast r.room in
    (io', rw (e, receive, e2) (ap (λ l. route_all l io1) fd ∙ e3), given, having)

-- Messages of users get from the gate to the workers of the logic server: if the gate's connection
-- to it is writable and the kernel, in its answers for each message, takes it whole, the loop of
-- `handler_msgs` writes the frames of all of them, in order, and empties their list; if the
-- connection of the IO thread is only readable with nothing pending or held and gets these bytes,
-- cut in any way and less than 2^29, and the first worker has less than UINT_MAX users, then this
-- event in `handler_epevent` puts each message, which protobuf reads back and which is an answer to
-- a verification if its number says so, behind those of the worker that `get_worker` chooses, in
-- order, and no other; each but such an answer has a worker.
pub requests_arrive :
    (proto : Protobuf) (writes : ℕ → ℤ → List WriteRet) (w : GateWorker) (sock : SocketNode)
    (ev : Event) (io : LogicIo)
    → let ms = w.user_msgs_in in
      let arrived = map (received_on proto io.conn.sfd) ms in
      CanWrite proto sock w
      → AllFit proto sock writes ms
      → IsReady ev io
      → received ev.reads ≡ frames proto ms
      → AllSendable proto io.center.names ms
      → AreCast arrived
      → (w' : GateWorker) × (io' : LogicIo) × (to_logic proto writes ms w ≡ some w')
        × (w'.wire ≡ w.wire ++ written proto sock ms)
        × (w'.user_msgs_in ≡ [])
        × (receive proto ev io ≡ some io')
        × Given io.workers (λ i. sent_to i io.workers arrived) io'.workers
        × AllHaveWorkers io.workers arrived
requests_arrive proto writes w sock ev io can fit r same all cast =
    let (w', e, wire, empty) = to_logic-written proto sock writes w.user_msgs_in w can fit in
    let (io', e', given, having) = receive-Given proto ev io w.user_msgs_in r same all cast in
    (w', io', e, wire, empty, e', given, having)
