-- ===== src/Server/Logic/Io/InOrder.antt =====
-- Replies of the workers, from a worker's list to the gate's parser.
use rubo.Base.{
  ℕ, ◌+◌, ◌^◌, ◌<◌, ◌≡◌, refl, sym, ap, ◌∙◌, true, List, [], ◌∷◌, ◌++◌, append-nil, append_assoc,
  some, length,
}
use rubo.Util.LineBuffer.Laws
use rubo.Util.SocketNode.{FdEvent, fd_event_none}
use rubo.Util.SocketOp.{WriteRet, send}
use rubo.Util.SocketOp.Frame.{frame, write_msg_lem}
use rubo.Util.SocketOp.InOrder.{IsTaken, send-taken}
use rubo.Util.MutexList.{add_more, get_more}
use rubo.Msgs.UserMsg.{UserMsg, Protobuf}
use rubo.Msgs.MsgCenter.Stream.{frames}
use rubo.Server.LogicWorker.{LogicWorker, handler_reply}
use rubo.Server.Logic.{io_get_msgs}
use rubo.Server.Logic.Io.{LogicIo, write_to_gate}
use rubo.Server.Logic.Io.Replies.{next_script, later_scripts, write_replies, handler_worker_msgs}

-- The connection can be written to, and its block is valid.
pub record IsOpen (io : LogicIo) : Type 0 where
  pub writable : io.conn.can_wt ≡ true
  pub block : Laws.IsValid io.tcp.sock.wt_buff

-- The object after some bytes were written: only the bytes of the stream matter.
pub record Wrote (io : LogicIo) (bytes : List ℕ) (io' : LogicIo) : Type 0 where
  pub still_open : IsOpen io'
  pub wire : io'.wire ≡ io.wire ++ bytes
  pub conn : io'.conn ≡ io.conn
  pub workers : io'.workers ≡ io.workers

module _ (proto : Protobuf) where
  -- Each message is short of 2^31 bytes, and the kernel takes all of it.
  abbrev pub AllTaken : List (List WriteRet) → List UserMsg → Type 0
  AllTaken scripts [] = Unit
  AllTaken scripts (m ∷ ms) =
      (length (proto.serialize m.msg) + 12 < 2 ^ 31)
      × IsTaken (length (frame proto m)) 0 (next_script scripts)
      × AllTaken (later_scripts scripts) ms

  write_to_gate-Wrote :
      (script : List WriteRet) (m : UserMsg) (io : LogicIo)
      → IsOpen io
      → length (proto.serialize m.msg) + 12 < 2 ^ 31
      → IsTaken (length (frame proto m)) 0 script
      → (io' : LogicIo) × (ret : FdEvent) × (write_to_gate proto script m io ≡ some (io', ret))
        × Wrote io (frame proto m) io'
  unfolding write_to_gate
  write_to_gate-Wrote script m io open_ small t =
      let (op, e, block) = write_msg_lem proto script io.tcp.sock io.conn m open_.block small in
      let sent : send script io.conn (frame proto m)
          ≡ record { wire = frame proto m; node = io.conn; ret = fd_event_none } =
        send-taken script io.conn (frame proto m) open_.writable t in
      (
        record io { tcp = record (io.tcp) { sock = op }; wire = io.wire ++ frame proto m },
        fd_event_none,
        rw (write_to_gate, e, sent),
        record {
          still_open = record { writable = open_.writable; block = block };
          wire = refl;
          conn = refl;
          workers = refl;
        },
      )

  write_replies-Wrote :
      (scripts : List (List WriteRet)) (ms : List UserMsg) (io : LogicIo)
      → IsOpen io
      → AllTaken scripts ms
      → (io' : LogicIo) × (write_replies proto scripts ms io ≡ some io')
        × Wrote io (frames proto ms) io'
  unfolding write_replies frames
  write_replies-Wrote scripts [] io open_ t = (
    io,
    refl,
    record { still_open = open_; wire = sym (append-nil io.wire); conn = refl; workers = refl },
  )
  write_replies-Wrote scripts (m ∷ ms) io open_ t =
      let (io1, ret, e1, w1) = write_to_gate-Wrote (next_script scripts) m io open_ t.0 t.1 in
      let (io2, e2, w2) = write_replies-Wrote (later_scripts scripts) ms io1 w1.still_open t.2 in
      (
        io2,
        rw (write_replies, e1) e2,
        record {
          still_open = w2.still_open;
          wire =
              w2.wire
              ∙ ap (λ l. l ++ frames proto ms) w1.wire
              ∙ append_assoc io.wire (frame proto m) (frames proto ms);
          conn = w2.conn ∙ w1.conn;
          workers = w2.workers ∙ w1.workers;
        },
      )

  -- If the connection to the gate is writable, its block is valid, the messages have less than 2^31
  -- bytes and the kernel takes all of them, then `handler_reply` of a worker and
  -- `handler_worker_msgs` of the IO thread return, and put exactly the frames of the replies that
  -- waited and of the worker's on the wire, in order; both lists are then empty, and the connection
  -- and the workers of the IO thread are as before.
  pub replies_on_wire :
      (scripts : List (List WriteRet)) (out_msgs : List UserMsg) (w : LogicWorker) (io : LogicIo)
      → IsOpen io
      → AllTaken scripts (out_msgs ++ w.out_msgs)
      → let (out_msgs', w') = handler_reply out_msgs w in
        (io' : LogicIo) × (handler_worker_msgs proto scripts out_msgs' io ≡ some (io', []))
        × Wrote io (frames proto (out_msgs ++ w.out_msgs)) io'
        × (w'.out_msgs ≡ [])
  unfolding handler_reply handler_worker_msgs io_get_msgs add_more get_more
  replies_on_wire scripts out_msgs w io open_ t =
      let (io', e, wrote) = write_replies-Wrote scripts (out_msgs ++ w.out_msgs) io open_ t in
      (io', rw e, wrote, refl)
