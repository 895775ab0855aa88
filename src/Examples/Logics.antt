-- ===== src/Examples/Logics.antt =====
-- The logic server at concrete inputs.
use rubo.Base.{ℕ, ◌<◌, ◌≡◌, refl, ap, inr, ◌∷◌, [], ◌++◌, List, some, arith, length}
use rubo.Base.Int.{pos}
use rubo.Util.RingBuff.Span.{contents}
use rubo.Util.RingBuff.Writes.{Holds}
use rubo.Util.RingBuff.Refine.{new_ring-Holds}
use rubo.Util.SocketNode.{SocketNode, new_node}
use rubo.Util.SocketOp.{WriteRet, wrote, would_block, send, send_loop, keep_rest, one_len}
use rubo.Util.SocketOp.InOrder.{send_overtakes}
use rubo.Util.TcpOp.{new_tcp_op, tcp_type_client}
use rubo.Msgs.UserMsg.{UserMsg}
use rubo.Msgs.MsgCenter.{new_center}
use rubo.Server.LogicWorker.{LogicWorker}
use rubo.Server.LogicWorker.Sessions.{online_of, dosth_of}
use rubo.Server.Logic.Io.{LogicIo}
use rubo.Server.Logic.Io.InOrder.{IsOpen}
use rubo.Server.Logic.Wakeup.{
  WorkerThread, on_its_way, waiting, notify_worker, worker_turns, lost_wakeup,
}
use rubo.Examples.Wire.{new_wt-IsValid}
use rubo.Examples.Sessions.{rsp_proto, empty_rsp, worker}

abbrev io : LogicIo
io = record {
  center = new_center;
  tcp = new_tcp_op tcp_type_client;
  conn = record new_node { sfd = pos 5 };
  workers = worker [] ∷ (worker [] ∷ []);
  wire = [];
}

abbrev arrived : List UserMsg
arrived = online_of (pos 0) (pos 9) ∷ (dosth_of (pos 0) (pos 9) (65 ∷ []) ∷ [])

abbrev replying : LogicWorker
replying = record (worker []) { out_msgs = empty_rsp ∷ [] }

io-IsOpen : IsOpen io
unfolding new_tcp_op
io-IsOpen = record { writable = unfold new_node in refl; block = new_wt-IsValid }

abbrev answers : List (List WriteRet)
answers = (wrote 12 ∷ []) ∷ []

abbrev given_worker : LogicWorker
given_worker = record (worker []) { io_msgs = arrived }

lost_wakeup_example :
    (s : WorkerThread) × (worker_turns 8 rsp_proto
        (notify_worker (record { worker = given_worker; place = on_its_way; out_msgs = [] }))
      ≡ some s)
    × (s.place ≡ waiting)
    × (s.worker.msgs_in ≡ [] ++ arrived)
    × (s.worker.io_msgs ≡ [])
    × (s.out_msgs ≡ [])
lost_wakeup_example = lost_wakeup 7 rsp_proto given_worker []

abbrev open_node : SocketNode
open_node = record new_node { sfd = pos 5 }

-- The kernel blocks at once: all of the first message is kept, and the second is on the wire.
send_overtakes_example :
    (rest : List ℕ) × ((send (would_block ∷ []) open_node (1 ∷ 2 ∷ [])).wire ++ rest ≡ 1 ∷ 2 ∷ [])
    × (0 < length rest)
    × ((send (wrote 1 ∷ []) (send (would_block ∷ []) open_node (1 ∷ 2 ∷ [])).node (3 ∷ [])).wire
        ≡ 3 ∷ [])
    × Holds
        (contents open_node.wt_buff ++ rest)
        (send
          (wrote 1 ∷ [])
          (send (would_block ∷ []) open_node (1 ∷ 2 ∷ [])).node
          (3 ∷ [])).node.wt_buff
unfolding send send_loop keep_rest one_len new_node
send_overtakes_example =
    send_overtakes open_node (1 ∷ 2 ∷ []) (3 ∷ []) (would_block ∷ []) (wrote 1 ∷ []) refl
      new_ring-Holds.valid (omega (arith, ap length new_ring-Holds.bytes)) tt refl
      (inr (refl, omega arith))
