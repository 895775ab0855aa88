-- ===== src/Msgs/MsgCenter/Transfer.antt =====
-- From the bytes on the wire to the messages: a read, and then the parser.
use rubo.Base.{ℕ, ◌+◌, ◌^◌, ◌<◌, ◌≡◌, refl, ap, ◌∙◌, List, ◌++◌, map, some, length}
use rubo.Util.RingBuff.Writes.{Holds}
use rubo.Util.LineBuffer.{clean_data}
use rubo.Util.LineBuffer.Laws.{IsValid, IsDoubled}
use rubo.Util.SocketNode.{SocketNode}
use rubo.Util.SocketOp.{SocketOp, ReadRet, read}
use rubo.Util.SocketOp.Receive.{received, Conforms, read_result, read_lem}
use rubo.Msgs.UserMsg.{UserMsg, Protobuf}
use rubo.Msgs.MsgCenter.{MsgCenter, parse_package}
use rubo.Msgs.MsgCenter.Stream.{IsPartial, frames, AllSendable, received_on, parse_package-frames}

-- However the stream of frames is cut into the answers of `read`, while less than 2^29 bytes are
-- held and received, `read` and then `parse_package` return, deliver the framed messages in order
-- and leave only the unfinished package in the ring.
pub read-parse_package :
    (proto : Protobuf) (script : List ReadRet) (op : SocketOp) (node : SocketNode)
    → (center : MsgCenter) (ms : List UserMsg) (held rest : List ℕ)
    → AllSendable proto center.names ms
    → IsPartial rest
    → held ++ received script ≡ frames proto ms ++ rest
    → IsValid op.rd_buff
    → op.rd_buff.buff_size < 2 ^ 31
    → Conforms (clean_data op.rd_buff) 0 script
    → Holds held node.rd_buff
    → IsDoubled center.parse_buff.buff_size
    → length held + length (received script) + 1 < 2 ^ 29
    → (op' : SocketOp) × (node1 : SocketNode) × (node2 : SocketNode) × (center' : MsgCenter) × (read
          script op node
        ≡ some (op', node1, read_result script))
      × (parse_package proto center node1
          ≡ some (center', node2, map (received_on proto node.sfd) ms))
      × Holds rest node2.rd_buff
      × (center'.names ≡ center.names)
      × IsDoubled center'.parse_buff.buff_size
read-parse_package proto script op node center ms held rest all part cut v size c h sized small =
    let (op', node1, e, _, _, h1, same) = read_lem script op node held v size c h small in
    let h' : Holds (frames proto ms ++ rest) node1.rd_buff = record {
      valid = h1.valid;
      bytes = h1.bytes ∙ cut;
    } in
    let (ring, line, e2, h2, s2) =
      parse_package-frames proto center node1 ms rest all part h' sized in
    let n2 : SocketNode = record node1 { rd_buff = ring } in
    let c2 : MsgCenter = record center { parse_buff = line } in
    (
      op',
      node1,
      n2,
      c2,
      e,
      e2 ∙ ap (λ fd. some (c2, n2, map (received_on proto fd) ms)) (ap (λ n. n.sfd) same),
      h2,
      refl,
      s2,
    )
