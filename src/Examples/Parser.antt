-- ===== src/Examples/Parser.antt =====
-- The parser at concrete inputs.
use rubo.Base.{
  ℕ, ◌≡◌, refl, ap, inl, inr, List, [], ◌∷◌, ◌++◌, map, take, drop, some, arith, length,
}
use rubo.Base.Int.{pos, le_bytes}
use rubo.Util.RingBuff.{RingBuff, new_ring, add_data}
use rubo.Util.RingBuff.Writes.{Holds, add_data-Holds}
use rubo.Util.RingBuff.Refine.{new_ring-Holds}
use rubo.Util.LineBuffer.{LineBuffer, new_line, clean_data}
use rubo.Util.LineBuffer.Laws.{IsDoubled, doubled, doubled-le}
use rubo.Util.SocketNode.{SocketNode, new_node}
use rubo.Util.SocketOp.{
  SocketOp, new_socket_op, ReadRet, got, read, asked_size, read_size, store_read,
}
use rubo.Util.SocketOp.Receive.{received, Conforms, read_result}
use rubo.Msgs.UserMsg.{UserMsg, user_online_req}
use rubo.Msgs.MsgCenter.{MsgCenter, new_center, parse_package, gen_msg, gen_msg_by_name, find_name}
use rubo.Msgs.MsgCenter.Stream.{
  IsPartial, IsSendable, frames, received_on, parse_package-frames, parse_package-stuck,
}
use rubo.Msgs.MsgCenter.Transfer.{read-parse_package}
use rubo.Examples.Wire.{tiny_proto, online, new_op-IsValid, new_op-size, line_of}

-- Two messages, and the first three bytes of another.
abbrev sent : List UserMsg
sent = online ∷ (online ∷ [])

abbrev part : List ℕ
part = 2 ∷ 0 ∷ 0 ∷ []

pub two-odd : IsDoubled 2 → ⊥
two-odd (k, e) = omega (arith, doubled-le 256 k)

pub online-IsSendable : IsSendable tiny_proto new_center.names online
unfolding new_center gen_msg gen_msg_by_name find_name
online-IsSendable = record {
  id_in = omega arith;
  uid_in = omega arith;
  two = omega arith;
  small = omega arith;
  odd = two-odd;
  no_nul = (λ e. absurd (omega (arith, e)), (λ e. absurd (omega (arith, e)), tt));
  known = (
    record { uid = pos 0; sfd = pos 0; msg_id = pos 7; msg = user_online_req (pos 0) },
    refl,
    refl,
  );
}

part-IsPartial : IsPartial part
part-IsPartial = inl (omega arith)

abbrev stream : List ℕ
stream = frames tiny_proto sent ++ part

abbrev holding : SocketNode
holding = record new_node { sfd = pos 4; rd_buff = add_data new_ring stream }

length-stream : length stream ≡ 31
unfolding frames
length-stream = refl

holding-Holds : Holds (frames tiny_proto sent ++ part) holding.rd_buff
holding-Holds = rw new_ring-Holds.bytes at (
    add_data-Holds stream new_ring-Holds.valid
      (omega (arith, ap length new_ring-Holds.bytes, length-stream)))

pub new_center-IsDoubled : IsDoubled new_center.parse_buff.buff_size
unfolding new_center new_line doubled
new_center-IsDoubled = (0, refl)

parse_package_example :
    (ring : RingBuff) × (line : LineBuffer) × (parse_package tiny_proto new_center holding
      ≡ some (
        record new_center { parse_buff = line },
        record holding { rd_buff = ring },
        map (received_on tiny_proto holding.sfd) sent,
      ))
    × Holds part ring
    × IsDoubled line.buff_size
parse_package_example =
    parse_package-frames tiny_proto new_center holding sent part
      (online-IsSendable, (online-IsSendable, tt)) part-IsPartial holding-Holds new_center-IsDoubled

-- The stream in two answers of `read`.
abbrev answers : List ReadRet
answers = got (take 10 stream) ∷ (got (drop 10 stream) ∷ [])

cut : [] ++ received answers ≡ frames tiny_proto sent ++ part
unfolding received frames
cut = refl

answers-Conforms : Conforms (clean_data new_socket_op.rd_buff) 0 answers
unfolding Conforms clean_data new_socket_op new_line read_size asked_size store_read frames
answers-Conforms =
    (omega arith, omega arith, λ line e. rw (← line_of e) (omega arith, omega arith, λ l e'. tt))

new_rd_buff-Holds : Holds [] new_node.rd_buff
unfolding new_node
new_rd_buff-Holds = new_ring-Holds

read-parse_package_example :
    (op' : SocketOp) × (node1 : SocketNode) × (node2 : SocketNode) × (center' : MsgCenter) × (read
        answers new_socket_op new_node
      ≡ some (op', node1, read_result answers))
    × (parse_package tiny_proto new_center node1
        ≡ some (center', node2, map (received_on tiny_proto new_node.sfd) sent))
    × Holds part node2.rd_buff
    × (center'.names ≡ new_center.names)
    × IsDoubled center'.parse_buff.buff_size
read-parse_package_example =
    read-parse_package tiny_proto answers new_socket_op new_node new_center sent [] part
      (online-IsSendable, (online-IsSendable, tt)) part-IsPartial cut new_op-IsValid new_op-size
      answers-Conforms new_rd_buff-Holds new_center-IsDoubled
      (omega (arith, ap length cut, length-stream))

-- A message, and then a length of 4096 with some bytes behind it.
abbrev pub bad : List ℕ
bad = le_bytes 4096 ++ part

abbrev bad_stream : List ℕ
bad_stream = frames tiny_proto (online ∷ []) ++ bad

abbrev pub stuck_node : SocketNode
stuck_node = record new_node { sfd = pos 4; rd_buff = add_data new_ring bad_stream }

length-bad_stream : length bad_stream ≡ 21
unfolding frames
length-bad_stream = refl

pub stuck_node-Holds : Holds (frames tiny_proto (online ∷ []) ++ bad) stuck_node.rd_buff
stuck_node-Holds = rw new_ring-Holds.bytes at (
    add_data-Holds bad_stream new_ring-Holds.valid
      (omega (arith, ap length new_ring-Holds.bytes, length-bad_stream)))

parse_package-stuck_example :
    (ring : RingBuff) × (line : LineBuffer) × (parse_package tiny_proto new_center stuck_node
      ≡ some (
        record new_center { parse_buff = line },
        record stuck_node { rd_buff = ring },
        map (received_on tiny_proto stuck_node.sfd) (online ∷ []),
      ))
    × Holds bad ring
    × IsDoubled line.buff_size
parse_package-stuck_example =
    parse_package-stuck tiny_proto new_center stuck_node (online ∷ []) 4096 part
      (online-IsSendable, tt) (omega arith) (inr (omega arith)) stuck_node-Holds
      new_center-IsDoubled
