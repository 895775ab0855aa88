-- ===== src/Examples/Wire.antt =====
-- A connection at concrete inputs: a message in its frame, sent, kept, flushed and read.
use rubo.Base.{
  ℕ, suc, ◌+◌, ◌^◌, ◌<◌, ◌≡◌, refl, ap, true, List, [], ◌∷◌, ◌++◌, none, some, arith, length,
}
use rubo.Base.Int.{pos}
use rubo.Util.RingBuff.{add_data}
use rubo.Util.RingBuff.Writes.{Holds, add_data-Holds}
use rubo.Util.RingBuff.Refine.{new_ring-Holds}
use rubo.Util.RingBuff.{new_ring}
use rubo.Util.LineBuffer.{LineBuffer, new_line, clean_data}
use rubo.Util.LineBuffer.Laws.{IsValid}
use rubo.Util.SocketNode.{SocketNode, new_node, fd_or, fd_event_none, fd_event_read}
use rubo.Util.SocketOp.{
  SocketOp, new_socket_op, ReadRet, got, interrupted, end_of_stream, read, WriteRet, wrote,
  would_block, one_len, asked_size, read_size, store_read, Sent, send, write_pending, write_msg,
}
use rubo.Util.SocketOp.Receive.{received, Conforms, read_result, read_lem}
use rubo.Util.SocketOp.Send.{IsWhole, Outcome, send-Outcome, send_short}
use rubo.Util.SocketOp.Frame.{frame, write_msg_lem, Flushed, write_pending-Flushed}
use rubo.Util.TcpOp.{TcpOp, Op, new_tcp_op, tcp_type_server, event_op}
use rubo.Util.TcpOp.Events.{HasRead, event_op-HasRead}
use rubo.Msgs.UserMsg.{Message, user_online_req, UserMsg, Protobuf}

-- A protobuf for one kind of message: the number of the user, in one byte, and a mark.
abbrev tiny_serialize : Message → List ℕ
tiny_serialize (user_online_req (pos n)) = suc n ∷ 7 ∷ []
tiny_serialize _ = []

abbrev tiny_parse : Message → List ℕ → Message
tiny_parse m (suc n ∷ _) = user_online_req (pos n)
tiny_parse m _ = m

abbrev pub tiny_proto : Protobuf
tiny_proto = record {
  find_type = λ name. some (user_online_req (pos 0));
  serialize = tiny_serialize;
  parse_from = tiny_parse;
}

abbrev pub online : UserMsg
online = record { uid = pos 9; sfd = pos 0; msg_id = pos 7; msg = user_online_req (pos 9) }

pub new_op-IsValid : IsValid new_socket_op.rd_buff
unfolding new_socket_op new_line
new_op-IsValid = record { block = refl; room = omega arith }

pub new_op-size : new_socket_op.rd_buff.buff_size < 2 ^ 31
unfolding new_socket_op new_line
new_op-size = omega arith

pub new_wt-IsValid : IsValid new_socket_op.wt_buff
unfolding new_socket_op new_line
new_wt-IsValid = record { block = refl; room = omega arith }

write_msg_example :
    (op' : SocketOp) × (write_msg tiny_proto [] new_socket_op new_node online
      ≡ some (op', send [] new_node (frame tiny_proto online)))
    × IsValid op'.wt_buff
write_msg_example =
    write_msg_lem tiny_proto [] new_socket_op new_node online new_wt-IsValid (omega arith)

-- Three bytes, and then a full socket.
abbrev abc : List ℕ
abc = 97 ∷ 98 ∷ 99 ∷ []

abbrev script : List WriteRet
script = wrote 3 ∷ (would_block ∷ [])

new_wt_buff-Holds : Holds [] new_node.wt_buff
unfolding new_node
new_wt_buff-Holds = new_ring-Holds

new_rd_buff-Holds : Holds [] new_node.rd_buff
unfolding new_node
new_rd_buff-Holds = new_ring-Holds

new_node-can_wt : new_node.can_wt ≡ true
unfolding new_node
new_node-can_wt = refl

script-IsWhole : IsWhole 3 0 script
unfolding one_len
script-IsWhole = (λ _. refl, tt)

send-Outcome_example : Outcome script abc new_node (send script new_node abc)
send-Outcome_example =
    send-Outcome script new_node abc new_node-can_wt new_wt_buff-Holds.valid
      (omega (arith, ap length new_wt_buff-Holds.bytes)) script-IsWhole

send_short_example :
    send (wrote 1 ∷ []) new_node abc
    ≡ record { wire = 97 ∷ []; node = new_node; ret = fd_event_none }
send_short_example =
    send_short [] new_node abc 1 new_node-can_wt (omega arith) (omega arith) (omega arith)

-- A connection that keeps three bytes.
abbrev pending_node : SocketNode
pending_node = record new_node { wt_buff = add_data new_ring abc }

pending-Holds : Holds abc (add_data new_ring abc)
pending-Holds =
    rw new_ring-Holds.bytes at
      (add_data-Holds abc new_ring-Holds.valid (omega (arith, ap length new_ring-Holds.bytes)))

write_pending_example :
    (op' : SocketOp) × (s : Sent) × (write_pending script new_socket_op pending_node
      ≡ some (op', s))
    × Flushed script abc (record pending_node { can_wt = true }) op' s
write_pending_example =
    write_pending-Flushed script new_socket_op pending_node abc pending-Holds (omega arith)
      (omega arith) new_wt-IsValid script-IsWhole

-- Two bytes, a signal, one byte, and the end of the stream.
abbrev reads : List ReadRet
reads = got (1 ∷ 2 ∷ []) ∷ (interrupted ∷ (got (3 ∷ []) ∷ (end_of_stream ∷ [])))

pub line_of : {a b : LineBuffer} → some a ≡ some b → a ≡ b
line_of {a} e = ap (λ o. elim o [ none ↦ a | some l ↦ l ]) e

reads-Conforms : Conforms (clean_data new_socket_op.rd_buff) 0 reads
unfolding Conforms clean_data new_socket_op new_line read_size asked_size store_read
reads-Conforms = (
  omega arith,
  omega arith,
  λ line e. rw (← line_of e) (omega arith, omega arith, λ line' e'. tt),
)

reads-small : 0 + length (received reads) + 1 < 2 ^ 29
unfolding received
reads-small = omega arith

read_example :
    (op' : SocketOp) × (node' : SocketNode) × (read reads new_socket_op new_node
      ≡ some (op', node', read_result reads))
    × IsValid op'.rd_buff
    × (op'.rd_buff.buff_size < 2 ^ 31)
    × Holds ([] ++ received reads) node'.rd_buff
    × (node' ≡ record new_node {
      rd_buff = node'.rd_buff;
      op_ret = fd_or new_node.op_ret (read_result reads);
    })
read_example =
    read_lem reads new_socket_op new_node [] new_op-IsValid new_op-size reads-Conforms
      new_rd_buff-Holds reads-small

abbrev readable_node : SocketNode
readable_node = record new_node { sfd = pos 5; event = fd_event_read }

abbrev server : TcpOp
server = new_tcp_op tcp_type_server

server-IsValid : IsValid server.sock.rd_buff
unfolding new_tcp_op
server-IsValid = new_op-IsValid

server-size : server.sock.rd_buff.buff_size < 2 ^ 31
unfolding new_tcp_op
server-size = new_op-size

server-Conforms : Conforms (clean_data server.sock.rd_buff) 0 reads
unfolding new_tcp_op
server-Conforms = reads-Conforms

event_op_example :
    (o : Op) × (event_op reads [] server readable_node ≡ some o)
    × HasRead reads server readable_node [] o
event_op_example =
    event_op-HasRead reads [] server readable_node [] refl new_wt_buff-Holds new_rd_buff-Holds
      server-IsValid server-size server-Conforms reads-small
