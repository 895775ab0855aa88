-- ===== src/Util/SocketOp.antt =====
-- util/SocketOp.hpp, util/SocketOp.cpp: reading and writing a connection. The kernel's answers to
-- the calls of `read` and `write` are a list, an argument of the model; where the list ends, the
-- next answer is EAGAIN. What `write` accepted is returned, as the bytes on the wire. The lengths in
-- `send` and `write` are `int`s; they are numbers below 2^31 here, which the theorems assume.
pub mod Send
pub mod Receive
pub mod Frame
pub mod InOrder
pub mod Sockets
use rubo.Base.{
  ℕ, zero, suc, ◌+◌, ◌-◌, ◌%◌, ◌^◌, Bool, true, false, List, [], ◌∷◌, ◌++◌, Option, none, some,
  length, slice, copy_at, leb, ltb, ◌==◌, if◌then◌else◌,
}
use rubo.Base.Int.{ℤ, pos, negsuc, le_bytes, of_u32, to_u32}
use rubo.Base.Fault.{◌>>=◌}
use rubo.Util.RingBuff.{RingBuff, data_size, add_data, read_del_begin}
use rubo.Util.LineBuffer.{LineBuffer, new_line, append_size, clean_data}
use rubo.Util.SocketNode.{
  FdEvent, fd_event_none, fd_event_read, fd_event_write, fd_event_error, fd_or, SocketNode,
}
use rubo.Msgs.UserMsg.{UserMsg, Protobuf}

abbrev pub read_max : ℕ
read_max = 64

abbrev pub write_data_max : ℕ
write_data_max = 2048

pub record SocketOp : Type 0 where
  pub rd_buff : LineBuffer
  pub wt_buff : LineBuffer

unfoldable pub new_socket_op : SocketOp
new_socket_op = record { rd_buff = new_line; wt_buff = new_line }

-- What `::read` answers: bytes, the end of the stream, EAGAIN, EINTR, or another error.
pub data ReadRet : Type 0 where
  got : List ℕ → ReadRet
  end_of_stream again interrupted failed : ReadRet

-- How many bytes a round asks for. `left_read_size` is an `int`, and a negative `read_size` becomes
-- a `size_t` in the call.
unfoldable pub asked_size : ℤ → ℕ
asked_size (pos left_read_size) = if leb read_max left_read_size then read_max else left_read_size
asked_size (negsuc n) = 2 ^ 64 - 1 - n

unfoldable pub read_size : LineBuffer → ℕ → ℕ
read_size line loop_read_size = asked_size (of_u32 ((line.buff_size - loop_read_size) % 2 ^ 32))

-- A round that got bytes: they go behind those of the rounds before, and a full block is enlarged.
unfoldable pub store_read : LineBuffer → ℕ → List ℕ → Option LineBuffer
store_read line loop_read_size xs =
    let line1 : LineBuffer = record line { buff = copy_at line.buff loop_read_size xs } in
    if loop_read_size + length xs == line.buff_size then append_size line1 0 else some line1

-- The loop of `read`: the block, the number of bytes in it, and the result.
unfoldable pub read_loop : List ReadRet → LineBuffer → ℕ → Option (LineBuffer × ℕ × FdEvent)
read_loop [] line n = some (line, n, fd_event_none)
read_loop (again ∷ script) line n = some (line, n, fd_event_none)
read_loop (interrupted ∷ script) line n = read_loop script line n
read_loop (failed ∷ script) line n = some (line, n, fd_event_error)
read_loop (end_of_stream ∷ script) line n = some (line, n, fd_event_error)
read_loop (got xs ∷ script) line n = elim (store_read line n xs) [
  | none ↦ none
  | some line' ↦ read_loop script line' (n + length xs)
]

unfoldable pub read :
    List ReadRet → SocketOp → SocketNode → Option (SocketOp × SocketNode × FdEvent)
read script op node = do
  (line, n, ret) ← read_loop script (clean_data op.rd_buff) 0
  let rd = if ltb 0 n then add_data node.rd_buff (slice line.buff 0 n) else node.rd_buff
  some (
    record op { rd_buff = line },
    record node { rd_buff = rd; op_ret = fd_or node.op_ret ret },
    ret,
  )

-- What `::write` answers: the number of bytes that it took, EINTR, EAGAIN, or another error.
pub data WriteRet : Type 0 where
  wrote : ℕ → WriteRet
  intr would_block broken : WriteRet

-- How a call of `send` ends: the bytes on the wire, the node and the result.
pub record Sent : Type 0 where
  pub wire : List ℕ
  pub node : SocketNode
  pub ret : FdEvent

-- The size of the next chunk.
unfoldable pub one_len : ℕ → ℕ → ℕ
one_len len wt_len = if ltb write_data_max (len - wt_len) then write_data_max else len - wt_len

-- EAGAIN: what has not been written is kept for later.
unfoldable pub keep_rest : List ℕ → ℕ → SocketNode → List ℕ → Sent
keep_rest bytes wt_len node wire = record {
  wire = wire;
  node = record node {
    wt_buff = add_data node.wt_buff (slice bytes wt_len (length bytes - wt_len));
  };
  ret = fd_event_write;
}

-- The loop of `send`. `wt_len` grows by the chunk asked for, not by what the kernel took of it.
unfoldable pub send_loop : List WriteRet → List ℕ → ℕ → SocketNode → List ℕ → Sent
send_loop [] bytes wt_len node wire =
    if ltb wt_len (length bytes)
    then keep_rest bytes wt_len node wire
    else record { wire = wire; node = node; ret = fd_event_none }
send_loop (answer ∷ script) bytes wt_len node wire = elim (ltb wt_len (length bytes)) [
  | false ↦ record { wire = wire; node = node; ret = fd_event_none }
  | true ↦ elim answer [
    | wrote zero ↦ record { wire = wire; node = node; ret = fd_event_error }
    | wrote (suc k) ↦
        send_loop script bytes (wt_len + one_len (length bytes) wt_len) node
          (wire ++ slice bytes wt_len (suc k))
    | intr ↦ send_loop script bytes wt_len node wire
    | would_block ↦ keep_rest bytes wt_len node wire
    | broken ↦ record { wire = wire; node = node; ret = fd_event_error }
  ]
]

-- `return true` gives the `int` 1, which is FD_EVENT_READ.
unfoldable pub send : List WriteRet → SocketNode → List ℕ → Sent
send script node bytes = if node.can_wt then send_loop script bytes 0 node [] else record {
  wire = [];
  node = record node { wt_buff = add_data node.wt_buff bytes };
  ret = fd_event_read;
}

-- The end of `write(sock_node)`: the bytes go through the block, and then to `send`.
unfoldable pub send_pending :
    List WriteRet → SocketOp → SocketNode → ℕ → LineBuffer → SocketOp × Sent
send_pending script op node data_len line =
    let (_, bytes, ring) = read_del_begin node.wt_buff data_len in
    let filled : LineBuffer = record line { buff = copy_at line.buff 0 bytes } in
    let sent = send script (record node { wt_buff = ring }) (slice filled.buff 0 data_len) in
    (
      record op { wt_buff = filled },
      record sent { node = record (sent.node) { op_ret = fd_or sent.node.op_ret sent.ret } },
    )

-- `write(sock_node)`: what was kept is taken out of the ring and sent.
unfoldable pub write_pending : List WriteRet → SocketOp → SocketNode → Option (SocketOp × Sent)
write_pending script op node0 =
    let node : SocketNode = record node0 { can_wt = true } in
    let data_len = data_size node.wt_buff in
    if leb data_len 0
    then some (
      op,
      record {
        wire = [];
        node = record node { op_ret = fd_or node.op_ret fd_event_none };
        ret = fd_event_none;
      },
    )
    else (append_size (clean_data op.wt_buff) data_len >>= λ line.
        some (send_pending script op node data_len line))

module _ (proto : Protobuf) where
  -- The header and the body, written into the block at 0, 4, 8 and 12.
  unfoldable pub fill_message : List ℕ → UserMsg → List ℕ
  fill_message block m =
      let body = proto.serialize m.msg in
      copy_at
        (copy_at (copy_at (copy_at block 0 (le_bytes (length body))) 4 (le_bytes (to_u32 m.msg_id)))
          8 (le_bytes (to_u32 m.uid)))
        12 body

  -- `write(sock_node, msg)`
  unfoldable pub write_msg :
      List WriteRet → SocketOp → SocketNode → UserMsg → Option (SocketOp × Sent)
  write_msg script op node m =
      let msg_len = length (proto.serialize m.msg) in
      append_size (clean_data op.wt_buff) (msg_len + 4 + 4 + 4) >>= λ line.
      let filled : LineBuffer = record line { buff = fill_message line.buff m } in
      some (record op { wt_buff = filled }, send script node (slice filled.buff 0 (msg_len + 12)))
