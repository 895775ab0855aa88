-- ===== src/Util/SocketOp/Frame.antt =====
-- `write(sock, msg)`, the frame of a message, and `write(sock)`.
use rubo.Base.{
  ℕ, ◌+◌, ◌^◌, ◌≤◌, ◌<◌, ◌≡◌, refl, ap, ap₂, sym, ◌∙◌, true, List, [], ◌++◌, append-nil, some,
  arith, length, slice, copy_at, lt→leb, length-copy_at, slice-add, slice-copy_at_before,
  slice-copy_at_self,
}
use rubo.Base.Int.{le_bytes, to_u32}
use rubo.Util.RingBuff.{RingBuff, data_size, read_del_begin}
use rubo.Util.RingBuff.Writes.{Holds}
use rubo.Util.RingBuff.Takes.{read_del_begin-append, data_size-Holds}
use rubo.Util.LineBuffer.{LineBuffer, clean_data}
use rubo.Util.LineBuffer.Laws
use rubo.Util.LineBuffer.Laws.{append_size_lem, clean_data-IsValid, Grows}
use rubo.Util.SocketNode.{SocketNode, fd_or}
use rubo.Util.SocketOp.{
  SocketOp, WriteRet, Sent, send, send_pending, write_pending, fill_message, write_msg,
}
use rubo.Util.SocketOp.Send.{Outcome, IsWhole, send-Outcome}
use rubo.Msgs.UserMsg.{UserMsg, Protobuf}

-- The start of a block, up to the end of a write.
slice-copy_at_end :
    (b : List ℕ) (off k : ℕ) (xs : List ℕ)
    → k ≡ off + length xs
    → k ≤ length b
    → slice (copy_at b off xs) 0 k ≡ slice b 0 off ++ xs
slice-copy_at_end b off k xs e h =
    slice-add (copy_at b off xs) 0 off (length xs) k off e (omega arith)
    ∙ ap₂ ◌++◌ (slice-copy_at_before b off 0 off xs (omega arith))
        (slice-copy_at_self b off (length xs) xs refl (omega arith))

module _ (proto : Protobuf) where
  -- The bytes of a message in the stream.
  abbrev pub frame : UserMsg → List ℕ
  frame m =
      let body = proto.serialize m.msg in
      le_bytes (length body) ++ (le_bytes (to_u32 m.msg_id) ++ (le_bytes (to_u32 m.uid) ++ body))

  fill_message-frame :
      (block : List ℕ) (m : UserMsg)
      → length (proto.serialize m.msg) + 12 ≤ length block
      → slice (fill_message proto block m) 0 (length (proto.serialize m.msg) + 12) ≡ frame m
  unfolding fill_message
  fill_message-frame block m h =
      let body = proto.serialize m.msg in
      let len_bytes = le_bytes (length body) in
      let id_bytes = le_bytes (to_u32 m.msg_id) in
      let uid_bytes = le_bytes (to_u32 m.uid) in
      let b1 = copy_at block 0 len_bytes in
      let b2 = copy_at b1 4 id_bytes in
      let b3 = copy_at b2 8 uid_bytes in
      let l1 = length-copy_at block 0 len_bytes in
      let l2 = length-copy_at b1 4 id_bytes in
      let l3 = length-copy_at b2 8 uid_bytes in
      slice-copy_at_end b3 12 (length body + 12) body (omega arith) (omega arith)
      ∙ ap (λ l. l ++ body)
          (slice-copy_at_end b2 8 12 uid_bytes refl (omega arith)
            ∙ ap (λ l. l ++ uid_bytes)
                (slice-copy_at_end b1 4 8 id_bytes refl (omega arith)
                  ∙ ap (λ l. l ++ id_bytes)
                      (slice-copy_at_end block 0 4 len_bytes refl (omega arith))))

  -- For a message whose body and header have less than 2^31 bytes, `write(sock, msg)` returns and
  -- sends exactly the length, the number and the user, four bytes each with the low byte first, and
  -- the body.
  pub write_msg_lem :
      (script : List WriteRet) (op : SocketOp) (node : SocketNode) (m : UserMsg)
      → Laws.IsValid op.wt_buff
      → length (proto.serialize m.msg) + 12 < 2 ^ 31
      → (op' : SocketOp) × (write_msg proto script op node m
          ≡ some (op', send script node (frame m)))
        × Laws.IsValid op'.wt_buff
  unfolding write_msg
  write_msg_lem script op node m v small =
      let n = length (proto.serialize m.msg) in
      let (line, e, g) =
        append_size_lem (clean_data op.wt_buff) (n + 4 + 4 + 4) (clean_data-IsValid v) (omega arith)
          (omega arith) in
      let filled = fill_message proto line.buff m in
      (
        record op { wt_buff = record line { buff = filled } },
        rw (e, fill_message-frame line.buff m (omega (arith, g.valid.block, g.wanted))),
        record { block = length-fill_message line.buff m ∙ g.valid.block; room = g.valid.room },
      )
    where
      length-fill_message :
          (block : List ℕ) (m : UserMsg) → length (fill_message proto block m) ≡ length block
      length-fill_message block m =
          unfold fill_message in
          (let body = proto.serialize m.msg in
            let b1 = copy_at block 0 (le_bytes (length body)) in
            let b2 = copy_at b1 4 (le_bytes (to_u32 m.msg_id)) in
            let b3 = copy_at b2 8 (le_bytes (to_u32 m.uid)) in
            length-copy_at b3 12 body
            ∙ length-copy_at b2 8 (le_bytes (to_u32 m.uid))
            ∙ length-copy_at b1 4 (le_bytes (to_u32 m.msg_id))
            ∙ length-copy_at block 0 (le_bytes (length body)))

-- What a flush does: nothing if nothing is kept; otherwise the kept bytes leave the ring and are
-- sent, so that a rest is the whole of the ring again if the kernel blocks, and is lost if it breaks the
-- connection.
pub record Flushed (script : List WriteRet) (pending : List ℕ) (node : SocketNode) (op' : SocketOp)
    (s : Sent) : Type 0 where
  pub ring : RingBuff
  pub emptied : Holds [] ring
  pub outcome :
      (sent : Sent) × Outcome script pending (record node { wt_buff = ring }) sent
      × (s ≡ record sent { node = record (sent.node) { op_ret = fd_or sent.node.op_ret sent.ret } })

send_pending-Flushed :
    (script : List WriteRet) (op : SocketOp) (node : SocketNode) (pending : List ℕ)
    (line : LineBuffer)
    → Holds pending node.wt_buff
    → node.can_wt ≡ true
    → 0 < length pending
    → length pending + 1 < 2 ^ 31
    → length pending ≤ length line.buff
    → IsWhole (length pending) 0 script
    → let (op', s) = send_pending script op node (length pending) line in
      Flushed script pending node op' s
unfolding send_pending
send_pending-Flushed script op node pending line h writable some_kept small room w =
    let h' : Holds (pending ++ []) node.wt_buff = record {
      valid = h.valid;
      bytes = h.bytes ∙ sym (append-nil pending);
    } in
    let (_, eb, hr) = read_del_begin-append pending [] h' (length pending) refl (omega arith) in
    let bytes = (read_del_begin node.wt_buff (length pending)).1 in
    let ring = (read_del_begin node.wt_buff (length pending)).2 in
    let node' : SocketNode = record node { wt_buff = ring } in
    let sl : slice (copy_at line.buff 0 bytes) 0 (length pending) ≡ pending =
      ap (λ b. slice (copy_at line.buff 0 b) 0 (length pending)) eb
      ∙ slice-copy_at_self line.buff 0 (length pending) pending refl (omega arith) in
    let o = send-Outcome script node' pending writable hr.valid (rw (hr.bytes) (omega arith)) w in
    record {
      ring = ring;
      emptied = hr;
      outcome =
          (send script node' (slice (copy_at line.buff 0 bytes) 0 (length pending)), rw sl o, refl);
    }

-- If the kernel takes whole chunks, up to an error, `write(sock)` on a connection with pending
-- bytes (less than 2^31) returns, empties the send ring and sends these bytes: all are on the wire;
-- or, only if the kernel answers EAGAIN, a rest of them, which is not empty, is the whole of the
-- ring again; or, only if it answers an error or 0 bytes, the ring stays empty, an error is
-- reported and the rest is lost.
pub write_pending-Flushed :
    (script : List WriteRet) (op : SocketOp) (node : SocketNode) (pending : List ℕ)
    → Holds pending node.wt_buff
    → 0 < length pending
    → length pending + 1 < 2 ^ 31
    → Laws.IsValid op.wt_buff
    → IsWhole (length pending) 0 script
    → (op' : SocketOp) × (s : Sent) × (write_pending script op node ≡ some (op', s))
      × Flushed script pending (record node { can_wt = true }) op' s
unfolding write_pending
write_pending-Flushed script op node pending h some_kept small v w =
    let (line, e, g) =
      append_size_lem (clean_data op.wt_buff) (length pending) (clean_data-IsValid v) (omega arith)
        (omega arith) in
    let d : data_size node.wt_buff ≡ length pending = data_size-Holds h in
    let node' : SocketNode = record node { can_wt = true } in
    let r = send_pending script op node' (length pending) line in
    (
      r.0,
      r.1,
      rw (d, lt→leb (length pending) 0 some_kept, e),
      send_pending-Flushed script op node' pending line h refl some_kept small
          (omega (arith, g.valid.block, g.wanted)) w,
    )
