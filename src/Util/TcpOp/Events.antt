-- ===== src/Util/TcpOp/Events.antt =====
-- What `event_op` does with the events of a connection.
use rubo.Base.{
  ℕ, ◌+◌, ◌^◌, ◌<◌, ◌≡◌, refl, sym, ap, ◌∙◌, inl, inr, true, false, List, [], ◌∷◌, ◌++◌, some,
  arith, length, ltb, le→ltb, if◌then◌else◌, if_true, if_false, Bool-cases, append_assoc,
}
use rubo.Util.RingBuff.{data_size}
use rubo.Util.RingBuff.Writes.{Holds}
use rubo.Util.RingBuff.Takes.{data_size-Holds}
use rubo.Util.LineBuffer.{clean_data}
use rubo.Util.LineBuffer.Laws
use rubo.Util.SocketNode.{SocketNode, FdEvent, fd_event_none, fd_event_read, fd_event_error, fd_or}
use rubo.Util.SocketOp.{SocketOp, ReadRet, WriteRet, read}
use rubo.Util.SocketOp.Receive.{received, ended, Conforms, read_result, read_lem}
use rubo.Util.EpollOp.{ctl_del, closes, epoll_del, close_fd}
use rubo.Util.TcpOp.{TcpOp, Op, close_op, read_part, write_part, finish, event_op}

read_part-some :
    (script : List ReadRet) (t : TcpOp) (node node' : SocketNode) (sock : SocketOp) (ret : FdEvent)
    → node.event.read ≡ true
    → read script t.sock node ≡ some (sock, node', ret)
    → read_part script t node
      ≡ some (record {
        tcp = record t { sock = sock };
        node = node';
        wire = [];
        ret = fd_or (fd_or fd_event_none ret) fd_event_read;
      })
unfolding read_part
read_part-some script t node node' sock ret r e = rw (read_part, r, e) refl

write_part-idle :
    (script : List WriteRet) (o : Op)
    → o.node.event.write ≡ false
    → data_size o.node.wt_buff ≡ 0
    → write_part script o ≡ some o
unfolding write_part
write_part-idle script o w d =
    let t : ltb 0 (data_size o.node.wt_buff) ≡ false = le→ltb 0 _ (omega arith) in
    if_false o.node.event.write _ _ w ∙ if_false (ltb 0 (data_size o.node.wt_buff)) _ _ t

-- What `event_op` returns where a connection is only readable, and has nothing pending.
pub record HasRead (script : List ReadRet) (t : TcpOp) (node : SocketNode) (held : List ℕ) (o : Op)
    : Type 0 where
  pub bytes : Holds (held ++ received script) o.node.rd_buff
  pub silent : o.wire ≡ []
  pub result : o.ret ≡ (if ended script then fd_event_error else fd_event_read)
  pub closed :
      o.tcp.calls
      ≡ (if ended script then t.calls ++ (closes node.sfd ∷ (ctl_del node.sfd ∷ [])) else t.calls)
  pub events : (o.node.event ≡ fd_event_none) × (o.node.op_ret ≡ fd_event_none)
  pub same_node : (o.node.kind ≡ node.kind) × (o.node.sfd ≡ node.sfd)

finish-HasRead :
    (script : List ReadRet) (t : TcpOp) (node node' : SocketNode) (sock : SocketOp) (held : List ℕ)
    → Holds (held ++ received script) node'.rd_buff
    → node'.sfd ≡ node.sfd
    → node'.kind ≡ node.kind
    → HasRead script t node held (
        finish (record {
          tcp = record t { sock = sock };
          node = node';
          wire = [];
          ret = fd_or (fd_or fd_event_none (read_result script)) fd_event_read;
        }))
unfolding finish close_op epoll_del close_fd
finish-HasRead script t node node' sock held h same kind = elim (Bool-cases (ended script)) [
  | inl e ↦
      rw (finish, e)
        (record {
          bytes = h;
          silent = refl;
          result = rw e refl;
          closed =
              ap (λ s. (t.calls ++ (closes s ∷ [])) ++ (ctl_del s ∷ [])) same
              ∙ append_assoc t.calls (closes node.sfd ∷ []) (ctl_del node.sfd ∷ [])
              ∙ sym (if_true (ended script) _ _ e);
          events = (refl, refl);
          same_node = (kind, same);
        })
  | inr e ↦
      rw (finish, e)
        (record {
          bytes = h;
          silent = refl;
          result = rw e refl;
          closed = rw e refl;
          events = (refl, refl);
          same_node = (kind, same);
        })
]

-- While less than 2^29 bytes are held and received, `event_op` on a connection that is only
-- readable and has nothing pending returns with the received bytes in the ring, nothing sent and
-- the events cleared; at an error or the end of the stream the descriptor is closed and taken out
-- of epoll and the result is the error flag alone, otherwise the kernel is not asked for anything
-- and the result is the read flag alone; its kind and its descriptor stay.
pub event_op-HasRead :
    (reads : List ReadRet) (writes : List WriteRet) (t : TcpOp) (node : SocketNode) (held : List ℕ)
    → node.event ≡ fd_event_read
    → Holds [] node.wt_buff
    → Holds held node.rd_buff
    → Laws.IsValid t.sock.rd_buff
    → t.sock.rd_buff.buff_size < 2 ^ 31
    → Conforms (clean_data t.sock.rd_buff) 0 reads
    → length held + length (received reads) + 1 < 2 ^ 29
    → (o : Op) × (event_op reads writes t node ≡ some o) × HasRead reads t node held o
unfolding event_op
event_op-HasRead reads writes t node held ev w h v size c small =
    let (sock, node', e, _, _, h', same) = read_lem reads t.sock node held v size c h small in
    let o : Op = record {
      tcp = record t { sock = sock };
      node = node';
      wire = [];
      ret = fd_or (fd_or fd_event_none (read_result reads)) fd_event_read;
    } in
    let e1 : read_part reads t node ≡ some o =
      read_part-some reads t node node' sock (read_result reads) (ap (λ x. x.read) ev) e in
    let e2 : write_part writes o ≡ some o =
      write_part-idle writes o (ap (λ n. n.event.write) same ∙ ap (λ x. x.write) ev)
        (ap (λ n. data_size n.wt_buff) same ∙ data_size-Holds w) in
    (
      finish o,
      rw (e1, e2) refl,
      finish-HasRead reads t node node' sock held h' (ap (λ n. n.sfd) same) (ap (λ n. n.kind) same),
    )
