-- ===== src/Util/TcpOp/NeverOut.antt =====
-- `event_op` and EPOLLOUT: the test before `epoll_out` compares the bit 2 with `true`.
use mathlib.Core.Path.{subst}
use rubo.Base.{
  ◌≡◌, refl, ◌∙◌, inl, inr, Bool, true, false, List, [], ◌∷◌, Option, none, some, ltb,
  if◌then◌else◌, Bool-cases, Option-cases,
}
use rubo.Base.Int.{ℤ}
use rubo.Util.RingBuff.{data_size}
use rubo.Util.SocketNode.{SocketNode, FdEvent}
use rubo.Util.SocketOp.{ReadRet, WriteRet, read, write_pending}
use rubo.Util.EpollOp.{
  ctl_add_in, ctl_del, ctl_mod_in, ctl_mod_in_out, closes, opens, Trace, epoll_del, epoll_in,
  close_fd,
}
use rubo.Util.TcpOp.{
  TcpOp, Op, close_op, read_part, write_then, poll_in, poll_out, write_part, finish, event_op,
}

-- Whether the kernel has been asked to report that a connection is writable.
unfoldable pub asks_out : Trace → Bool
asks_out [] = false
asks_out (ctl_mod_in_out _ ∷ t) = true
asks_out (ctl_add_in _ ∷ t) = asks_out t
asks_out (ctl_del _ ∷ t) = asks_out t
asks_out (ctl_mod_in _ ∷ t) = asks_out t
asks_out (closes _ ∷ t) = asks_out t
asks_out (opens _ ∷ t) = asks_out t

-- A call that does not ask for it.
abbrev IsOther : (Trace → Trace) → Type 0
IsOther f = (t : Trace) → asks_out (f t) ≡ asks_out t

epoll_in-IsOther : (fd : ℤ) → IsOther (epoll_in fd)
unfolding asks_out epoll_in
epoll_in-IsOther fd [] = refl
epoll_in-IsOther fd (ctl_mod_in_out _ ∷ t) = refl
epoll_in-IsOther fd (ctl_add_in _ ∷ t) = epoll_in-IsOther fd t
epoll_in-IsOther fd (ctl_del _ ∷ t) = epoll_in-IsOther fd t
epoll_in-IsOther fd (ctl_mod_in _ ∷ t) = epoll_in-IsOther fd t
epoll_in-IsOther fd (closes _ ∷ t) = epoll_in-IsOther fd t
epoll_in-IsOther fd (opens _ ∷ t) = epoll_in-IsOther fd t

close_fd-IsOther : (fd : ℤ) → IsOther (close_fd fd)
unfolding asks_out close_fd
close_fd-IsOther fd [] = refl
close_fd-IsOther fd (ctl_mod_in_out _ ∷ t) = refl
close_fd-IsOther fd (ctl_add_in _ ∷ t) = close_fd-IsOther fd t
close_fd-IsOther fd (ctl_del _ ∷ t) = close_fd-IsOther fd t
close_fd-IsOther fd (ctl_mod_in _ ∷ t) = close_fd-IsOther fd t
close_fd-IsOther fd (closes _ ∷ t) = close_fd-IsOther fd t
close_fd-IsOther fd (opens _ ∷ t) = close_fd-IsOther fd t

epoll_del-IsOther : (fd : ℤ) → IsOther (epoll_del fd)
unfolding asks_out epoll_del
epoll_del-IsOther fd [] = refl
epoll_del-IsOther fd (ctl_mod_in_out _ ∷ t) = refl
epoll_del-IsOther fd (ctl_add_in _ ∷ t) = epoll_del-IsOther fd t
epoll_del-IsOther fd (ctl_del _ ∷ t) = epoll_del-IsOther fd t
epoll_del-IsOther fd (ctl_mod_in _ ∷ t) = epoll_del-IsOther fd t
epoll_del-IsOther fd (closes _ ∷ t) = epoll_del-IsOther fd t
epoll_del-IsOther fd (opens _ ∷ t) = epoll_del-IsOther fd t

poll_in-IsOther : (ret : FdEvent) (fd : ℤ) → IsOther (poll_in ret fd)
unfolding poll_in
poll_in-IsOther ret fd t = elim (Bool-cases ret.write) [
  | inl e ↦ rw (poll_in, e) refl
  | inr e ↦ rw (poll_in, e) (epoll_in-IsOther fd t)
]

poll_out-IsOther : (ret : FdEvent) (fd : ℤ) → IsOther (poll_out ret fd)
unfolding poll_out
poll_out-IsOther ret fd t = elim (Bool-cases ret.write) [
  | inl e ↦ rw (poll_out, e) refl
  | inr e ↦ rw (poll_out, e) refl
]

-- A part that returns has asked no more than before.
abbrev Quiet : Trace → Option Op → Type 0
Quiet t none = Unit
Quiet t (some o) = asks_out o.tcp.calls ≡ asks_out t

Quiet-some : (t : Trace) (r : Option Op) (o : Op) → Quiet t r → r ≡ some o → Quiet t (some o)
Quiet-some t r o q e = subst (Quiet t) e q

write_then-Quiet :
    (poll : FdEvent → ℤ → Trace → Trace)
    → ((ret : FdEvent) (fd : ℤ) → IsOther (poll ret fd))
    → (script : List WriteRet) (o : Op) → Quiet o.tcp.calls (write_then poll script o)
unfolding write_then
write_then-Quiet poll other script o =
    elim (Option-cases (write_pending script o.tcp.sock o.node)) [
      | inl e ↦ rw (write_then, e) tt
      | inr ((sock, sent), e) ↦ rw (write_then, e) (other sent.ret sent.node.sfd o.tcp.calls)
    ]

Quiet-if :
    (t : Trace) (b : Bool) (x y : Option Op) → Quiet t x → Quiet t y → Quiet t (if b then x else y)
Quiet-if t true x y p q = p
Quiet-if t false x y p q = q

write_part-Quiet : (script : List WriteRet) (o : Op) → Quiet o.tcp.calls (write_part script o)
unfolding write_part
write_part-Quiet script o =
    Quiet-if o.tcp.calls o.node.event.write _ _ (write_then-Quiet poll_in poll_in-IsOther script o)
      (Quiet-if o.tcp.calls (ltb 0 (data_size o.node.wt_buff)) _ _
        (write_then-Quiet poll_out poll_out-IsOther script o) refl)

read_part-Quiet :
    (script : List ReadRet) (t : TcpOp) (node : SocketNode)
    → Quiet t.calls (read_part script t node)
unfolding read_part
read_part-Quiet script t node = elim (Bool-cases node.event.read) [
  | inr e ↦ rw (read_part, e) refl
  | inl e ↦ elim (Option-cases (read script t.sock node)) [
    | inl r ↦ rw (read_part, e, r) tt
    | inr ((sock, node', ret), r) ↦ rw (read_part, e, r) refl
  ]
]

finish-Quiet : (o : Op) → Quiet o.tcp.calls (some (finish o))
unfolding finish close_op
finish-Quiet o = elim (Bool-cases o.ret.error) [
  | inr e ↦ rw (finish, e) refl
  | inl e ↦
      rw (finish, e)
        (epoll_del-IsOther o.node.sfd (close_fd o.node.sfd o.tcp.calls)
          ∙ close_fd-IsOther o.node.sfd o.tcp.calls)
]

event_op-Quiet :
    (reads : List ReadRet) (writes : List WriteRet) (t : TcpOp) (node : SocketNode)
    → Quiet t.calls (event_op reads writes t node)
unfolding event_op
event_op-Quiet reads writes t node = elim (Option-cases (read_part reads t node)) [
  | inl e ↦ rw (event_op, e) tt
  | inr (o, e) ↦ elim (Option-cases (write_part writes o)) [
    | inl e' ↦ rw (event_op, e, e') tt
    | inr (o', e') ↦
        rw (event_op, e, e')
          (finish-Quiet o'
            ∙ Quiet-some o.tcp.calls (write_part writes o) o' (write_part-Quiet writes o) e'
            ∙ Quiet-some t.calls (read_part reads t node) o (read_part-Quiet reads t node) e)
  ]
]

-- No call of `event_op`, whatever the events, the pending bytes and the answers of the kernel, asks
-- epoll to report that a connection is writable.
pub event_op-never_out :
    (reads : List ReadRet) (writes : List WriteRet) (t : TcpOp) (node : SocketNode) (o : Op)
    → event_op reads writes t node ≡ some o
    → asks_out o.tcp.calls ≡ asks_out t.calls
event_op-never_out reads writes t node o e =
    Quiet-some t.calls (event_op reads writes t node) o (event_op-Quiet reads writes t node) e
