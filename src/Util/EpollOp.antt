-- ===== src/Util/EpollOp.antt =====
-- util/EpollOp.hpp, util/EpollOp.cpp: what is asked of the kernel about a descriptor. The calls are
-- a trace, in order; what `epoll_ctl` answers to an ADD is an argument.
use rubo.Base.{Bool, true, false, if◌then◌else◌, List, [], ◌∷◌, ◌++◌}
use rubo.Base.Int.{ℤ, pos, negsuc, is_positive}

-- A call of `epoll_ctl` with its event mask, of `close`, or one that gives a new descriptor. Each mask has EPOLLPRI, EPOLLERR and
-- EPOLLHUP besides.
pub data KernelCall : Type 0 where
  ctl_add_in : ℤ → KernelCall
  ctl_del : ℤ → KernelCall
  ctl_mod_in : ℤ → KernelCall
  ctl_mod_in_out : ℤ → KernelCall
  closes : ℤ → KernelCall
  opens : ℤ → KernelCall

abbrev pub Trace : Type 0
Trace = List KernelCall

unfoldable pub epoll_add : (ℤ → Bool) → ℤ → Trace → Trace × Bool
epoll_add added_ok sfd t = (t ++ (ctl_add_in sfd ∷ []), added_ok sfd)

unfoldable pub epoll_del : ℤ → Trace → Trace
epoll_del sfd t = t ++ (ctl_del sfd ∷ [])

unfoldable pub epoll_in : ℤ → Trace → Trace
epoll_in sfd t = t ++ (ctl_mod_in sfd ∷ [])

unfoldable pub epoll_out : ℤ → Trace → Trace
epoll_out sfd t = t ++ (ctl_mod_in_out sfd ∷ [])

unfoldable pub close_fd : ℤ → Trace → Trace
close_fd sfd t = t ++ (closes sfd ∷ [])

-- `init`, with the answer of `epoll_create1`: the descriptor of the set, and whether there is one.
unfoldable pub epoll_init : ℤ → Trace → Trace × ℤ × Bool
epoll_init (negsuc n) t = (t, negsuc n, false)
epoll_init (pos n) t = (t ++ (opens (pos n) ∷ []), pos n, true)

-- `unit`: the set stays the one of the object.
unfoldable pub epoll_unit : ℤ → Trace → Trace
epoll_unit epoll_fd t = if is_positive epoll_fd then close_fd epoll_fd t else t
