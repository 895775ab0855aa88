-- ===== src/Server/GateMngr/Stopping.antt =====
-- server/Gate/GateMngr.cpp, `unit`: the workers of the gate end, and then its sockets.
use rubo.Base.{ℕ, suc, ◌≤◌, ◌≡◌, ap, arith, ltb, true, List, [], ◌∷◌, ◌++◌, none, some, length}
use rubo.Base.Int.{pos}
use rubo.Util.EpollOp.{closes, close_fd, epoll_unit}
use rubo.Util.TcpOp.{TcpOp}
use rubo.Util.TcpOp.Setup
use rubo.Util.IThread.{Now}
use rubo.Util.IThread.Stopping.{AllWork, AllJoined}
use rubo.Server.GateIo.Startup as GateIoStartup
use rubo.Server.GateIo.Startup.{stop_workers}
use rubo.Server.GateIo.Stopping.{stop_workers-AllJoined}
use rubo.Server.GateMngr.{GateMngr, unit}

-- The calls of `unit` of a TcpOp.
unit-closes :
    (t : TcpOp) (s n : ℕ)
    → t.sock_fd ≡ pos (suc s)
    → t.epoll_fd ≡ pos (suc n)
    → (Setup.unit t).calls ≡ (t.calls ++ (closes (pos (suc s)) ∷ [])) ++ (closes (pos (suc n)) ∷ [])
unfolding Setup.unit epoll_unit close_fd
unit-closes t s n e f =
    let socket : ltb 0 (suc s) ≡ true = ground arith in
    let set : ltb 0 (suc n) ≡ true = ground arith in rw (Setup.unit, epoll_unit, e, f, socket, set)

module _ {State : Type 0} where
  -- If all workers of the gate were started and are not over, however their owner's calls and their
  -- own turns interleaved so far, at least five rounds of their turns come while `stop` waits, and
  -- the descriptors of the socket and of the set of epoll are positive, then `unit` of GateMngr
  -- returns with all of them joined, each having called its own `unit` exactly once, and with the
  -- socket and then the set of epoll closed, once more each.
  pub unit-AllJoined :
      (nows : List Now) (g : GateMngr State) (s n : ℕ)
      → AllWork g.threads
      → 5 ≤ length nows
      → g.io_mngr.tcp.sock_fd ≡ pos (suc s)
      → g.io_mngr.tcp.epoll_fd ≡ pos (suc n)
      → (g' : GateMngr State) × (unit nows g ≡ some g')
        × AllJoined g.threads g'.threads
        × (g'.io_mngr.tcp.calls
            ≡ (g.io_mngr.tcp.calls ++ (closes (pos (suc s)) ∷ [])) ++ (closes (pos (suc n)) ∷ []))
  unfolding unit GateIoStartup.unit
  unit-AllJoined nows g s n all enough e f =
      let (threads, ended, joined) = stop_workers-AllJoined nows g.threads all enough in
      (
        record { io_mngr = GateIoStartup.unit g.io_mngr; threads = threads },
        ap
            (λ x. elim x [
              | none ↦ none
              | some threads ↦
                  some (record { io_mngr = GateIoStartup.unit g.io_mngr; threads = threads })
            ])
            ended,
        joined,
        unit-closes g.io_mngr.tcp s n e f,
      )
