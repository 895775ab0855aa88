-- ===== src/Server/GateWorker/Startup.antt =====
-- server/Gate/GateWorker.cpp: `init` and `unit`.
use rubo.Base.{Bool, true, false}
use rubo.Util.TcpOp.{add_epev}
use rubo.Util.TcpOp.Setup.{InitAnswers}
use rubo.Util.TcpOp.Setup
use rubo.Server.GateWorker.{GateWorker, enter_logic}

unfoldable pub unit : GateWorker → GateWorker
unit w = record w { tcp = Setup.unit w.tcp }

-- The connection of the logic server is given to epoll.
unfoldable pub watch_logic : InitAnswers → GateWorker → GateWorker × Bool
watch_logic a w =
    let (tcp, ok) = add_epev a.added_ok w.logic_fd w.tcp in
    let w' : GateWorker = record w { tcp = tcp } in
    elim ok [ true ↦ (enter_logic w', true) | false ↦ (unit w', false) ]

-- With the result of `init` of the message center.
unfoldable pub init : InitAnswers → Bool → GateWorker → GateWorker × Bool
init a center_ok w = elim center_ok [
  | false ↦ (w, false)
  | true ↦
      let (tcp, ok) = Setup.init a w.tcp in
      let w' : GateWorker = record w { tcp = tcp } in
      elim ok [ true ↦ watch_logic a w' | false ↦ (unit w', false) ]
]
