-- ===== src/Server/GateIo/Startup.antt =====
-- server/Gate/GateIO.cpp, `init`, `unit` and `stop`, and server/Gate/GateMngr.cpp, the thread that runs it.
use rubo.Base.{Bool, true, false, ◌&&◌, List, [], ◌∷◌, Option, none, some, map}
use rubo.Base.Int.{ℤ, pos}
use rubo.Util.IThread.{Now, Running, IThread, is_over, thread_func, join}
use rubo.Util.IThread
use rubo.Util.TcpOp.{set_addr}
use rubo.Util.TcpOp.Setup.{InitAnswers}
use rubo.Util.TcpOp.Setup
use rubo.Msgs.UserMsg.{Text}
use rubo.Server.MysqlDb.{bytes}
use rubo.Server.GateIo.{GateIo}

-- `stop` asks every worker to stop.
unfoldable pub ask_to_stop : Running → Running
ask_to_stop w = record w { thread = IThread.stop w.thread }

unfoldable pub stop_all : List Running → List Running
stop_all ws = map ask_to_stop ws

unfoldable pub all_over : List Running → Bool
all_over [] = true
all_over (w ∷ ws) = is_over w.thread && all_over ws

unfoldable pub join_all : List Running → Option (List Running)
join_all [] = some []
join_all (w ∷ ws) = elim (join w) [
  | none ↦ none
  | some w' ↦ elim (join_all ws) [ none ↦ none | some ws' ↦ some (w' ∷ ws') ]
]

-- The wait of `stop`, in which every worker is woken and takes a turn in each round.
unfoldable pub wait_all : List Now → List Running → Option (List Running)
wait_all [] ws = elim (all_over ws) [ true ↦ join_all ws | false ↦ none ]
wait_all (now ∷ nows) ws = elim (all_over ws) [
  | true ↦ join_all ws
  | false ↦ wait_all nows (map (thread_func now) ws)
]

unfoldable pub stop_workers : List Now → List Running → Option (List Running)
stop_workers nows ws = wait_all nows (stop_all ws)

module _ {State : Type 0} where
  unfoldable pub unit : GateIo State → GateIo State
  unit g = record g { tcp = Setup.unit g.tcp }

  -- With the address that `set_ipport` has put in.
  unfoldable pub init : InitAnswers → Text → ℤ → GateIo State → GateIo State × Bool
  init a ip port g =
      let (tcp, ok) = Setup.init a (set_addr ip port g.tcp) in
      let g' : GateIo State = record g { tcp = tcp } in
      elim ok [ true ↦ (g', true) | false ↦ (unit g', false) ]

  -- `GateMngr::init`: there is no worker yet, so its `unit` closes the sockets once more.
  unfoldable pub init_mngr : InitAnswers → GateIo State → GateIo State × Bool
  init_mngr a g =
      let (g', ok) = init a (bytes "127.0.0.1") (pos 8881) g in
      elim ok [ true ↦ (g', true) | false ↦ (unit g', false) ]
