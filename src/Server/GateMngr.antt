-- ===== src/Server/GateMngr.antt =====
-- server/Gate/GateMngr.hpp, server/Gate/GateMngr.cpp: the thread that runs the connections of the gate. Its
-- `init` is `init_mngr` of GateIo.Startup; the functions of its timer only log.
pub mod Stopping
use rubo.Base.{List, Option, none, some}
use rubo.Util.IThread.{Now, Running}
use rubo.Msgs.UserMsg.{Protobuf}
use rubo.Server.MysqlDb.{Driver}
use rubo.Server.GateIo.{GateIo}
use rubo.Server.GateIo.Round.{Answers, run}
use rubo.Server.GateIo.Startup.{stop_workers}
use rubo.Server.GateIo.Startup as GateIoStartup

-- The threads of the workers, which GateIO keeps with them, stand apart.
pub record GateMngr (State : Type 0) : Type 0 where
  pub io_mngr : GateIo State
  pub threads : List Running

module _ {State : Type 0} where
  -- `stop` of GateIO, and then its `unit`. `none` is that the wait does not end.
  unfoldable pub unit : List Now → GateMngr State → Option (GateMngr State)
  unit nows g = elim (stop_workers nows g.threads) [
    | none ↦ none
    | some threads ↦ some (record { io_mngr = GateIoStartup.unit g.io_mngr; threads = threads })
  ]

  module _ (driver : Driver State) (proto : Protobuf) where
    unfoldable pub handler_network : Answers → GateMngr State → Option (GateMngr State)
    handler_network a g = elim (run driver proto a g.io_mngr) [
      | none ↦ none
      | some io ↦ some (record g { io_mngr = io })
    ]

    -- `handler_netdata` is empty.
    unfoldable pub thread_loop : Answers → GateMngr State → Option (GateMngr State)
    thread_loop a g = handler_network a g
