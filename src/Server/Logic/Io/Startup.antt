-- ===== src/Server/Logic/Io/Startup.antt =====
-- server/Logic/LogicIO.cpp: the connection to the gate, from `init` to `unit`.
use rubo.Base.{Bool, true, false, List, [], Option, none, some}
use rubo.Base.Int.{pos}
use rubo.Util.SocketOp.{WriteRet}
use rubo.Util.TcpOp.{set_addr}
use rubo.Util.TcpOp.Setup.{InitAnswers}
use rubo.Util.TcpOp.Setup
use rubo.Msgs.UserMsg.{Protobuf}
use rubo.Server.MysqlDb.{bytes}
use rubo.Server.Logic.Io.{LogicIo, conn_node, verify_to_gate}

-- `TcpOp::unit` does not forget the descriptors.
unfoldable pub unit : LogicIo → LogicIo
unit io = record io { tcp = Setup.unit io.tcp; workers = [] }

module _ (proto : Protobuf) where
  -- `init_net` once `TcpOp::init` has succeeded: a verification that was not sent closes all.
  unfoldable pub verified : List WriteRet → LogicIo → Option (LogicIo × Bool)
  verified script io = elim (verify_to_gate proto script io) [
    | none ↦ none
    | some (io', sent) ↦ elim sent [ true ↦ some (io', true) | false ↦ some (unit io', false) ]
  ]

  unfoldable pub init_net : InitAnswers → List WriteRet → LogicIo → Option (LogicIo × Bool)
  init_net a script io =
      let (tcp, ok) = Setup.init a (set_addr (bytes "127.0.0.1") (pos 8881) io.tcp) in
      elim ok [
        | false ↦ some (record io { tcp = tcp }, false)
        | true ↦ verified script (record io { tcp = tcp; conn = conn_node tcp.sock_fd })
      ]

  -- A failure of `init_net` closes all, also where it has done so itself.
  unfoldable pub init : InitAnswers → List WriteRet → LogicIo → Option (LogicIo × Bool)
  init a script io = elim (init_net a script io) [
    | none ↦ none
    | some (io', ok) ↦ elim ok [ true ↦ some (io', true) | false ↦ some (unit io', false) ]
  ]
