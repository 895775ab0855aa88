-- ===== src/Server/Chain/Answers.antt =====
-- server/Gate/GateWorker.cpp, server/Logic/LogicIO.cpp and server/Logic/LogicWorker.cpp, joined: a request of
-- a user, from the gate to the answer of the only worker of the logic server.
use rubo.Base.{List, [], ◌∷◌}
use rubo.Base.Int.{ℤ}
use rubo.Util.SocketNode.{SocketNode}
use rubo.Msgs.UserMsg.{Text, UserMsg}
use rubo.Server.GateWorker.{GateWorker}
use rubo.Server.LogicWorker.{LogicWorker}
use rubo.Server.LogicWorker.Sessions.{online_of, dosth_of}

-- What the user sends: the gate tells that it is online, and then a request.
abbrev pub asked : ℤ → ℤ → Text → List UserMsg
asked sfd uid sth = online_of sfd uid ∷ (dosth_of sfd uid sth ∷ [])
