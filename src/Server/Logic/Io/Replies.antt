-- ===== src/Server/Logic/Io/Replies.antt =====
-- server/Logic/LogicIO.cpp, `handler_worker_msgs` and the round of the thread: replies of the workers on
-- their way to the gate. The answers of the kernel to the writes of each message are arguments.
use rubo.Base.{List, [], ◌∷◌, Option, none, some}
use rubo.Base.Fault.{◌>>=◌}
use rubo.Util.SocketOp.{WriteRet}
use rubo.Msgs.UserMsg.{UserMsg, Protobuf}
use rubo.Server.Logic.{io_get_msgs}
use rubo.Server.Logic.Io.{LogicIo, Event, handler_epevent, write_to_gate}

-- The answers for the next message; the kernel blocks where none are given.
abbrev pub next_script : List (List WriteRet) → List WriteRet
next_script [] = []
next_script (s ∷ scripts) = s

abbrev pub later_scripts : List (List WriteRet) → List (List WriteRet)
later_scripts [] = []
later_scripts (s ∷ scripts) = scripts

module _ (proto : Protobuf) where
  -- The result of `write` is not used.
  unfoldable pub write_replies : List (List WriteRet) → List UserMsg → LogicIo → Option LogicIo
  write_replies scripts [] io = some io
  write_replies scripts (msg ∷ msgs) io = elim (write_to_gate proto (next_script scripts) msg io) [
    | none ↦ none
    | some (io', _) ↦ write_replies (later_scripts scripts) msgs io'
  ]

  -- With the queue of replies.
  unfoldable pub handler_worker_msgs :
      List (List WriteRet) → List UserMsg → LogicIo → Option (LogicIo × List UserMsg)
  handler_worker_msgs scripts out_msgs io =
      let (msgs, out_msgs') = io_get_msgs out_msgs in
      write_replies scripts msgs io >>= λ io'. some (io', out_msgs')

  unfoldable pub thread_loop :
      List Event → List (List WriteRet) → List UserMsg → LogicIo → Option (LogicIo × List UserMsg)
  thread_loop evs scripts out_msgs io =
      handler_epevent proto evs io >>= λ io'. handler_worker_msgs scripts out_msgs io'
