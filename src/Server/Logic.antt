-- ===== src/Server/Logic.antt =====
-- server/Logic/Logic.hpp, server/Logic/Logic.cpp: the queue of replies between the workers and the IO
-- thread of the logic server. The queue is behind its own mutex.
pub mod Io
pub mod Threads
pub mod Stopping
pub mod Wakeup
use rubo.Base.{List}
use rubo.Util.MutexList.{add_more, get_more}
use rubo.Msgs.UserMsg.{UserMsg}

unfoldable pub add_msgs_to_io : List UserMsg → List UserMsg → List UserMsg
add_msgs_to_io msgs out_msgs = add_more msgs out_msgs

-- The messages that waited, and the queue.
unfoldable pub io_get_msgs : List UserMsg → List UserMsg × List UserMsg
io_get_msgs out_msgs = get_more out_msgs
