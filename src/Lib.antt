-- ===== src/Lib.antt =====
-- Rubo is a game server in C++: a gate process that accepts clients and logic servers, and a logic
-- process behind it, with a byte protocol of framed protobuf messages between all of them. This
-- library models its own code, bottom up.
--
-- Base: numbers, tests, lists, memory blocks, 32-bit `int` and `size_t`, faults.
-- Util/RingBuff (util/RingBuff.cpp): the ring of bytes behind every connection. RingBuff.antt holds
--   its methods; Span, Growth, Writes, Drop and Reads read the bytes off the block and prove what each
--   method does to them; Queue is the abstract queue and Refine the refinement.
-- Util/LineBuffer (util/LineBuffer.cpp): the zeroed block that reads, writes and parsing go through.
-- Util/SocketNode, Util/User (util/SocketNode.cpp, util/User.cpp): a connection and a user. A
--   `UserPtr` is shared, so it is an address in a store of users.
-- Util/SocketOp (util/SocketOp.cpp): reading, sending and writing a connection. Receive, Send and
--   Frame hold the theorems; InOrder is about messages one after the other, Sockets opens sockets.
-- Util/EpollOp, Util/TcpOp (util/EpollOp.cpp, util/TcpOp.cpp): the events of a connection and what is
--   asked of epoll. Setup, Descriptors and Opening are about a TcpOp from `init` to `unit`.
-- Util/IThread (util/IThread.cpp, util/CondSync.cpp): the life of a thread. Lifecycle and Stopping
--   interleave the calls of its owner with its own turns; Timer is about the events of the clock.
-- Util/Utils (util/utils.cpp): cutting a text at delimiters (Split) and trimming it (Trim).
-- Util/Encrypt (util/Encrypt.cpp): encryption with RSA; Blocks is about the blocks that OpenSSL fills.
-- Util/IdMap, Util/UserManager (util/UserManager.cpp): the users by number and by descriptor.
-- Util/MutexList (util/MutexList.hpp): the list that threads share.
-- Msgs/UserMsg, Msgs/MsgCenter (msgs/UserMsg.cpp, msgs/MsgCenter.cpp): message numbers, and the parser
--   of the byte stream. Stream and Transfer are about frames, Any is about bytes that anyone may send, and
--   Import reads the .proto files of a directory.
-- Server/MysqlDb, Server/Gate (server/DB/MysqlDb.cpp, server/Gate/Gate.cpp, server/ServerBase.cpp): the
--   queries, the table of handlers, and the handlers of login, registration and verification. Accounts
--   relates them; MysqlDb/Script runs the script of tables, MysqlDb/Connection opens and closes the
--   connection to the database, with `init` of ServerBase and Logic around it.
-- Server/Balance (server/Gate/GateIO.cpp, server/Logic/LogicIO.cpp): the choice of a worker.
-- Server/GateIo (server/Gate/GateIO.cpp): the thread that keeps connections until they are logged in.
--   Round is a round of it; Guards is about what they may send, HandOver about the hand-over to a worker,
--   Startup about `init` and `stop`, with `GateMngr::init` (server/Gate/GateMngr.cpp) around it.
-- Server/GateWorker (server/Gate/GateWorker.cpp): the thread of one logic server and its users; Messages
--   passes messages on, Routing is about where messages go, and Startup about `init`.
-- Server/LogicWorker (server/Logic/LogicWorker.cpp): the thread of the logic server that handles the
--   messages of users; Sessions follows a user from online to offline.
-- Server/Logic (server/Logic/Logic.cpp, server/Logic/LogicIO.cpp): the replies that wait for the IO
--   thread, and (Io) this thread: Dispatch gives the messages of the gate to workers, Replies and InOrder
--   write the replies to the gate, Startup connects to it. Wakeup is about the wait of a worker; Threads
--   and Stopping start and stop the threads, as Gate/Threads and Gate/Startup
--   (server/Gate/Gate.cpp) do for the gate.
-- Server/GateMngr (server/Gate/GateMngr.cpp): the thread that runs GateIo; Stopping is about `unit`.
-- Server/Chain: the gate and the logic server joined, replies in one direction and requests (Requests) in
--   the other; Answers follows a request until its answer waits for the IO thread.
-- Server/ServerMain (server/ServerMain.cpp): which servers a process runs, and the order of their calls.
-- Examples: runs of all of these at concrete inputs.
--
-- How they interact: `event_op` of a TcpOp reads into the receive ring of a SocketNode by
-- `SocketOp::read`; `parse_package` of a MsgCenter takes the messages out of this ring; `write` of a
-- SocketOp frames a message and sends it, or leaves it in the send ring, which the next `event_op`
-- flushes. GateIo gives what a connection sends to the handlers of Gate, and a connection that is logged
-- in to a GateWorker, which passes its messages on to the logic server. There LogicIO gives each message to
-- the LogicWorker of its user and notifies it; the worker puts its replies into the queue of Logic, out of
-- which LogicIO writes them to the gate.
--
-- Conventions. Memory is a list of byte values. A pointer to an object that only one owner changes is
-- the object itself. `size_t` sums, differences and products are taken modulo 2^64 where they can wrap;
-- an `int` is a ℤ with its two's complement. `none` is a fault or a call that does not return. The
-- answers of the kernel to system calls are arguments; where a list of
-- answers ends, the next one is EAGAIN. Logging is left out.
--
-- Fuel: `grow`, the loop of RingBuff::add_data, has the number of bytes to add and two more rounds,
-- each of which enlarges the block by at least four bytes; the loop of LineBuffer::append_size has 65
-- tests, after which 64 doublings have reached any size up to 2^63; `parse_loop` has one round for each
-- byte in the ring and one more, and every round but the last takes bytes out of it; `split_loop` has one
-- round for each byte of the text and one more, as every round but the last passes a delimiter.
-- `init_google_protos` has one for each directory inside another. A wait for a thread has as many turns as
-- it is given, of which five are enough.
--
-- Not modelled: protobuf with its importer and the code that protoc generates (the records `Protobuf` and
-- `Files` stand for them), the MySQL driver (its answers and the record `Driver` stand for it), OpenSSL (its
-- functions are parameters of Encrypt), the clock behind Timer and Time, signals and the console of
-- the process, logging, the empty classes LogicNode, LogicUser and LogicMngr, and vendored rapidjson.
pub mod Base
pub mod Util
pub mod Msgs
pub mod Server
pub mod Examples
