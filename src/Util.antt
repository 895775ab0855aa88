-- ===== src/Util.antt =====
-- The directory util/.
pub mod RingBuff
pub mod LineBuffer
pub mod SocketNode
pub mod User
pub mod SocketOp
pub mod IdMap
pub mod MutexList
pub mod UserManager
pub mod EpollOp
pub mod Utils
pub mod Encrypt
pub mod IThread
pub mod TcpOp
