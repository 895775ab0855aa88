-- ===== src/Server.antt =====
-- The directory server/.
pub mod MysqlDb
pub mod Gate
pub mod Balance
pub mod GateIo
pub mod GateMngr
pub mod GateWorker
pub mod LogicWorker
pub mod Logic
pub mod Chain
pub mod ServerMain
