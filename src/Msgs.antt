-- ===== src/Msgs.antt =====
-- The directory msgs/.
pub mod UserMsg
pub mod MsgCenter
