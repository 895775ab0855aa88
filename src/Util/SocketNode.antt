-- ===== src/Util/SocketNode.antt =====
-- util/SocketNode.hpp, util/SocketNode.cpp: one connection. An FD_EVENT is an `int` that only ever
-- holds an or of the four bits below, so it is a record of them; `to_int` is its value.
use rubo.Base.{ℕ, ◌+◌, Bool, true, false, List, [], ◌||◌, if◌then◌else◌}
use rubo.Base.Int.{ℤ, pos}
use rubo.Util.RingBuff.{RingBuff, new_ring}

pub record FdEvent : Type 0 where
  pub read : Bool
  pub write : Bool
  pub connect : Bool
  pub error : Bool

abbrev pub fd_event_none : FdEvent
fd_event_none = record { read = false; write = false; connect = false; error = false }

abbrev pub fd_event_read : FdEvent
fd_event_read = record { read = true; write = false; connect = false; error = false }

abbrev pub fd_event_write : FdEvent
fd_event_write = record { read = false; write = true; connect = false; error = false }

abbrev pub fd_event_connect : FdEvent
fd_event_connect = record { read = false; write = false; connect = true; error = false }

abbrev pub fd_event_error : FdEvent
fd_event_error = record { read = false; write = false; connect = false; error = true }

-- `a | b`
abbrev pub fd_or : FdEvent → FdEvent → FdEvent
fd_or a b = record {
  read = a.read || b.read;
  write = a.write || b.write;
  connect = a.connect || b.connect;
  error = a.error || b.error;
}

-- FD_EVENT_READ 0x01, FD_EVENT_WRITE 0x02, FD_EVENT_CONNECT 0x04, FD_EVENT_ERROR 0x08
abbrev pub to_int : FdEvent → ℕ
to_int e =
    (if e.read then 1 else 0)
    + (if e.write then 2 else 0)
    + (if e.connect then 4 else 0)
    + (if e.error then 8 else 0)

pub data ClientType : Type 0 where
  client_null client_system client_user : ClientType

pub record EventNode : Type 0 where
  pub sfd : ℤ
  pub uid : ℤ
  pub event : FdEvent

abbrev pub new_event : EventNode
new_event = record { sfd = pos 0; uid = pos 0; event = fd_event_none }

-- The two rings belong to the node alone. `ip` is the text of the address.
pub record SocketNode : Type 0 where
  pub kind : ClientType
  pub sfd : ℤ
  pub can_wt : Bool
  pub event : FdEvent
  pub op_ret : FdEvent
  pub ip : List ℕ
  pub port : ℤ
  pub rd_buff : RingBuff
  pub wt_buff : RingBuff

unfoldable pub release : SocketNode → SocketNode
release n = record n {
  kind = client_null;
  sfd = pos 0;
  can_wt = true;
  event = fd_event_none;
  op_ret = fd_event_none;
  ip = [];
  port = pos 0;
}

unfoldable pub new_node : SocketNode
new_node = record {
  kind = client_null;
  sfd = pos 0;
  can_wt = true;
  event = fd_event_none;
  op_ret = fd_event_none;
  ip = [];
  port = pos 0;
  rd_buff = new_ring;
  wt_buff = new_ring;
}
