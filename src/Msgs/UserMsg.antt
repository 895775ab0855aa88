-- ===== src/Msgs/UserMsg.antt =====
-- msgs/UserMsg.hpp, msgs/UserMsg.cpp: a message with its header, and the message numbers. The
-- messages are those of msgs/protocols/login.proto; the code that protoc generates for them, and
-- the protobuf library, are the record `Protobuf`.
use Prim.Native.String.{String}
use rubo.Base.{ℕ, Bool, List, Option}
use rubo.Base.Int.{ℤ, pos}

-- A text is its bytes.
abbrev pub Text : Type 0
Text = List ℕ

pub data Message : Type 0 where
  login_req : (name passwd : Text) → Message
  register_req : (name passwd : Text) → Message
  verify_req : (macaddr : Text) → Message
  login_rsp : (is_ok : Bool) (user_id : ℤ) → Message
  verify_rsp : (is_ok : Bool) → Message
  register_rsp : (is_ok : Bool) (name : Text) (accid : ℤ) → Message
  user_online_req : (uid : ℤ) → Message
  user_offline_req : (uid : ℤ) → Message
  kick_user_out_req : (uid : ℤ) → Message
  do_sth_req : (uid : ℤ) (sth : Text) → Message
  do_sth_rsp : (rsp_id : ℤ) (ret : Text) → Message

-- `find_type` is the lookup of a message type by name, with its `New()`; `serialize` is
-- `SerializeToArray`, whose length is `ByteSize()`; `parse_from` is `ParseFromString`, which fills
-- the message that it is called on.
pub record Protobuf : Type 0 where
  pub find_type : String → Option Message
  pub serialize : Message → List ℕ
  pub parse_from : Message → List ℕ → Message

-- `enum ProtocolDefine`: any `int` may be cast to it, so its values are numbers.
abbrev pub user_login_req : ℤ
user_login_req = pos 1

abbrev pub user_register_req : ℤ
user_register_req = pos 2

abbrev pub system_verify_req : ℤ
system_verify_req = pos 3

abbrev pub user_login_rsp : ℤ
user_login_rsp = pos 4

abbrev pub user_register_rsp : ℤ
user_register_rsp = pos 5

abbrev pub system_verify_rsp : ℤ
system_verify_rsp = pos 6

abbrev pub user_online : ℤ
user_online = pos 7

abbrev pub user_offline : ℤ
user_offline = pos 8

abbrev pub user_dosth_req : ℤ
user_dosth_req = pos 9

abbrev pub user_kickout_req : ℤ
user_kickout_req = pos 10

abbrev pub user_dosth_rsp : ℤ
user_dosth_rsp = pos 11

pub record UserMsg : Type 0 where
  pub uid : ℤ
  pub sfd : ℤ
  pub msg_id : ℤ
  pub msg : Message

abbrev pub user_msg : Message → UserMsg
user_msg m = record { uid = pos 0; sfd = pos 0; msg_id = pos 0; msg = m }

-- The constructor that takes the header of another message.
abbrev pub reply_to : Message → UserMsg → UserMsg
reply_to m umsg = record { uid = umsg.uid; sfd = umsg.sfd; msg_id = umsg.msg_id; msg = m }
