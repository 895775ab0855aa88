-- ===== src/Msgs/MsgCenter.antt =====
-- msgs/MsgCenter.hpp, msgs/MsgCenter.cpp: message numbers and types, and the parser of the byte
-- stream. A header is three 4-byte numbers: the length of the body, the message number, the user.
-- `none` is a fault: a C string that runs past its block, or a size that is never reached.
pub mod Strings
pub mod Packages
pub mod Stream
pub mod Transfer
pub mod Import
pub mod Any
use Prim.Native.String.{String}
use rubo.Base.{
  ℕ, zero, suc, ◌+◌, Bool, true, false, List, [], ◌∷◌, Option, none, some, copy_at, leb, ltb, ◌==◌,
  ◌||◌, if◌then◌else◌,
}
use rubo.Base.Int.{ℤ, pos, ◌==ℤ◌, of_u32, from_bytes}
use rubo.Base.Fault.{◌>>=◌}
use rubo.Util.RingBuff.{RingBuff, data_size, del_data, read_begin, read_del_begin}
use rubo.Util.LineBuffer.{LineBuffer, new_line, append_size, clean_data}
use rubo.Util.SocketNode.{SocketNode}
use rubo.Msgs.UserMsg.{
  UserMsg, Protobuf, Message, user_msg, user_login_req, user_register_req, system_verify_req,
  user_login_rsp, user_register_rsp, system_verify_rsp, user_online, user_offline, user_dosth_req,
  user_kickout_req, user_dosth_rsp,
}

-- `_msg_id_names`, as filled by `register_protocol`.
abbrev pub Names : Type 0
Names = List (ℤ × String)

abbrev pub register_protocol : Names
register_protocol =
    (user_login_req, "LoginReq")
    ∷ (user_register_req, "RegisterReq")
    ∷ (system_verify_req, "VerifyReq")
    ∷ (user_login_rsp, "LoginRsp")
    ∷ (user_register_rsp, "RegisterRsp")
    ∷ (system_verify_rsp, "VerifyRsp")
    ∷ (user_online, "UserOnlineReq")
    ∷ (user_offline, "UserOfflineReq")
    ∷ (user_kickout_req, "KickUserOutReq")
    ∷ (user_dosth_req, "DoSthReq")
    ∷ (user_dosth_rsp, "DoSthRsp")
    ∷ []

unfoldable pub find_name : ℤ → Names → Option String
find_name i [] = none
find_name i ((j, name) ∷ rest) = if j ==ℤ i then some name else find_name i rest

pub record MsgCenter : Type 0 where
  pub names : Names
  pub parse_buff : LineBuffer

unfoldable pub new_center : MsgCenter
new_center = record { names = register_protocol; parse_buff = new_line }

-- A `const char*` read as a string: the bytes up to the first zero, which must be in the block.
unfoldable pub c_string : List ℕ → Option (List ℕ)
c_string [] = none
c_string (b ∷ bs) = elim (b == 0) [ true ↦ some [] | false ↦ do s ← c_string bs; some (b ∷ s) ]

-- The header and the body of a package, taken from the ring.
pub record Package : Type 0 where
  pub msg_id : ℤ
  pub user_id : ℤ
  pub text : List ℕ
  pub ring : RingBuff
  pub line : LineBuffer

-- The part of the loop's body from `del_data(4)` to the assignment of `_parse_string`.
unfoldable pub take_package : RingBuff → LineBuffer → ℕ → Option Package
take_package ring line pkg_len = do
  line1 ← append_size (clean_data line) pkg_len
  let (_, id_bytes, ring2) = read_del_begin (del_data ring 4).1 4
  let (_, uid_bytes, ring3) = read_del_begin ring2 4
  let (_, body, ring4) = read_del_begin ring3 pkg_len
  let filled = copy_at line1.buff 0 body
  text ← c_string filled
  some (record {
    msg_id = of_u32 (from_bytes id_bytes);
    user_id = of_u32 (from_bytes uid_bytes);
    text = text;
    ring = ring4;
    line = record line1 { buff = filled };
  })

pub data Round : Type 0 where
  stop : RingBuff → LineBuffer → Round
  parsed : RingBuff → LineBuffer → UserMsg → Round

module _ (proto : Protobuf) where
  unfoldable pub gen_msg_by_name : String → Option UserMsg
  gen_msg_by_name name = do m ← proto.find_type name; some (user_msg m)

  unfoldable pub gen_msg : Names → ℤ → Option UserMsg
  gen_msg names id = do
    name ← find_name id names
    msg ← gen_msg_by_name name
    some (record msg { msg_id = id })

  -- What becomes of a package: the loop breaks if no message can be made for it.
  unfoldable pub finish : Names → ℤ → Package → Round
  finish names sfd p = elim (gen_msg names p.msg_id) [
    | none ↦ stop p.ring p.line
    | some m ↦ parsed p.ring p.line (record {
      uid = p.user_id;
      sfd = sfd;
      msg_id = p.msg_id;
      msg = proto.parse_from m.msg p.text;
    })
  ]

  -- One round of the loop of `parse_package`. `pkg_len` is a zeroed `size_t` of which four bytes are
  -- filled in.
  unfoldable pub parse_one : Names → ℤ → RingBuff → LineBuffer → Option Round
  parse_one names sfd ring line =
      if leb (data_size ring) 4
      then some (stop ring line)
      else (let pkg_len = from_bytes (read_begin ring 4).1 in
          if leb pkg_len 1 || ltb 2048 pkg_len
          then some (stop ring line)
          else (if ltb (data_size ring) (pkg_len + 4 + 4 + 4)
              then some (stop ring line)
              else (take_package ring line pkg_len >>= λ p. some (finish names sfd p))))

  -- The loop, on fuel: the ring and the buffer as it leaves them, and the messages in order.
  unfoldable pub parse_loop :
      ℕ → Names → ℤ → RingBuff → LineBuffer → Option (RingBuff × LineBuffer × List UserMsg)
  parse_loop zero names sfd ring line = none
  parse_loop (suc fuel) names sfd ring line = elim (parse_one names sfd ring line) [
    | none ↦ none
    | some (stop ring' line') ↦ some (ring', line', [])
    | some (parsed ring' line' m) ↦ elim (parse_loop fuel names sfd ring' line') [
      | none ↦ none
      | some (ring'', line'', ms) ↦ some (ring'', line'', m ∷ ms)
    ]
  ]

  -- Every round but the last takes bytes from the ring.
  unfoldable pub parse_package :
      MsgCenter → SocketNode → Option (MsgCenter × SocketNode × List UserMsg)
  parse_package center sock =
      parse_loop (suc (data_size sock.rd_buff)) center.names sock.sfd sock.rd_buff center.parse_buff
      >>= λ (ring, line, ms).
          some (record center { parse_buff = line }, record sock { rd_buff = ring }, ms)
