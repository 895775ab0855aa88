-- ===== src/Server/Gate.antt =====
-- server/Gate/Gate.hpp, server/Gate/Gate.cpp, and the table of handlers of server/ServerBase.cpp: the
-- messages that a connection may send before it is logged in.
pub mod Accounts
pub mod Threads
pub mod Startup
use rubo.Base.{Bool, true, false, List, [], ◌∷◌, ◌++◌, Option, none, some}
use rubo.Base.Int.{ℤ, pos, negsuc, ◌==ℤ◌}
use rubo.Util.IdMap.{IdMap, lookup, erase}
use rubo.Util.User.{User, UserPtr, Users, set_user}
use rubo.Msgs.UserMsg.{
  Text, UserMsg, Message, login_req, register_req, verify_req, login_rsp, register_rsp, verify_rsp,
  reply_to, user_login_req, user_register_req, system_verify_req,
}
use rubo.Server.MysqlDb.{Driver, check_name_registered, register_user, get_uid, no_uid}

-- The functions that are registered.
pub data Handler : Type 0 where
  on_login on_register on_verify : Handler

-- `register_handler`
unfoldable pub register_handler : ℤ → Handler → IdMap Handler → IdMap Handler
register_handler id f handlers = (id, f) ∷ erase id handlers

unfoldable pub get_msg_handler : ℤ → IdMap Handler → Option Handler
get_msg_handler id handlers = lookup id handlers

unfoldable pub register_handlers : IdMap Handler
register_handlers =
    register_handler system_verify_req on_verify
      (register_handler user_register_req on_register (register_handler user_login_req on_login []))

-- What the handlers change: the database, the users, and the list of replies.
pub record GateState (State : Type 0) : Type 0 where
  pub db : State
  pub users : Users
  pub rsp_msgs : List UserMsg

unfoldable pub check_if_internal : Text → Text → Bool
check_if_internal ip mac = true

-- The answer to a login for which the database gave `uid`.
unfoldable pub login_answer : ℤ → Message
login_answer uid = elim (uid ==ℤ no_uid) [
  | true ↦ login_rsp false no_uid
  | false ↦ login_rsp true uid
]

module _ {State : Type 0} where
  unfoldable pub add_reply : UserMsg → ℤ → Message → GateState State → GateState State
  add_reply pmsg id rsp g = record g {
    rsp_msgs = g.rsp_msgs ++ (record (reply_to rsp pmsg) { msg_id = id } ∷ []);
  }

  unfoldable pub login_as : ℤ → UserMsg → UserPtr → GateState State → GateState State
  login_as uid pmsg user g =
      add_reply pmsg (pos 4) (login_answer uid)
        (record g { users = set_user g.users user (record (g.users.at user) { uid = uid }) })

module _ {State : Type 0} (driver : Driver State) where
  -- A message of another kind than the handler's is cast without a test: that is a fault.
  unfoldable pub on_user_login : UserMsg → UserPtr → GateState State → Option (GateState State)
  on_user_login pmsg user g = elim pmsg.msg [
    | login_req name passwd ↦ some (login_as (get_uid driver g.db name passwd) pmsg user g)
    | _ ↦ none
  ]

  -- The answer to a registration, after the insertion and with its result.
  unfoldable pub register_answer : Text → Text → State × Bool → State × Message
  register_answer name passwd (db', false) = (db', register_rsp false [] (negsuc 1))
  register_answer name passwd (db', true) =
      (db', register_rsp true name (get_uid driver db' name passwd))

  unfoldable pub register : State → Text → Text → State × Message
  register db name passwd = elim (check_name_registered driver db name) [
    | true ↦ (db, register_rsp false [] (negsuc 0))
    | false ↦ register_answer name passwd (register_user driver db name passwd (pos 0))
  ]

  unfoldable pub on_user_register : UserMsg → UserPtr → GateState State → Option (GateState State)
  on_user_register pmsg user g = elim pmsg.msg [
    | register_req name passwd ↦
        let (db', rsp) = register g.db name passwd in
        some (add_reply pmsg (pos 5) rsp (record g { db = db' }))
    | _ ↦ none
  ]

  unfoldable pub on_system_verify : UserMsg → UserPtr → GateState State → Option (GateState State)
  on_system_verify pmsg user g = elim pmsg.msg [
    | verify_req macaddr ↦ elim (g.users.at user).sock [
      | none ↦ none
      | some sock ↦ elim (check_if_internal sock.ip macaddr) [
        | false ↦ some g
        | true ↦ some (add_reply pmsg (pos 6) (verify_rsp true) g)
      ]
    ]
    | _ ↦ none
  ]

  -- The call of a registered function.
  unfoldable pub handle : Handler → UserMsg → UserPtr → GateState State → Option (GateState State)
  handle on_login pmsg user g = on_user_login pmsg user g
  handle on_register pmsg user g = on_user_register pmsg user g
  handle on_verify pmsg user g = on_system_verify pmsg user g
