-- ===== src/Util/UserManager.antt =====
-- util/UserManager.hpp, util/UserManager.cpp: the users by number and by descriptor.
pub mod Keys
pub mod Lookups
use rubo.Base.{Bool, true, false, List, [], ◌∷◌, Option, none, some}
use rubo.Base.Int.{ℤ}
use rubo.Util.IdMap.{IdMap, lookup, erase, add_new}
use rubo.Util.SocketNode.{SocketNode}
use rubo.Util.User.{UserPtr, Users}

pub record UserManager : Type 0 where
  pub uid_users : IdMap UserPtr
  pub sock_users : IdMap UserPtr

unfoldable pub new_manager : UserManager
new_manager = record { uid_users = []; sock_users = [] }

-- `add_user` enters the user by number, and by descriptor if it has a connection. It always
-- returns true.
unfoldable pub add_user : Users → UserPtr → UserManager → UserManager × Bool
add_user h user m =
    let m1 : UserManager = record m { uid_users = add_new (h.at user).uid user m.uid_users } in
    elim (h.at user).sock [
      | none ↦ (m1, true)
      | some sock ↦ (record m1 { sock_users = add_new sock.sfd user m1.sock_users }, true)
    ]

-- `add_conn`, which dereferences the connection without a test.
unfoldable pub add_conn : Users → UserPtr → UserManager → Option (UserManager × Bool)
add_conn h user m = elim (h.at user).sock [
  | none ↦ none
  | some sock ↦
      let m1 : UserManager = record m { sock_users = add_new sock.sfd user m.sock_users } in
      some (record m1 { uid_users = add_new (h.at user).uid user m1.uid_users }, true)
]

unfoldable pub get_conn : Users → ℤ → UserManager → Option SocketNode
get_conn h sid m = elim (lookup sid m.sock_users) [ none ↦ none | some user ↦ (h.at user).sock ]

unfoldable pub del_conn : Users → ℤ → UserManager → UserManager
del_conn h sfd m = elim (lookup sfd m.sock_users) [
  | none ↦ m
  | some user ↦ record {
    sock_users = erase sfd m.sock_users;
    uid_users = elim (lookup (h.at user).uid m.uid_users) [
      | none ↦ m.uid_users
      | some _ ↦ erase (h.at user).uid m.uid_users
    ];
  }
]

-- The connection of `del_user`: it is taken out if the user has one and it is entered.
unfoldable pub forget_sock : Option SocketNode → IdMap UserPtr → IdMap UserPtr
forget_sock none socks = socks
forget_sock (some sock) socks = elim (lookup sock.sfd socks) [
  | none ↦ socks
  | some _ ↦ erase sock.sfd socks
]

unfoldable pub del_user : Users → ℤ → UserManager → UserManager × Bool
del_user h uid m = elim (lookup uid m.uid_users) [
  | none ↦ (m, true)
  | some user ↦ (
    record {
      uid_users = erase uid m.uid_users;
      sock_users = forget_sock (h.at user).sock m.sock_users;
    },
    true,
  )
]

-- Address 0 is the null pointer.
unfoldable pub get_user_by_sock : ℤ → UserManager → UserPtr
get_user_by_sock sock_fd m = elim (lookup sock_fd m.sock_users) [ none ↦ 0 | some user ↦ user ]

unfoldable pub get_user_by_uid : ℤ → UserManager → UserPtr
get_user_by_uid uid m = elim (lookup uid m.uid_users) [ none ↦ 0 | some user ↦ user ]
