-- ===== src/Util/User.antt =====
-- util/User.hpp, util/User.cpp. A `UserPtr` is shared by several containers, so it is an address in
-- a store of users; address 0 is the null pointer.
use rubo.Base.{ℕ, suc, Option, none, ◌==◌, if◌then◌else◌}
use rubo.Base.Int.{ℤ, pos}
use rubo.Util.SocketNode.{SocketNode, release}
use mathlib.Core.Option

pub data ConnStatus : Type 0 where
  connect_null connecting logined closing : ConnStatus

pub record User : Type 0 where
  pub uid : ℤ
  pub conn_status : ConnStatus
  pub sock : Option SocketNode

unfoldable pub new_user : User
new_user = record { uid = pos 0; conn_status = connect_null; sock = none }

-- `clean` resets the user, and releases its connection if it has one.
unfoldable pub clean : User → User
clean u = record { uid = pos 0; conn_status = connect_null; sock = Option.map release u.sock }

abbrev pub UserPtr : Type 0
UserPtr = ℕ

-- The objects that the pointers lead to, and the next free address.
pub record Users : Type 0 where
  pub at : UserPtr → User
  pub next : UserPtr

abbrev pub set_user : Users → UserPtr → User → Users
set_user h p u = record h { at = λ q. if p == q then u else h.at q }

-- `UserPtr(new User())`, with its fields set.
abbrev pub alloc_user : Users → User → UserPtr × Users
alloc_user h u = (h.next, record { at = λ q. if h.next == q then u else h.at q; next = suc h.next })
