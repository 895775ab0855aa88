-- ===== src/Util/UserManager/Lookups.antt =====
-- What the lookups of the manager return after a call.
use rubo.Base.{◌≡◌, refl, ap, ◌∙◌, inl, inr, true, false, Option, none, some, Option-cases}
use rubo.Base.Int.{ℤ, ◌==ℤ◌, is_positive}
use rubo.Util.IdMap.{lookup, add_new, lookup-erase, lookup-erase_other, lookup-add_new}
use rubo.Util.SocketNode.{SocketNode}
use rubo.Util.User.{UserPtr, Users}
use rubo.Util.UserManager.{UserManager, add_conn, del_conn, get_user_by_sock, get_user_by_uid}
use rubo.Util.UserManager.Keys.{conn_entered, add_conn-some}

by_sock :
    (j : ℤ) (m : UserManager) (o : Option UserPtr)
    → lookup j m.sock_users ≡ o
    → get_user_by_sock j m ≡ elim o [ none ↦ 0 | some user ↦ user ]
unfolding get_user_by_sock
by_sock j m o e = ap (λ o. elim o [ none ↦ 0 | some user ↦ user ]) e

by_uid :
    (j : ℤ) (m : UserManager) (o : Option UserPtr)
    → lookup j m.uid_users ≡ o
    → get_user_by_uid j m ≡ elim o [ none ↦ 0 | some user ↦ user ]
unfolding get_user_by_uid
by_uid j m o e = ap (λ o. elim o [ none ↦ 0 | some user ↦ user ]) e

-- `add_conn` of a user whose number and descriptor are positive and new succeeds, and the user is
-- then found by both.
pub add_conn-found :
    (h : Users) (user : UserPtr) (m : UserManager) (sock : SocketNode)
    → (h.at user).sock ≡ some sock
    → is_positive sock.sfd ≡ true
    → is_positive (h.at user).uid ≡ true
    → lookup sock.sfd m.sock_users ≡ none
    → lookup (h.at user).uid m.uid_users ≡ none
    → (m' : UserManager) × (add_conn h user m ≡ some (m', true))
      × (get_user_by_sock sock.sfd m' ≡ user)
      × (get_user_by_uid (h.at user).uid m' ≡ user)
unfolding conn_entered
add_conn-found h user m sock e ps pu fs fu =
    let m' = conn_entered h user sock m in
    (
      m',
      add_conn-some h user m sock e,
      by_sock sock.sfd m' (some user) (lookup-add_new sock.sfd user m.sock_users ps fs),
      by_uid (h.at user).uid m' (some user) (lookup-add_new (h.at user).uid user m.uid_users pu fu),
    )

module _ (h : Users) (sfd : ℤ) (m : UserManager) where
  uids_left :
      (user : UserPtr)
      → lookup sfd m.sock_users ≡ some user
      → lookup (h.at user).uid (del_conn h sfd m).uid_users ≡ none
  unfolding del_conn
  uids_left user e = elim (Option-cases (lookup (h.at user).uid m.uid_users)) [
    | inl e' ↦ rw (del_conn, e, e') e'
    | inr (_, e') ↦ rw (del_conn, e, e') (lookup-erase (h.at user).uid m.uid_users)
  ]

  sock_left : lookup sfd (del_conn h sfd m).sock_users ≡ none
  unfolding del_conn
  sock_left = elim (Option-cases (lookup sfd m.sock_users)) [
    | inl e ↦ rw (del_conn, e) e
    | inr (user, e) ↦ rw (del_conn, e) (lookup-erase sfd m.sock_users)
  ]

  others_left :
      (j : ℤ) → (sfd ==ℤ j) ≡ false → lookup j (del_conn h sfd m).sock_users ≡ lookup j m.sock_users
  unfolding del_conn
  others_left j other = elim (Option-cases (lookup sfd m.sock_users)) [
    | inl e ↦ rw (del_conn, e) refl
    | inr (user, e) ↦ rw (del_conn, e) (lookup-erase_other sfd j m.sock_users other)
  ]

  -- After `del_conn` of a descriptor, it leads to no user, each other descriptor leads to the user
  -- that it led to before, and the number of the user that had the descriptor leads to no user.
  pub del_conn-forgets :
      (get_user_by_sock sfd (del_conn h sfd m) ≡ 0)
      × ((j : ℤ)
          → (sfd ==ℤ j) ≡ false
          → get_user_by_sock j (del_conn h sfd m) ≡ get_user_by_sock j m)
      × ((user : UserPtr)
          → lookup sfd m.sock_users ≡ some user
          → get_user_by_uid (h.at user).uid (del_conn h sfd m) ≡ 0)
  unfolding get_user_by_sock
  del_conn-forgets = (
    by_sock sfd (del_conn h sfd m) none sock_left,
    λ j other. by_sock j (del_conn h sfd m) (lookup j m.sock_users) (others_left j other),
    λ user e. by_uid (h.at user).uid (del_conn h sfd m) none (uids_left user e),
  )

-- If a user logs in a second time, on a new positive descriptor, while the first connection is
-- open, and the second connection ends, the number of the user leads to no user, though the first
-- connection is still entered under its descriptor.
pub del_conn-duplicate :
    (h : Users) (first second : UserPtr) (m : UserManager) (sock1 sock2 : SocketNode)
    → (h.at first).sock ≡ some sock1
    → (h.at second).sock ≡ some sock2
    → (h.at first).uid ≡ (h.at second).uid
    → (sock2.sfd ==ℤ sock1.sfd) ≡ false
    → is_positive sock2.sfd ≡ true
    → lookup sock1.sfd m.sock_users ≡ some first
    → lookup sock2.sfd m.sock_users ≡ none
    → (m' : UserManager) × (add_conn h second m ≡ some (m', true))
      × (get_user_by_sock sock1.sfd (del_conn h sock2.sfd m') ≡ first)
      × (get_user_by_uid (h.at first).uid (del_conn h sock2.sfd m') ≡ 0)
unfolding conn_entered lookup add_new
del_conn-duplicate h first second m sock1 sock2 e1 e2 same other positive found free =
    let m' = conn_entered h second sock2 m in
    let kept : lookup sock1.sfd m'.sock_users ≡ some first =
      rw (add_new, free, positive, lookup, other) found in
    let entered : lookup sock2.sfd m'.sock_users ≡ some second =
      lookup-add_new sock2.sfd second m.sock_users positive free in
    let (_, others, number) = del_conn-forgets h sock2.sfd m' in
    (
      m',
      add_conn-some h second m sock2 e2,
      others sock1.sfd other ∙ by_sock sock1.sfd m' (some first) kept,
      ap (λ k. get_user_by_uid k (del_conn h sock2.sfd m')) same ∙ number second entered,
    )
