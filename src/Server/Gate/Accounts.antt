-- ===== src/Server/Gate/Accounts.antt =====
-- Registration and login.
use rubo.Base.{
  if_true, if◌then◌else◌, ◌==◌, ℕ, arith, ◌≡◌, refl, ap, ◌∙◌, true, false, [], ◌∷◌, ◌++◌, some,
}
use rubo.Base.Int.{ℤ, pos, ◌==ℤ◌}
use rubo.Util.User.{UserPtr}
use rubo.Msgs.UserMsg.{Text, UserMsg, login_req, register_req, login_rsp, register_rsp}
use rubo.Server.MysqlDb.{
  Driver, check_name_sql, get_uid_sql, check_name_registered, execute_pre_update, register_user,
  get_uid, no_uid,
}
use rubo.Server.Gate.{
  GateState, add_reply, login_answer, login_as, on_user_login, register_answer, register,
  on_user_register,
}

-- What a database does with a new name: the name is not found, the insertion changes a row, and then
-- the name and its password are found under one number, which is not -1.
pub record IsInserted {State : Type 0} (driver : Driver State) (db : State) (name passwd : Text)
    (uid : ℤ) : Type 0 where
  pub absent : driver.query db (check_name_sql name) ≡ some []
  pub changed : (driver.insert db name passwd (pos 0)).1 ≡ some (pos 1)
  pub found :
      driver.query (driver.insert db name passwd (pos 0)).0 (get_uid_sql name passwd)
      ≡ some (uid ∷ [])
  pub valid : (uid ==ℤ no_uid) ≡ false

module _ {State : Type 0} (driver : Driver State) (name passwd : Text) (uid : ℤ) where
  register_user-inserted :
      (db : State)
      → IsInserted driver db name passwd uid
      → register_user driver db name passwd (pos 0)
        ≡ ((driver.insert db name passwd (pos 0)).0, true)
  unfolding register_user execute_pre_update
  register_user-inserted db i = rw (register_user, execute_pre_update, i.changed) refl

  absent :
      (db : State)
      → IsInserted driver db name passwd uid
      → check_name_registered driver db name ≡ false
  unfolding check_name_registered
  absent db i = rw (check_name_registered, i.absent) refl

  found :
      (db : State)
      → IsInserted driver db name passwd uid
      → get_uid driver (driver.insert db name passwd (pos 0)).0 name passwd ≡ uid
  unfolding get_uid
  found db i = rw (get_uid, i.found) refl

  register-inserted :
      (db : State)
      → IsInserted driver db name passwd uid
      → register driver db name passwd
        ≡ ((driver.insert db name passwd (pos 0)).0, register_rsp true name uid)
  unfolding register register_answer
  register-inserted db i =
      rw (register, absent db i)
        (ap (register_answer driver name passwd) (register_user-inserted db i)
          ∙ ap (λ u. ((driver.insert db name passwd (pos 0)).0, register_rsp true name u))
              (found db i))

  on_user_login-found :
      (plog : UserMsg) (user : UserPtr) (g : GateState State)
      → get_uid driver g.db name passwd ≡ uid
      → on_user_login driver (record plog { msg = login_req name passwd }) user g
        ≡ some (login_as uid (record plog { msg = login_req name passwd }) user g)
  unfolding on_user_login
  on_user_login-found plog user g e =
      ap (λ u. some (login_as u (record plog { msg = login_req name passwd }) user g)) e

  login_answer-found : (uid ==ℤ no_uid) ≡ false → login_answer uid ≡ login_rsp true uid
  unfolding login_answer
  login_answer-found e = rw (login_answer, e) refl

  if_same : {A : Type 0} (n : ℕ) (x y : A) → (if n == n then x else y) ≡ x
  if_same n x y = if_true (n == n) x y (ground arith)

  -- If the database takes a new name, the registration is answered by the number that the database
  -- gave, a login with the same name and password is answered by the same number, this becomes the
  -- number of the user, and there is no other reply.
  pub register-login :
      (preg plog : UserMsg) (user : UserPtr) (g : GateState State)
      → IsInserted driver g.db name passwd uid
      → (g1 : GateState State) × (g2 : GateState State) × (on_user_register driver
            (record preg { msg = register_req name passwd })
            user
            g
          ≡ some g1)
        × (on_user_login driver (record plog { msg = login_req name passwd }) user g1 ≡ some g2)
        × (g2.rsp_msgs
            ≡ (g.rsp_msgs
                ++ (record preg { msg_id = pos 5; msg = register_rsp true name uid } ∷ []))
              ++ (record plog { msg_id = pos 4; msg = login_rsp true uid } ∷ []))
        × ((g2.users.at user).uid ≡ uid)
  unfolding on_user_register add_reply login_as
  register-login preg plog user g i =
      let db' = (driver.insert g.db name passwd (pos 0)).0 in
      let g1 : GateState State =
        add_reply (record preg { msg = register_req name passwd }) (pos 5)
          (register_rsp true name uid) (record g { db = db' }) in
      let plog' : UserMsg = record plog { msg = login_req name passwd } in
      (
        g1,
        login_as uid plog' user g1,
        rw (on_user_register, register-inserted g.db i) refl,
        on_user_login-found plog user g1 (found g.db i),
        ap (λ a. g1.rsp_msgs ++ (record plog { msg_id = pos 4; msg = a } ∷ []))
            (login_answer-found i.valid),
        ap (λ u. u.uid) (if_same user (record (g1.users.at user) { uid = uid }) (g1.users.at user)),
      )
