-- ===== src/Server/LogicWorker/Sessions.antt =====
-- From online to offline.
use rubo.Base.{
  ℕ, suc, ◌<◌, ◌≡◌, refl, ap, ◌∙◌, Bool, true, false, ◌&&◌, [], ◌∷◌, ◌++◌, none, some, ◌==◌,
  if_true, arith,
}
use rubo.Base.Int.{ℤ, pos, is_positive}
use rubo.Util.IdMap.{lookup, add_new, lookup-add_new}
use rubo.Util.User.{logined, alloc_user, set_user, User, UserPtr, Users}
use rubo.Util.UserManager.{UserManager, add_user, get_user_by_uid}
use rubo.Msgs.UserMsg.{
  Text, UserMsg, Protobuf, user_online_req, user_offline_req, do_sth_req, do_sth_rsp, user_online,
  user_offline, user_dosth_req, user_dosth_rsp,
}
use rubo.Msgs.MsgCenter.{gen_msg}
use rubo.Server.MysqlDb.{bytes}
use rubo.Server.LogicWorker.{
  LogicWorker, on_online, on_offline, on_dosth, register_handlers, get_msg_handler, enter,
  on_user_online, on_user_offline, reply, on_user_dosth, call, handle_for, handler_one_msg,
  handle_all,
}

-- The messages of the gate about a user.
abbrev pub online_of : (sfd uid : ℤ) → UserMsg
online_of sfd uid = record { uid = uid; sfd = sfd; msg_id = user_online; msg = user_online_req uid }

abbrev pub dosth_of : (sfd uid : ℤ) → Text → UserMsg
dosth_of sfd uid sth = record {
  uid = uid;
  sfd = sfd;
  msg_id = user_dosth_req;
  msg = do_sth_req uid sth;
}

abbrev pub offline_of : (sfd uid : ℤ) → UserMsg
offline_of sfd uid = record {
  uid = uid;
  sfd = sfd;
  msg_id = user_offline;
  msg = user_offline_req uid;
}

and_false : (b : Bool) → (b && false) ≡ false
and_false true = refl
and_false false = refl

add_user-found :
    (h : Users) (user : UserPtr) (m : UserManager) (uid : ℤ)
    → (h.at user).uid ≡ uid
    → (h.at user).sock ≡ none
    → is_positive uid ≡ true
    → lookup uid m.uid_users ≡ none
    → get_user_by_uid uid (add_user h user m).0 ≡ user
unfolding add_user get_user_by_uid
add_user-found h user m uid u s positive free =
    rw (add_user, s)
      (ap (λ o. elim o [ none ↦ 0 | some p ↦ p ])
        (ap (λ k. lookup uid (add_new k user m.uid_users)) u
          ∙ lookup-add_new uid user m.uid_users positive free))

nonzero : (n : ℕ) → 0 < n → (n == 0) ≡ false
nonzero n h = ground arith

module _ (proto : Protobuf) (sfd uid : ℤ) (w : LogicWorker) where
  handle_for_online :
      (user : UserPtr) → handle_for proto on_online (online_of sfd uid) user w ≡ some (enter uid w)
  unfolding handle_for call on_user_online
  handle_for_online user = rw (handle_for, and_false (user == 0)) refl

  handle_online :
      get_msg_handler user_online w.handlers ≡ some on_online
      → handler_one_msg proto (online_of sfd uid) w ≡ some (enter uid w)
  unfolding handler_one_msg
  handle_online e = rw (handler_one_msg, e) (handle_for_online (get_user_by_uid uid w.users))

  -- The user is found after it came online.
  enter-found :
      is_positive uid ≡ true
      → lookup uid w.users.uid_users ≡ none
      → get_user_by_uid uid (enter uid w).users ≡ w.heap.next
  unfolding enter
  enter-found positive free =
      let entered : User = record { uid = uid; conn_status = logined; sock = none } in
      let heap = (alloc_user w.heap entered).1 in
      let e : heap.at w.heap.next ≡ entered =
        if_true (w.heap.next == w.heap.next) entered (w.heap.at w.heap.next) (ground arith) in
      add_user-found heap w.heap.next w.users uid (ap (λ u. u.uid) e) (ap (λ u. u.sock) e) positive
        free

  entered-uid : ((enter uid w).heap.at w.heap.next).uid ≡ uid
  unfolding enter
  entered-uid =
      ap (λ u. u.uid)
        (if_true (w.heap.next == w.heap.next) _ (w.heap.at w.heap.next) (ground arith))

  handle_dosth :
      (w1 : LogicWorker) (user : UserPtr) (sth : Text) (rsp : UserMsg)
      → get_msg_handler user_dosth_req w1.handlers ≡ some on_dosth
      → get_user_by_uid uid w1.users ≡ user
      → (user == 0) ≡ false
      → reply proto (w1.heap.at user).uid sth w1 ≡ some rsp
      → handler_one_msg proto (dosth_of sfd uid sth) w1
        ≡ some (record w1 { dosth_id = suc w1.dosth_id; out_msgs = w1.out_msgs ++ (rsp ∷ []) })
  unfolding handler_one_msg handle_for call on_user_dosth
  handle_dosth w1 user sth rsp e found nz r =
      rw (handler_one_msg, e)
        (ap (λ u. handle_for proto on_dosth (dosth_of sfd uid sth) u w1) found
          ∙ (rw (handle_for, nz) (rw (on_user_dosth, r) refl)))

  reply-known :
      (w1 : LogicWorker) (m : UserMsg) (r : ℤ) (t sth : Text) (k : ℤ)
      → gen_msg proto w1.names user_dosth_rsp ≡ some (record m { msg = do_sth_rsp r t })
      → reply proto k sth w1
        ≡ some (record m {
          uid = k;
          msg = do_sth_rsp (pos w1.dosth_id) (bytes "DoSthRsp From " ++ (w1.name ++ sth));
        })
  unfolding reply
  reply-known w1 m r t sth k e = rw (reply, e) refl

  -- With the registered handlers and a reply type that protobuf knows, if a user with a positive
  -- number that is not entered comes online and sends a request, the two messages are handled, and
  -- there is exactly one new reply, for this user and with the next reply number.
  pub online-dosth :
      (m : UserMsg) (r : ℤ) (t sth : Text)
      → w.handlers ≡ register_handlers
      → is_positive uid ≡ true
      → lookup uid w.users.uid_users ≡ none
      → 0 < w.heap.next
      → gen_msg proto w.names user_dosth_rsp ≡ some (record m { msg = do_sth_rsp r t })
      → (w2 : LogicWorker) × (handle_all proto (online_of sfd uid ∷ (dosth_of sfd uid sth ∷ [])) w
          ≡ some w2)
        × (w2.out_msgs
            ≡ w.out_msgs
              ++ (record m {
                uid = uid;
                msg = do_sth_rsp (pos w.dosth_id) (bytes "DoSthRsp From " ++ (w.name ++ sth));
              }
                  ∷ []))
        × (w2.dosth_id ≡ suc w.dosth_id)
        × (get_user_by_uid uid w2.users ≡ w.heap.next)
  unfolding handle_all enter get_msg_handler register_handlers lookup
  online-dosth m r t sth table positive free some_next known =
      let w1 = enter uid w in
      let rsp : UserMsg = record m {
        uid = uid;
        msg = do_sth_rsp (pos w.dosth_id) (bytes "DoSthRsp From " ++ (w.name ++ sth));
      } in
      let h1 = handle_online (ap (lookup user_online) table) in
      let h2 =
        handle_dosth w1 w.heap.next sth rsp (ap (lookup user_dosth_req) table)
          (enter-found positive free) (nonzero w.heap.next some_next)
          (ap (λ k. reply proto k sth w1) entered-uid ∙ reply-known w1 m r t sth uid known) in
      (
        record w1 { dosth_id = suc w1.dosth_id; out_msgs = w1.out_msgs ++ (rsp ∷ []) },
        rw (h1, handle_all, h2) refl,
        refl,
        refl,
        enter-found positive free,
      )

  handle_for_offline :
      (user : UserPtr)
      → (user == 0) ≡ false
      → (w' : LogicWorker) × (handle_for proto on_offline (offline_of sfd uid) user w ≡ some w')
        × (w'.users ≡ w.users)
  unfolding handle_for call on_user_offline
  handle_for_offline user nz = (
    record w { heap = set_user w.heap user (record (w.heap.at user) { uid = uid }) },
    rw (handle_for, nz) refl,
    refl,
  )

  -- With the registered handlers, a user that goes offline stays entered on the logic server: the
  -- message is handled, and the number still leads to the same user.
  pub offline-stays :
      (user : UserPtr)
      → w.handlers ≡ register_handlers
      → get_user_by_uid uid w.users ≡ user
      → (user == 0) ≡ false
      → (w' : LogicWorker) × (handler_one_msg proto (offline_of sfd uid) w ≡ some w')
        × (get_user_by_uid uid w'.users ≡ user)
  unfolding handler_one_msg get_msg_handler register_handlers lookup
  offline-stays user table found nz =
      let (w', e, same) = handle_for_offline user nz in
      let known : get_msg_handler user_offline w.handlers ≡ some on_offline =
        ap (lookup user_offline) table in
      (
        w',
        rw (handler_one_msg, known)
            (ap (λ u. handle_for proto on_offline (offline_of sfd uid) u w) found ∙ e),
        ap (get_user_by_uid uid) same ∙ found,
      )
