-- ===== src/Server/GateIo/Guards.antt =====
-- What a connection may do before it is logged in.
use rubo.Base.{
  ℕ, ◌<◌, ◌≡◌, refl, ap, ◌∙◌, inl, true, false, List, [], ◌∷◌, ◌++◌, map, none, some, arith, length,
  ◌==◌, if_true, append_assoc,
}
use rubo.Base.Int.{ℤ, pos}
use rubo.Util.IdMap.{lookup, lookup-erase}
use rubo.Util.RingBuff.{data_size}
use rubo.Util.RingBuff.Writes.{Holds}
use rubo.Util.RingBuff.Takes.{data_size-Holds}
use rubo.Util.LineBuffer.Laws.{IsDoubled}
use rubo.Util.SocketNode.{SocketNode}
use rubo.Util.EpollOp.{closes, ctl_del, close_fd, epoll_del}
use rubo.Util.TcpOp.{close_op}
use rubo.Util.User.{UserPtr}
use rubo.Msgs.UserMsg.{Text, UserMsg, Protobuf, login_req, user_login_req}
use rubo.Msgs.MsgCenter.{MsgCenter, parse_package}
use rubo.Msgs.MsgCenter.Stream.{IsPartial, AllSendable, frames, received_on, parse_package-frames}
use rubo.Server.MysqlDb.{Driver, get_uid}
use rubo.Server.Gate.{
  on_login, get_msg_handler, login_answer, login_as, add_reply, on_user_login, handle,
}
use rubo.Server.GateIo.{GateIo, sock_of, set_node, on_conn_offline, kick_out}
use rubo.Server.GateIo.Round.{is_allowed, handle_single, handle_parsed, handle_read}

-- The connection is closed and forgotten; there is no reply, and the database is as it was.
pub record Kicked {State : Type 0} (sfd : ℤ) (g g' : GateIo State) : Type 0 where
  pub forgotten : lookup sfd g'.unlogin_users ≡ none
  pub closed : g'.tcp.calls ≡ g.tcp.calls ++ (closes sfd ∷ (ctl_del sfd ∷ []))
  pub silent : g'.gate.rsp_msgs ≡ g.gate.rsp_msgs
  pub untouched : g'.gate.db ≡ g.gate.db

kick_out-Kicked :
    {State : Type 0} (sfd : ℤ) (g : GateIo State) (user : UserPtr) (sock : SocketNode)
    (center : MsgCenter)
    → Kicked sfd g (kick_out sfd (set_node user sock (record g { center = center })))
unfolding kick_out on_conn_offline set_node close_op epoll_del close_fd
kick_out-Kicked sfd g user sock center = record {
  forgotten = lookup-erase sfd g.unlogin_users;
  closed = append_assoc g.tcp.calls (closes sfd ∷ []) (ctl_del sfd ∷ []);
  silent = refl;
  untouched = refl;
}

-- More than one message, or bytes behind the only one, or a message that is not for verification,
-- login or registration.
pub data IsRefused : List UserMsg → List ℕ → Type 0 where
  several : (m n : UserMsg) (ms : List UserMsg) (rest : List ℕ) → IsRefused (m ∷ (n ∷ ms)) rest
  trailing : (m : UserMsg) (rest : List ℕ) → 0 < length rest → IsRefused (m ∷ []) rest
  forbidden : (m : UserMsg) → is_allowed m.msg_id ≡ false → IsRefused (m ∷ []) []

module _ {State : Type 0} (driver : Driver State) (proto : Protobuf) where
  handle_read-parsed :
      (user : UserPtr) (g : GateIo State) (sock sock' : SocketNode) (center : MsgCenter)
      → (msgs : List UserMsg) → sock_of user g ≡ some sock
      → parse_package proto g.center sock ≡ some (center, sock', msgs)
      → handle_read driver proto user g
        ≡ handle_parsed driver user sock' msgs (set_node user sock' (record g { center = center }))
  unfolding handle_read
  handle_read-parsed user g sock sock' center msgs e p = rw (handle_read, e, p) refl

  handle_parsed-trailing :
      (user : UserPtr) (sock : SocketNode) (m : UserMsg) (g : GateIo State)
      → (data_size sock.rd_buff == 0) ≡ false
      → handle_parsed driver user sock (m ∷ []) g ≡ some (kick_out sock.sfd g)
  unfolding handle_parsed
  handle_parsed-trailing user sock m g e = rw (e, handle_parsed) refl

  handle_parsed-single :
      (user : UserPtr) (sock : SocketNode) (m : UserMsg) (g : GateIo State)
      → (data_size sock.rd_buff == 0) ≡ true
      → handle_parsed driver user sock (m ∷ []) g ≡ handle_single driver user sock.sfd m g
  unfolding handle_parsed
  handle_parsed-single user sock m g e = rw (e, handle_parsed) refl

  handle_single-forbidden :
      (user : UserPtr) (sfd : ℤ) (m : UserMsg) (g : GateIo State)
      → is_allowed m.msg_id ≡ false
      → handle_single driver user sfd m g ≡ some (kick_out sfd g)
  unfolding handle_single
  handle_single-forbidden user sfd m g e = rw (handle_single, e) refl

  nonzero : (n : ℕ) → 0 < n → (n == 0) ≡ false
  nonzero n h = ground arith

  is_zero : (n : ℕ) → n ≡ 0 → (n == 0) ≡ true
  is_zero n h = ground arith

  handle_parsed-refused :
      (user : UserPtr) (sock : SocketNode) (ms : List UserMsg) (rest : List ℕ) (g : GateIo State)
      → IsRefused ms rest
      → Holds rest sock.rd_buff
      → handle_parsed driver user sock (map (received_on proto sock.sfd) ms) g
        ≡ some (kick_out sock.sfd g)
  unfolding handle_parsed
  handle_parsed-refused user sock ms rest g (several m n ms' rest') h = refl
  handle_parsed-refused user sock ms rest g (trailing m rest' more) h =
      handle_parsed-trailing user sock (received_on proto sock.sfd m) g
        (nonzero (data_size sock.rd_buff) (omega (arith, data_size-Holds h)))
  handle_parsed-refused user sock ms rest g (forbidden m e) h =
      handle_parsed-single user sock (received_on proto sock.sfd m) g
        (is_zero (data_size sock.rd_buff) (data_size-Holds h))
      ∙ handle_single-forbidden user sock.sfd (received_on proto sock.sfd m) g e

  -- If the receive ring of a connection that is not logged in holds the frames of messages that
  -- protobuf reads back, and then an unfinished package or nothing, and these are more than one
  -- message, or bytes behind the only one, or a message that is not for verification, login or
  -- registration, then the connection is closed and forgotten, without a reply and without a change
  -- of the database.
  pub handle_read-refused :
      (user : UserPtr) (g : GateIo State) (sock : SocketNode) (ms : List UserMsg) (rest : List ℕ)
      → IsRefused ms rest
      → sock_of user g ≡ some sock
      → AllSendable proto g.center.names ms
      → IsPartial rest
      → Holds (frames proto ms ++ rest) sock.rd_buff
      → IsDoubled g.center.parse_buff.buff_size
      → (g' : GateIo State) × (handle_read driver proto user g ≡ some g') × Kicked sock.sfd g g'
  handle_read-refused user g sock ms rest r e all part h sized =
      let (ring, line, p, h', _) =
        parse_package-frames proto g.center sock ms rest all part h sized in
      let sock' : SocketNode = record sock { rd_buff = ring } in
      let center : MsgCenter = record (g.center) { parse_buff = line } in
      (
        kick_out sock.sfd (set_node user sock' (record g { center = center })),
        handle_read-parsed user g sock sock' center (map (received_on proto sock.sfd) ms) e p
            ∙ handle_parsed-refused user sock' ms rest
                (set_node user sock' (record g { center = center })) r h',
        kick_out-Kicked sock.sfd g user sock' center,
      )

  handle_single-login :
      (user : UserPtr) (sfd : ℤ) (m : UserMsg) (g : GateIo State) (name passwd : Text)
      → get_msg_handler user_login_req g.handlers ≡ some on_login
      → handle_single driver user sfd
          (record m { msg_id = user_login_req; msg = login_req name passwd })
          g
        ≡ some (record g {
          gate =
              login_as
                (get_uid driver g.gate.db name passwd)
                (record m { msg_id = user_login_req; msg = login_req name passwd })
                user
                g.gate;
        })
  unfolding handle_single is_allowed handle on_user_login
  handle_single-login user sfd m g name passwd e = rw (handle_single, e) refl

  -- If the login handler is registered, a connection that is not logged in and has sent a login,
  -- which protobuf reads back, and nothing else stays as it is and gets one reply, with the number
  -- that the database gave for the name and the password; this number becomes the number of its
  -- user.
  pub handle_read-login :
      (user : UserPtr) (g : GateIo State) (sock : SocketNode) (m : UserMsg) (name passwd : Text)
      → sock_of user g ≡ some sock
      → m ≡ record m { msg_id = user_login_req; msg = login_req name passwd }
      → AllSendable proto g.center.names (m ∷ [])
      → Holds (frames proto (m ∷ []) ++ []) sock.rd_buff
      → IsDoubled g.center.parse_buff.buff_size
      → get_msg_handler user_login_req g.handlers ≡ some on_login
      → let uid = get_uid driver g.gate.db name passwd in
        (g' : GateIo State) × (handle_read driver proto user g ≡ some g')
        × (g'.gate.rsp_msgs
            ≡ g.gate.rsp_msgs
              ++ (record m { sfd = sock.sfd; msg_id = pos 4; msg = login_answer uid } ∷ []))
        × ((g'.gate.users.at user).uid ≡ uid)
        × (g'.unlogin_users ≡ g.unlogin_users)
        × (g'.tcp ≡ g.tcp)
  unfolding login_as set_node add_reply
  handle_read-login user g sock m name passwd e is all h sized known =
      let (ring, line, p, h', _) =
        parse_package-frames proto g.center sock (m ∷ []) [] all (inl (omega arith)) h sized in
      let sock' : SocketNode = record sock { rd_buff = ring } in
      let g0 : GateIo State = record g { center = record (g.center) { parse_buff = line } } in
      let g1 : GateIo State = set_node user sock' g0 in
      let got : UserMsg = record m {
        sfd = sock.sfd;
        msg_id = user_login_req;
        msg = login_req name passwd;
      } in
      (
        record g1 { gate = login_as (get_uid driver g.gate.db name passwd) got user g1.gate },
        handle_read-parsed user g sock sock' g0.center (received_on proto sock.sfd m ∷ []) e p
            ∙ ap (λ x. handle_parsed driver user sock' (received_on proto sock.sfd x ∷ []) g1) is
            ∙ handle_parsed-single user sock' got g1 (is_zero (data_size ring) (data_size-Holds h'))
            ∙ handle_single-login user sock.sfd got g1 name passwd known,
        refl,
        ap (λ u. u.uid) (if_true (user == user) _ (g1.gate.users.at user) (ground arith)),
        refl,
        refl,
      )
