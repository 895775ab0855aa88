-- ===== src/Examples/Managers.antt =====
-- The user manager and the shared list at concrete inputs.
use rubo.Base.{
  ℕ, ◌≡◌, refl, true, false, [], ◌∷◌, ◌++◌, Bool, Option, none, some, arith, ◌==◌, if◌then◌else◌,
}
use rubo.Base.Int.{ℤ, pos, ◌==ℤ◌}
use rubo.Util.IdMap.{lookup}
use rubo.Util.MutexList.{
  Calls, done, call, adds_more, gets_one, get_one, add_more, all_added, all_taken, Calls-fifo,
}
use rubo.Util.SocketNode.{SocketNode, new_node, fd_event_none, fd_event_read}
use rubo.Util.RingBuff.{new_ring, data_size, left_size}
use rubo.Util.TcpOp.{
  TcpOp, Op, event_op, read_part, write_part, finish, new_tcp_op, tcp_type_server,
}
use rubo.Util.TcpOp.NeverOut.{asks_out, event_op-never_out}
use rubo.Util.User.{User, logined, closing, UserPtr, Users}
use rubo.Util.UserManager.{
  UserManager, new_manager, add_user, add_conn, del_conn, get_user_by_sock, get_user_by_uid,
}
use rubo.Util.UserManager.Keys.{
  IsValid, Keeps, start, step, adds_user, changes, dels_conn, Reachable-IsValid,
}
use rubo.Util.UserManager.Lookups.{del_conn-forgets, del_conn-duplicate}

abbrev sock : ℕ → SocketNode
sock fd = record new_node { sfd = pos fd }

-- User 7 twice: at address 1 on descriptor 4, and at address 2 on descriptor 5.
abbrev player : ℕ → User
player fd = record { uid = pos 7; conn_status = logined; sock = some (sock fd) }

abbrev store : Users
store = record { at = λ p. if p == 1 then player 4 else player 5; next = 3 }

-- The same users, where the first connection is closing and has been read.
abbrev closing_player : User
closing_player = record {
  uid = pos 7;
  conn_status = closing;
  sock = some (record (sock 4) { op_ret = fd_event_read });
}

abbrev later : Users
later = record { at = λ p. if p == 1 then closing_player else player 5; next = 3 }

abbrev descriptor : User → Option ℤ
descriptor user = elim user.sock [ none ↦ none | some sock ↦ some sock.sfd ]

same_sfd :
    (b : Bool)
    → descriptor (if b then closing_player else player 5)
      ≡ descriptor (if b then player 4 else player 5)
same_sfd true = refl
same_sfd false = refl

first-Keeps : Keeps store later (add_user store 1 new_manager).0
first-Keeps = record { uid_kept = λ k p e. by_user p; sfd_kept = λ k p e. same_sfd (p == 1) }
  where
    by_user : (p : ℕ) → (later.at p).uid ≡ (store.at p).uid
    by_user p = ground arith

Reachable-IsValid_example : IsValid later (del_conn later (pos 4) (add_user store 1 new_manager).0)
Reachable-IsValid_example =
    Reachable-IsValid later (del_conn later (pos 4) (add_user store 1 new_manager).0) (
      step
        (step (step (start store) (adds_user store 1 new_manager))
          (changes store later (add_user store 1 new_manager).0 first-Keeps))
        (dels_conn later (pos 4) (add_user store 1 new_manager).0))

-- After the first connection.
abbrev first_in : UserManager
first_in = record { uid_users = (pos 7, 1) ∷ []; sock_users = (pos 4, 1) ∷ [] }

del_conn-forgets_example :
    (get_user_by_sock (pos 4) (del_conn store (pos 4) first_in) ≡ 0)
    × ((j : ℤ)
        → (pos 4 ==ℤ j) ≡ false
        → get_user_by_sock j (del_conn store (pos 4) first_in) ≡ get_user_by_sock j first_in)
    × ((user : UserPtr)
        → lookup (pos 4) first_in.sock_users ≡ some user
        → get_user_by_uid (store.at user).uid (del_conn store (pos 4) first_in) ≡ 0)
del_conn-forgets_example = del_conn-forgets store (pos 4) first_in

first-found :
    (lookup (pos 4) first_in.sock_users ≡ some 1) × (lookup (pos 5) first_in.sock_users ≡ none)
unfolding lookup
first-found = (refl, refl)

del_conn-duplicate_example :
    (m' : UserManager) × (add_conn store 2 first_in ≡ some (m', true))
    × (get_user_by_sock (pos 4) (del_conn store (pos 5) m') ≡ 1)
    × (get_user_by_uid (pos 7) (del_conn store (pos 5) m') ≡ 0)
del_conn-duplicate_example =
    del_conn-duplicate store 1 2 first_in (sock 4) (sock 5) refl refl refl refl refl first-found.0
      first-found.1

-- Two elements go in, one comes out, one stays.
abbrev calls : Calls {T = ℕ} (3 ∷ []) (get_one 0 (add_more (4 ∷ []) (3 ∷ []))).1
calls = call (adds_more (4 ∷ []) (3 ∷ [])) (call (gets_one 0 (add_more (4 ∷ []) (3 ∷ []))) (done _))

Calls-fifo_example :
    (3 ∷ []) ++ all_added calls ≡ all_taken calls ++ (get_one 0 (add_more (4 ∷ []) (3 ∷ []))).1
Calls-fifo_example = Calls-fifo calls

-- A connection with an event that is neither for reading nor for writing.
abbrev server : TcpOp
server = new_tcp_op tcp_type_server

abbrev after : Op
after = record { tcp = server; node = sock 4; wire = []; ret = fd_event_none }

after-event_op : event_op [] [] server (sock 4) ≡ some after
unfolding event_op read_part write_part finish new_node new_ring data_size left_size
after-event_op = refl

event_op-never_out_example : asks_out after.tcp.calls ≡ asks_out server.calls
event_op-never_out_example = event_op-never_out [] [] server (sock 4) after after-event_op
