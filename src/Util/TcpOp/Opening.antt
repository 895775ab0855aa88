-- ===== src/Util/TcpOp/Opening.antt =====
-- util/TcpOp.cpp: which descriptors are open after `init` of a client, and that a server that can not listen
-- closes the set of epoll twice.
use mathlib.Core.Path.{subst}
use rubo.Base.{
  ◌⊎◌, if_true, if_false, ℕ, suc, ◌+◌, ◌≡◌, refl, sym, ap, ◌∙◌, inl, inr, Bool, true, false, List,
  [], ◌∷◌, ◌++◌, arith, if◌then◌else◌, Bool-cases, ltb,
}
use rubo.Base.Int.{ℤ, pos, negsuc, is_positive, ◌==ℤ◌}
use rubo.Util.EpollOp.{
  ctl_add_in, closes, opens, Trace, epoll_add, close_fd, epoll_init, epoll_unit,
}
use rubo.Util.SocketOp.Sockets.{
  is_negative, create_listen, ConnectAnswers, connect_loop, connect_to,
}
use rubo.Util.TcpOp.{tcp_type_client, tcp_type_server, tcp_type_epoll, TcpOp, is_configured}
use rubo.Util.TcpOp.Setup.{
  Attempt, InitAnswers, unit, listening, init_server, try_connect, init_client, open_socket,
  or_unit, watch, watch_socket, init_epoll, after_epoll, init,
}
use rubo.Util.TcpOp.Descriptors.{
  one_if, held, times_opened, times_closed, Keeps, Keeps-opens, Keeps-close_fd, Keeps-epoll_add,
  Keeps-held_close, KeepsWith, not_held, drop_held, is_held, not_positive,
}

-- The kernel gives no descriptor 0, which is the standard input.
abbrev pub IsGiven : ℤ → Type 0
IsGiven k = (is_negative k ≡ true) ⊎ (is_positive k ≡ true)

abbrev pub AllGiven : List ConnectAnswers → Type 0
AllGiven [] = Unit
AllGiven (a ∷ others) = IsGiven a.socket × AllGiven others

abbrev pub AttemptsGiven : List Attempt → Type 0
AttemptsGiven [] = Unit
AttemptsGiven (a ∷ others) = AllGiven a.addresses × AttemptsGiven others

given_positive : (k : ℤ) → is_negative k ≡ false → IsGiven k → is_positive k ≡ true
given_positive k n g = elim g [ inl neg ↦ absurd (cc (n, neg)) | inr p ↦ p ]

net_type-try_connect :
    (attempts : List Attempt) (o : TcpOp) → (try_connect attempts o).net_type ≡ o.net_type
unfolding try_connect
net_type-try_connect [] o = refl
net_type-try_connect (a ∷ others) o =
    elim (Bool-cases (is_positive (connect_to a.rv a.addresses o.calls).1)) [
      | inl p ↦ rw (try_connect, p)
      | inr p ↦ rw (try_connect, p) (net_type-try_connect others _)
    ]

-- A client's end of `init`.
client_end :
    (a : InitAnswers) (o : TcpOp)
    → o.net_type ≡ tcp_type_client
    → watch_socket a (open_socket a o) ≡ watch a (try_connect a.attempts o)
unfolding watch_socket open_socket init_client
client_end a o e =
    let t = try_connect a.attempts o in
    ap
      (λ k.
        watch_socket a
          (elim k [ tcp_type_client ↦ t | tcp_type_server ↦ (init_server a.listens o).0 | _ ↦ o ]))
      e
    ∙ ap (λ k. elim k [ tcp_type_epoll ↦ (t, true) | _ ↦ watch a t ])
        (net_type-try_connect a.attempts o ∙ e)

module _ (fd : ℤ) where
  connect_loop-KeepsWith :
      (others : List ConnectAnswers) (sock_fd : ℤ) (n : ℕ) (t t' : Trace)
      → AllGiven others
      → is_positive sock_fd ≡ false
      → Keeps fd n t t'
      → KeepsWith fd n t (connect_loop others sock_fd t')
  unfolding connect_loop
  connect_loop-KeepsWith [] sock_fd n t t' g e h = not_held fd sock_fd n t t' e h
  connect_loop-KeepsWith (a ∷ others) sock_fd n t t' g e h =
      elim (Bool-cases (is_negative a.socket)) [
        | inl neg ↦
            rw (connect_loop, neg)
              (connect_loop-KeepsWith others a.socket n t t' g.1 (not_positive a.socket neg) h)
        | inr nonneg ↦ elim (Bool-cases (is_negative a.connect)) [
          | inl failed ↦
              rw (connect_loop, nonneg, failed)
                (connect_loop-KeepsWith others (negsuc 0) n t
                  (close_fd a.socket (t' ++ (opens a.socket ∷ []))) g.1 refl
                  (Keeps-close_fd fd a.socket n t (t' ++ (opens a.socket ∷ []))
                    (Keeps-opens fd a.socket n t t' h)))
          | inr connected ↦
              rw (connect_loop, nonneg, connected)
                (is_held fd a.socket n t (t' ++ (opens a.socket ∷ []))
                  (given_positive a.socket nonneg g.0) (Keeps-opens fd a.socket n t t' h))
        ]
      ]

  connect_to-KeepsWith :
      (a : Attempt) (n : ℕ) (t t' : Trace)
      → AllGiven a.addresses
      → Keeps fd n t t'
      → KeepsWith fd n t (connect_to a.rv a.addresses t')
  unfolding connect_to
  connect_to-KeepsWith a n t t' g h = elim (Bool-cases (a.rv ==ℤ pos 0)) [
    | inl found ↦
        rw (connect_to, found)
          (connect_loop-KeepsWith a.addresses (pos 0) n t t' g (ground arith) h)
    | inr none_found ↦ rw (connect_to, none_found) (not_held fd (negsuc 0) n t t' refl h)
  ]

  try_connect-KeepsWith :
      (attempts : List Attempt) (n : ℕ) (t : Trace) (o : TcpOp)
      → AttemptsGiven attempts
      → is_positive o.sock_fd ≡ false
      → Keeps fd n t o.calls
      → let o' = try_connect attempts o in
        KeepsWith fd n t (o'.calls, o'.sock_fd) × (o'.epoll_fd ≡ o.epoll_fd)
  unfolding try_connect
  try_connect-KeepsWith [] n t o g e h = (not_held fd o.sock_fd n t o.calls e h, refl)
  try_connect-KeepsWith (a ∷ others) n t o g e h =
      let h1 = connect_to-KeepsWith a n t o.calls g.0 h in
      let r = connect_to a.rv a.addresses o.calls in
      let o1 : TcpOp = record o { sock_fd = r.1; calls = r.0 } in
      elim (Bool-cases (is_positive r.1)) [
        | inl p ↦ rw (try_connect, p) (h1, refl)
        | inr p ↦
            rw (try_connect, p)
              (try_connect-KeepsWith others n t o1 g.1 p (drop_held fd r.1 n t r.0 p h1))
      ]

  -- What is left open by a call of `init`, by its result.
  Left : Trace → TcpOp × Bool → Type 0
  Left t (o, false) = Keeps fd 0 t o.calls
  Left t (o, true) = Keeps fd (held fd o.sock_fd + held fd o.epoll_fd) t o.calls

  unit-Keeps :
      (o : TcpOp) (t : Trace)
      → Keeps fd (held fd o.sock_fd + held fd o.epoll_fd) t o.calls
      → Keeps fd 0 t (unit o).calls
  unfolding unit epoll_unit
  unit-Keeps o t h =
      let closed = if is_positive o.sock_fd then close_fd o.sock_fd o.calls else o.calls in
      let swapped : held fd o.sock_fd + held fd o.epoll_fd
          ≡ held fd o.epoll_fd + held fd o.sock_fd =
        omega arith in
      let bare : held fd o.epoll_fd ≡ 0 + held fd o.epoll_fd = omega arith in
      Keeps-held_close fd o.epoll_fd 0 t closed (
        subst (λ m. Keeps fd m t closed) bare
          (Keeps-held_close fd o.sock_fd (held fd o.epoll_fd) t o.calls
            (subst (λ m. Keeps fd m t o.calls) swapped h)))

  or_unit-Left :
      (ok : Bool) (o : TcpOp) (t : Trace)
      → Keeps fd (held fd o.sock_fd + held fd o.epoll_fd) t o.calls
      → Left t (or_unit o ok)
  unfolding or_unit Left
  or_unit-Left true o t h = h
  or_unit-Left false o t h = unit-Keeps o t h

  watch-Left :
      (a : InitAnswers) (o : TcpOp) (t : Trace)
      → Keeps fd (held fd o.sock_fd + held fd o.epoll_fd) t o.calls
      → Left t (watch a o)
  unfolding watch epoll_add
  watch-Left a o t h =
      or_unit-Left (a.added_ok o.sock_fd)
        (record o { calls = (epoll_add a.added_ok o.sock_fd o.calls).0 }) t
        (Keeps-epoll_add fd a.added_ok o.sock_fd (held fd o.sock_fd + held fd o.epoll_fd) t o.calls
          h)

  both_held :
      (epoll_fd : ℤ) (o : TcpOp) (t : Trace)
      → o.epoll_fd ≡ epoll_fd
      → KeepsWith fd (held fd epoll_fd) t (o.calls, o.sock_fd)
      → Keeps fd (held fd o.sock_fd + held fd o.epoll_fd) t o.calls
  unfolding KeepsWith
  both_held epoll_fd o t same h =
      let swapped : held fd epoll_fd + held fd o.sock_fd ≡ held fd o.sock_fd + held fd epoll_fd =
        omega arith in
      subst (λ k. Keeps fd (held fd o.sock_fd + held fd k) t o.calls) (sym same)
        (subst (λ m. Keeps fd m t o.calls) swapped h)

  -- The rest of `init` for a client, once there is a set of epoll.
  client-Left :
      (a : InitAnswers) (o : TcpOp) (t : Trace)
      → o.net_type ≡ tcp_type_client
      → AttemptsGiven a.attempts
      → is_positive o.sock_fd ≡ false
      → Keeps fd (held fd o.epoll_fd) t o.calls
      → Left t (watch_socket a (open_socket a o))
  client-Left a o t e g none_yet h =
      let (h1, same) = try_connect-KeepsWith a.attempts (held fd o.epoll_fd) t o g none_yet h in
      subst (Left t) (sym (client_end a o e)) (
        watch-Left a (try_connect a.attempts o) t
          (both_held o.epoll_fd (try_connect a.attempts o) t same h1))

  Keeps-refl : (t : Trace) → Keeps fd 0 t t
  unfolding Keeps
  Keeps-refl t = omega arith

  init_epoll-Left :
      (a : InitAnswers) (o : TcpOp) (created : ℤ)
      → o.net_type ≡ tcp_type_client
      → IsGiven created
      → AttemptsGiven a.attempts
      → is_positive o.sock_fd ≡ false
      → let (calls, epoll_fd, ok) = epoll_init created o.calls in
        Left o.calls (after_epoll a (or_unit (record o { epoll_fd = epoll_fd; calls = calls }) ok))
  unfolding after_epoll epoll_init or_unit Left
  init_epoll-Left a o (negsuc n) e created g none_yet =
      let nothing : 0 ≡ held fd o.sock_fd + 0 =
        omega (arith, if_false (is_positive o.sock_fd) (one_if fd o.sock_fd) 0 none_yet) in
      unit-Keeps (record o { epoll_fd = negsuc n }) o.calls
        (subst (λ m. Keeps fd m o.calls o.calls) nothing (Keeps-refl o.calls))
  init_epoll-Left a o (pos n) e created g none_yet =
      let p : is_positive (pos n) ≡ true = given_positive (pos n) refl created in
      let one : 0 + one_if fd (pos n) ≡ held fd (pos n) =
        omega (arith, if_true (is_positive (pos n)) (one_if fd (pos n)) 0 p) in
      client-Left a (record o { epoll_fd = pos n; calls = o.calls ++ (opens (pos n) ∷ []) }) o.calls
        e g none_yet
        (subst (λ m. Keeps fd m o.calls (o.calls ++ (opens (pos n) ∷ []))) one
          (Keeps-opens fd (pos n) 0 o.calls o.calls (Keeps-refl o.calls)))

  init-Left :
      (a : InitAnswers) (o : TcpOp)
      → o.net_type ≡ tcp_type_client
      → IsGiven a.created
      → AttemptsGiven a.attempts
      → is_positive o.sock_fd ≡ false
      → Left o.calls (init a o)
  unfolding init init_epoll Left
  init-Left a o e created g none_yet = elim (Bool-cases (is_configured o)) [
    | inl c ↦ rw (init, c) (init_epoll-Left a o a.created e created g none_yet)
    | inr c ↦ rw (init, c) (Keeps-refl o.calls)
  ]

  Left-count :
      (t : Trace) (r : TcpOp × Bool)
      → Left t r
      → times_opened fd r.0.calls + times_closed fd t
        ≡ times_closed fd r.0.calls
          + times_opened fd t
          + (if r.1 then held fd r.0.sock_fd + held fd r.0.epoll_fd else 0)
  unfolding Left Keeps
  Left-count t (o, true) h = h
  Left-count t (o, false) h = h

-- If the kernel gives no descriptor 0, then over a call of `init` on a client that has no socket
-- yet, every descriptor is closed as often as it was opened, whatever the answers of the kernel;
-- after a success the socket and the set of epoll of the object are left open besides, and nothing
-- else.
pub init-descriptors :
    (fd : ℤ) (a : InitAnswers) (o : TcpOp)
    → o.net_type ≡ tcp_type_client
    → IsGiven a.created
    → AttemptsGiven a.attempts
    → is_positive o.sock_fd ≡ false
    → let (o', ok) = init a o in
      times_opened fd o'.calls + times_closed fd o.calls
      ≡ times_closed fd o'.calls
        + times_opened fd o.calls
        + (if ok then held fd o'.sock_fd + held fd o'.epoll_fd else 0)
init-descriptors fd a o e created g none_yet =
    Left-count fd o.calls (init a o) (init-Left fd a o e created g none_yet)

-- `unit` of an object with a set of epoll and without a socket.
unit_no_socket :
    (o : TcpOp) (n : ℕ)
    → unit (record o { sock_fd = negsuc 0; epoll_fd = pos (suc n) }) ≡ record o {
      sock_fd = negsuc 0;
      epoll_fd = pos (suc n);
      calls = o.calls ++ (closes (pos (suc n)) ∷ []);
    }
unfolding unit epoll_unit close_fd
unit_no_socket o n =
    let some_set : ltb 0 (suc n) ≡ true = ground arith in rw (unit, epoll_unit, some_set)

module _ (a : InitAnswers) (o : TcpOp) (n : ℕ) (c : Trace)
    (server : o.net_type ≡ tcp_type_server) where
  -- A server with its set of epoll, and with some calls made.
  with_set : ℤ → Trace → TcpOp
  with_set sock_fd calls = record o { sock_fd = sock_fd; epoll_fd = pos (suc n); calls = calls }

  server_socket :
      (t : Trace)
      → create_listen a.listens t ≡ (c, negsuc 0)
      → open_socket a (with_set o.sock_fd t)
        ≡ with_set (negsuc 0) (c ++ (closes (pos (suc n)) ∷ []))
  unfolding open_socket init_server listening with_set
  server_socket t failed =
      ap
        (λ k. elim k [
          | tcp_type_client ↦ (init_client a (with_set o.sock_fd t)).0
          | tcp_type_server ↦ (init_server a.listens (with_set o.sock_fd t)).0
          | _ ↦ with_set o.sock_fd t
        ])
        server
      ∙ ap (λ r. (listening (with_set o.sock_fd t) r).0) failed
      ∙ unit_no_socket (with_set (negsuc 0) c) n

  server_watch :
      (t : Trace)
      → a.added_ok (negsuc 0) ≡ false
      → watch_socket a (with_set (negsuc 0) t) ≡ (
        with_set (negsuc 0) ((t ++ (ctl_add_in (negsuc 0) ∷ [])) ++ (closes (pos (suc n)) ∷ [])),
        false,
      )
  unfolding watch_socket watch or_unit with_set epoll_add
  server_watch t refused =
      ap
        (λ k. elim k [
          | tcp_type_epoll ↦ (with_set (negsuc 0) t, true)
          | _ ↦ watch a (with_set (negsuc 0) t)
        ])
        server
      ∙ ap (or_unit (with_set (negsuc 0) (t ++ (ctl_add_in (negsuc 0) ∷ [])))) refused
      ∙ ap (λ u. (u, false))
          (unit_no_socket (with_set (negsuc 0) (t ++ (ctl_add_in (negsuc 0) ∷ []))) n)

  server_epoll :
      a.created ≡ pos (suc n)
      → init_epoll a o ≡ (with_set o.sock_fd (o.calls ++ (opens (pos (suc n)) ∷ [])), true)
  unfolding init_epoll or_unit epoll_init with_set
  server_epoll created =
      ap
        (λ k.
          or_unit
            (record o { epoll_fd = (epoll_init k o.calls).1; calls = (epoll_init k o.calls).0 })
            (epoll_init k o.calls).2)
        created

  -- If a server that is configured gets a set of epoll but can not listen, and epoll refuses the
  -- descriptor -1, `init` fails and closes the set twice, with a call on it in between.
  pub init-closes_twice :
      is_configured o ≡ true
      → a.created ≡ pos (suc n)
      → create_listen a.listens (o.calls ++ (opens (pos (suc n)) ∷ [])) ≡ (c, negsuc 0)
      → a.added_ok (negsuc 0) ≡ false
      → ((init a o).1 ≡ false)
        × ((init a o).0.calls
            ≡ ((c ++ (closes (pos (suc n)) ∷ [])) ++ (ctl_add_in (negsuc 0) ∷ []))
              ++ (closes (pos (suc n)) ∷ []))
  unfolding init after_epoll with_set
  init-closes_twice configured created failed refused =
      let run =
        ap (λ b. elim b [ false ↦ (o, false) | true ↦ after_epoll a (init_epoll a o) ]) configured
        ∙ ap (after_epoll a) (server_epoll created)
        ∙ ap (watch_socket a) (server_socket (o.calls ++ (opens (pos (suc n)) ∷ [])) failed)
        ∙ server_watch (c ++ (closes (pos (suc n)) ∷ [])) refused in
      (ap (λ r. r.1) run, ap (λ r. r.0.calls) run)
