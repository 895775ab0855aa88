-- ===== src/Server/GateIo/HandOver.antt =====
-- The hand-over of a connection to a worker.
use rubo.Base.{
  ℕ, zero, suc, ◌≤◌, ◌<◌, ◌≡◌, ◌≢◌, refl, ap, ◌∙◌, inl, inr, Bool, true, false, ◌||◌, List, [], ◌∷◌,
  ◌++◌, none, some, length, Bool-cases,
}
use rubo.Base.Int.{ℤ, ◌==ℤ◌, ==ℤ_refl}
use rubo.Util.IdMap.{lookup, erase, lookup-erase}
use rubo.Util.EpollOp.{ctl_del, epoll_del}
use rubo.Util.TcpOp.{del_epev}
use rubo.Util.SocketNode.{fd_event_connect}
use rubo.Server.Balance.{uint_max, get_elem?, All, get_worker-fewest}
use rubo.Server.GateIo.{
  Worker, is_fd_in, add_fd, get_worker, update_at, GateIo, take_over, on_user_logined,
}

-- Whether a worker has a descriptor, as one of its users or as its logic server.
abbrev pub has_fd : ℤ → Worker → Bool
has_fd fd w = is_fd_in fd w.fd_set || w.logic_fd ==ℤ fd

is_fd_in-add_fd : (fd : ℤ) (ks : List ℤ) → is_fd_in fd (add_fd fd ks) ≡ true
unfolding is_fd_in add_fd
is_fd_in-add_fd fd ks = elim (Bool-cases (is_fd_in fd ks)) [
  | inl e ↦ rw (add_fd, e) e
  | inr e ↦ rw (add_fd, e, ==ℤ_refl fd) refl
]

get_elem?-update_at :
    (i : ℕ) (f : Worker → Worker) (ws : List Worker) (w : Worker)
    → get_elem? ws i ≡ some w
    → get_elem? (update_at i f ws) i ≡ some (f w)
unfolding update_at
get_elem?-update_at i f [] w e = absurd (cc e)
get_elem?-update_at zero f (v ∷ ws) w e = ap (λ o. elim o [ none ↦ none | some u ↦ some (f u) ]) e
get_elem?-update_at (suc i) f (v ∷ ws) w e = get_elem?-update_at i f ws w e

get_elem?-update_other :
    (i j : ℕ) (f : Worker → Worker) (ws : List Worker)
    → j ≢ i
    → get_elem? (update_at i f ws) j ≡ get_elem? ws j
unfolding update_at
get_elem?-update_other i j f [] other = refl
get_elem?-update_other zero zero f (w ∷ ws) other = absurd (other refl)
get_elem?-update_other zero (suc j) f (w ∷ ws) other = refl
get_elem?-update_other (suc i) zero f (w ∷ ws) other = refl
get_elem?-update_other (suc i) (suc j) f (w ∷ ws) other =
    get_elem?-update_other i j f ws (λ e. other (ap suc e))

module _ {State : Type 0} where
  on_user_logined-some :
      (fd uid : ℤ) (g : GateIo State) (i : ℕ)
      → get_worker fd g.workers ≡ some i
      → on_user_logined fd uid g ≡ record g {
        unlogin_users = erase fd g.unlogin_users;
        workers = update_at i (take_over fd uid) g.workers;
        tcp = del_epev fd g.tcp;
      }
  unfolding on_user_logined
  on_user_logined-some fd uid g i e = rw (on_user_logined, e) refl

  -- What a hand-over leaves: the connection is forgotten and leaves the epoll set of this thread, and
  -- of the workers one with the fewest connections has it, and the event that it is to be taken over; the
  -- others stay.
  pub record HandedOver (fd uid : ℤ) (g g' : GateIo State) (i : ℕ) (w : Worker) : Type 0 where
    pub chosen : get_elem? g.workers i ≡ some w
    pub fewest : All (λ u. length w.fd_set ≤ length u.fd_set) g.workers
    pub worker : Worker
    pub changed : get_elem? g'.workers i ≡ some worker
    pub others : (j : ℕ) → j ≢ i → get_elem? g'.workers j ≡ get_elem? g.workers j
    pub has_it : has_fd fd worker ≡ true
    pub event :
        worker.events_io
        ≡ w.events_io ++ (record { sfd = fd; uid = uid; event = fd_event_connect } ∷ [])
    pub same_logic : worker.logic_fd ≡ w.logic_fd
    pub same_ioevs : worker.ioevs_in ≡ w.ioevs_in
    pub forgotten : lookup fd g'.unlogin_users ≡ none
    pub removed : g'.tcp.calls ≡ g.tcp.calls ++ (ctl_del fd ∷ [])

  -- If there is a worker, the first has less than UINT_MAX connections and none has the descriptor,
  -- a login hands the connection over to one with the fewest: it has the descriptor then and,
  -- behind its events, the connect event with the descriptor and the user's number, its other queue
  -- and its logic server stay, as do all other workers, and the IO thread forgets the connection
  -- and takes it out of epoll.
  pub on_user_logined-HandedOver :
      (fd uid : ℤ) (g : GateIo State) (v : Worker) (ws : List Worker)
      → g.workers ≡ v ∷ ws
      → All (λ w. has_fd fd w ≡ false) (v ∷ ws)
      → length v.fd_set < uint_max
      → (i : ℕ) × (w : Worker) × HandedOver fd uid g (on_user_logined fd uid g) i w
  unfolding get_worker take_over del_epev epoll_del
  on_user_logined-HandedOver fd uid g v ws is none_has small =
      let (i, w, e, at, fewest) =
        get_worker-fewest (has_fd fd) (λ w. length w.fd_set) v ws none_has small in
      let e' : get_worker fd g.workers ≡ some i = ap (get_worker fd) is ∙ e in
      let at' : get_elem? g.workers i ≡ some w = ap (λ l. get_elem? l i) is ∙ at in
      (
        i,
        w,
        rw (on_user_logined-some fd uid g i e') (record {
          chosen = at';
          fewest = rw is fewest;
          worker = take_over fd uid w;
          others = λ j other. get_elem?-update_other i j (take_over fd uid) g.workers other;
          event = refl;
          same_logic = refl;
          same_ioevs = refl;
          changed = get_elem?-update_at i (take_over fd uid) g.workers w at';
          has_it = rw (is_fd_in-add_fd fd w.fd_set) refl;
          forgotten = lookup-erase fd g.unlogin_users;
          removed = refl;
        }),
      )
