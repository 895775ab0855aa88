-- ===== src/Util/TcpOp/Descriptors.antt =====
-- How often descriptors are opened and closed in a trace of calls, for util/TcpOp.cpp and util/EpollOp.cpp.
use mathlib.Core.Path.{subst}
use rubo.Base.{
  if_true, if_false, ℕ, ◌+◌, ◌≡◌, refl, sym, inl, inr, Bool, true, false, [], ◌∷◌, ◌++◌, arith,
  if◌then◌else◌, Bool-cases,
}
use rubo.Base.Int.{ℤ, pos, negsuc, is_positive, ◌==ℤ◌}
use rubo.Util.EpollOp.{
  ctl_add_in, ctl_del, ctl_mod_in, ctl_mod_in_out, closes, opens, Trace, epoll_add, close_fd,
}
use rubo.Util.SocketOp.Sockets.{is_negative}

-- 1 for a descriptor and 0 for the others.
abbrev pub one_if : ℤ → ℤ → ℕ
one_if fd k = if fd ==ℤ k then 1 else 0

-- A descriptor that the object holds.
abbrev pub held : ℤ → ℤ → ℕ
held fd k = if is_positive k then one_if fd k else 0

-- How often a descriptor was given by the kernel, and how often it was closed.
abbrev pub times_opened : ℤ → Trace → ℕ
times_opened fd [] = 0
times_opened fd (opens k ∷ t) = one_if fd k + times_opened fd t
times_opened fd (closes _ ∷ t) = times_opened fd t
times_opened fd (ctl_add_in _ ∷ t) = times_opened fd t
times_opened fd (ctl_del _ ∷ t) = times_opened fd t
times_opened fd (ctl_mod_in _ ∷ t) = times_opened fd t
times_opened fd (ctl_mod_in_out _ ∷ t) = times_opened fd t

abbrev pub times_closed : ℤ → Trace → ℕ
times_closed fd [] = 0
times_closed fd (closes k ∷ t) = one_if fd k + times_closed fd t
times_closed fd (opens _ ∷ t) = times_closed fd t
times_closed fd (ctl_add_in _ ∷ t) = times_closed fd t
times_closed fd (ctl_del _ ∷ t) = times_closed fd t
times_closed fd (ctl_mod_in _ ∷ t) = times_closed fd t
times_closed fd (ctl_mod_in_out _ ∷ t) = times_closed fd t

pub not_positive : (k : ℤ) → is_negative k ≡ true → is_positive k ≡ false
not_positive (pos n) e = absurd (cc e)
not_positive (negsuc n) e = refl

module _ (fd : ℤ) where
  pub opened-append :
      (a b : Trace) → times_opened fd (a ++ b) ≡ times_opened fd a + times_opened fd b
  opened-append [] b = omega arith
  opened-append (opens k ∷ a) b = omega (arith, opened-append a b)
  opened-append (closes _ ∷ a) b = opened-append a b
  opened-append (ctl_add_in _ ∷ a) b = opened-append a b
  opened-append (ctl_del _ ∷ a) b = opened-append a b
  opened-append (ctl_mod_in _ ∷ a) b = opened-append a b
  opened-append (ctl_mod_in_out _ ∷ a) b = opened-append a b

  pub closed-append :
      (a b : Trace) → times_closed fd (a ++ b) ≡ times_closed fd a + times_closed fd b
  closed-append [] b = omega arith
  closed-append (closes k ∷ a) b = omega (arith, closed-append a b)
  closed-append (opens _ ∷ a) b = closed-append a b
  closed-append (ctl_add_in _ ∷ a) b = closed-append a b
  closed-append (ctl_del _ ∷ a) b = closed-append a b
  closed-append (ctl_mod_in _ ∷ a) b = closed-append a b
  closed-append (ctl_mod_in_out _ ∷ a) b = closed-append a b

  -- Between two traces, the descriptor is left open `n` times more than it was.
  unfoldable pub Keeps : ℕ → Trace → Trace → Type 0
  Keeps n t t' = times_opened fd t' + times_closed fd t ≡ times_closed fd t' + times_opened fd t + n

  pub Keeps-opens :
      (k : ℤ) (n : ℕ) (t t' : Trace)
      → Keeps n t t'
      → Keeps (n + one_if fd k) t (t' ++ (opens k ∷ []))
  unfolding Keeps
  Keeps-opens k n t t' h =
      omega (arith, opened-append t' (opens k ∷ []), closed-append t' (opens k ∷ []))

  pub Keeps-close_fd :
      (k : ℤ) (n : ℕ) (t t' : Trace) → Keeps (n + one_if fd k) t t' → Keeps n t (close_fd k t')
  unfolding Keeps close_fd
  Keeps-close_fd k n t t' h =
      omega (arith, opened-append t' (closes k ∷ []), closed-append t' (closes k ∷ []))

  pub Keeps-epoll_add :
      (added_ok : ℤ → Bool) (k : ℤ) (n : ℕ) (t t' : Trace)
      → Keeps n t t'
      → Keeps n t (epoll_add added_ok k t').0
  unfolding Keeps epoll_add
  Keeps-epoll_add added_ok k n t t' h =
      omega (arith, opened-append t' (ctl_add_in k ∷ []), closed-append t' (ctl_add_in k ∷ []))

  pub Keeps-held_close :
      (k : ℤ) (n : ℕ) (t t' : Trace)
      → Keeps (n + held fd k) t t'
      → Keeps n t (if is_positive k then close_fd k t' else t')
  Keeps-held_close k n t t' h = elim (Bool-cases (is_positive k)) [
    | inl e ↦ rw e (
        Keeps-close_fd k n t t'
          (subst (λ m. Keeps (n + m) t t') (if_true (is_positive k) (one_if fd k) 0 e) h))
    | inr e ↦
        let none_held : n + held fd k ≡ n =
          omega (arith, if_false (is_positive k) (one_if fd k) 0 e) in
        rw e (subst (λ m. Keeps m t t') none_held h)
  ]

  -- After an attempt to open a descriptor `k`, from a trace where `n` more are open.
  unfoldable pub KeepsWith : ℕ → Trace → Trace × ℤ → Type 0
  KeepsWith n t (t', k) = Keeps (n + held fd k) t t'

  pub not_held :
      (k : ℤ) (n : ℕ) (t t' : Trace) → is_positive k ≡ false → Keeps n t t' → KeepsWith n t (t', k)
  unfolding KeepsWith
  not_held k n t t' e h =
      let none_held : n ≡ n + held fd k =
        omega (arith, if_false (is_positive k) (one_if fd k) 0 e) in
      subst (λ m. Keeps m t t') none_held h

  pub is_held :
      (k : ℤ) (n : ℕ) (t t' : Trace)
      → is_positive k ≡ true
      → Keeps (n + one_if fd k) t t'
      → KeepsWith n t (t', k)
  unfolding KeepsWith
  is_held k n t t' e h =
      subst (λ m. Keeps (n + m) t t') (sym (if_true (is_positive k) (one_if fd k) 0 e)) h

  pub drop_held :
      (k : ℤ) (n : ℕ) (t t' : Trace) → is_positive k ≡ false → KeepsWith n t (t', k) → Keeps n t t'
  unfolding KeepsWith
  drop_held k n t t' e h =
      let none_held : n + held fd k ≡ n =
        omega (arith, if_false (is_positive k) (one_if fd k) 0 e) in
      subst (λ m. Keeps m t t') none_held h
